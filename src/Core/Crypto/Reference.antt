-- ===== src/Core/Crypto/Reference.antt =====
-- The challenge of FROST(secp256k1, SHA-256) as RFC 9591, section 6.5, and RFC 9380, section 5.3.1,
-- write it, and that `FrostChallenge` of internal/core/crypto.go computes it. SHA-256 is an argument.
use Prim.Native.Nat.{bit_xor}
use native.Mathlib.Nat.{mod-lt}
use signet_min_bundler.Prelude.{
  ℕ, zero, suc, ◌+◌, ◌-◌, ◌*◌, ◌/◌, ◌%◌, ◌^◌, ◌<◌, ◌≡◌, refl, sym, ap, ◌∙◌, inl, inr, arith, [],
  ◌∷◌, ◌++◌, append_assoc, append-nil, ◌==◌, Bool-cases, Bytes, codes, length, take,
}
use signet_min_bundler.Go.{zeros}
use signet_min_bundler.Hex.{set_bytes}
use signet_min_bundler.Hex.Digits.{value_from-acc, of_digits, value_from}
use signet_min_bundler.Core.Crypto.{
  group_order, xor_bytes, next_blocks, expand_message_xmd, frost_challenge,
}

-- I2OSP(n, w): `w` bytes, the most significant first.
unfoldable pub i2osp : ℕ → ℕ → Bytes
i2osp n zero = []
i2osp n (suc w) = n / 256 ^ w % 256 ∷ i2osp n w

-- OS2IP
unfoldable pub os2ip : Bytes → ℕ
os2ip [] = 0
os2ip (b ∷ bs) = b * 256 ^ length bs + os2ip bs

-- strxor
unfoldable pub str_xor : Bytes → Bytes → Bytes
str_xor (x ∷ xs) (y ∷ ys) = bit_xor x y ∷ str_xor xs ys
str_xor _ _ = []

module _ (sha256 : Bytes → Bytes) (msg dst : Bytes) (len : ℕ) where
  abbrev dst_prime : Bytes
  dst_prime = dst ++ i2osp (length dst) 1

  -- b_0, with Z_pad of the 64 bytes of a block.
  abbrev b_0 : Bytes
  b_0 = sha256 (i2osp 0 64 ++ (msg ++ (i2osp len 2 ++ (i2osp 0 1 ++ dst_prime))))

  -- b_1, and b_(i + 2) from b_(i + 1).
  unfoldable pub block : ℕ → Bytes
  unfolding i2osp
  block zero = sha256 (b_0 ++ (i2osp 1 1 ++ dst_prime))
  block (suc i) = sha256 (str_xor (block i) b_0 ++ (i2osp (i + 2) 1 ++ dst_prime))

  -- b_1 to b_k, one after the other.
  unfoldable pub uniform_bytes : ℕ → Bytes
  uniform_bytes zero = []
  uniform_bytes (suc k) = uniform_bytes k ++ block k

  -- expand_message_xmd: the first bytes of as many blocks as hold them.
  unfoldable pub expand_message : Bytes
  expand_message = take len (uniform_bytes ((len + 31) / 32))

-- The domain separation tag of H2.
abbrev pub h2_dst : Bytes
h2_dst = codes "FROST-secp256k1-SHA256-v1" ++ codes "chal"

-- The order of the group of secp256k1 (SEC 2).
abbrev pub secp256k1_order : ℕ
secp256k1_order = 2 ^ 256 - 432420386565659656852420866394968145599

-- compute_challenge: H2, which is hash_to_field of 48 bytes, of R, the public key and the message.
unfoldable pub challenge : (Bytes → Bytes) → Bytes → Bytes → Bytes → ℕ
unfolding expand_message
challenge sha256 r_enc pk_enc msg =
    os2ip (expand_message sha256 (r_enc ++ (pk_enc ++ msg)) h2_dst 48) % secp256k1_order

xor_bytes-str_xor : (xs ys : Bytes) → xor_bytes xs ys ≡ str_xor xs ys
unfolding xor_bytes str_xor
xor_bytes-str_xor [] ys = refl
xor_bytes-str_xor (x ∷ xs) [] = refl
xor_bytes-str_xor (x ∷ xs) (y ∷ ys) = ap (λ z. bit_xor x y ∷ z) (xor_bytes-str_xor xs ys)

pub os2ip-set_bytes : (b : Bytes) → os2ip b ≡ set_bytes b
unfolding os2ip set_bytes of_digits value_from
os2ip-set_bytes [] = refl
os2ip-set_bytes (b ∷ bs) = omega (arith, value_from-acc 256 (0 * 256 + b) bs, os2ip-set_bytes bs)

i2osp-one : (n : ℕ) → i2osp n 1 ≡ n % 256 ∷ []
unfolding i2osp
i2osp-one n = ap (λ k. k ∷ []) {x = n / 256 ^ 0 % 256} {y = n % 256} (omega arith)

i2osp-two : (n : ℕ) → i2osp n 2 ≡ n / 256 % 256 ∷ n % 256 ∷ []
unfolding i2osp
i2osp-two n = ap (λ z. n / 256 % 256 ∷ z) (i2osp-one n)

module _ (sha256 : Bytes → Bytes) (msg dst : Bytes) (len : ℕ) where
  next_block :
      (i : ℕ)
      → sha256 (
          xor_bytes (block sha256 msg dst len i) (b_0 sha256 msg dst len)
          ++ ((i + 2) % 256 ∷ dst_prime sha256 msg dst len))
        ≡ block sha256 msg dst len (suc i)
  unfolding block
  next_block i =
      let dp = dst_prime sha256 msg dst len in
      let prev = block sha256 msg dst len i in
      let b0 = b_0 sha256 msg dst len in
      ap (λ z. sha256 (z ++ ((i + 2) % 256 ∷ dp))) (xor_bytes-str_xor prev b0)
      ∙ ap (λ z. sha256 (str_xor prev b0 ++ (z ++ dp))) (sym (i2osp-one (i + 2)))

  -- The blocks that the loop adds.
  next_blocks-uniform_bytes :
      (rounds j : ℕ)
      → uniform_bytes sha256 msg dst len (suc j)
          ++ next_blocks sha256
              (dst_prime sha256 msg dst len)
              (b_0 sha256 msg dst len)
              rounds
              (j + 2)
              (block sha256 msg dst len j)
        ≡ uniform_bytes sha256 msg dst len (suc j + rounds)
  unfolding next_blocks uniform_bytes
  next_blocks-uniform_bytes zero j =
      append-nil (uniform_bytes sha256 msg dst len (suc j))
      ∙ ap (uniform_bytes sha256 msg dst len) {x = suc j} {y = suc j + 0} (omega arith)
  next_blocks-uniform_bytes (suc rounds) j =
      let done = uniform_bytes sha256 msg dst len (suc j) in
      let more =
        next_blocks sha256 (dst_prime sha256 msg dst len) (b_0 sha256 msg dst len) rounds in
      let b = block sha256 msg dst len (suc j) in
      ap (λ z. done ++ (z ++ more (j + 2 + 1) z)) (next_block j)
      ∙ sym (append_assoc done b (more (j + 2 + 1) b))
      ∙ ap (λ i. (done ++ b) ++ more i b) {x = j + 2 + 1} {y = suc j + 2} (omega arith)
      ∙ next_blocks-uniform_bytes rounds (suc j)
      ∙ ap (uniform_bytes sha256 msg dst len) {x = suc (suc j) + rounds} {y = suc j + suc rounds}
          (omega arith)

  first_hash :
      sha256 (
        zeros 64
        ++ (msg ++ ((len / 256 % 256 ∷ len % 256 ∷ []) ++ (0 ∷ dst_prime sha256 msg dst len))))
      ≡ b_0 sha256 msg dst len
  unfolding i2osp
  first_hash =
      ap (λ z. sha256 (zeros 64 ++ (msg ++ (z ++ (0 ∷ dst_prime sha256 msg dst len)))))
        (sym (i2osp-two len))

  -- A text of no bytes needs no block, and the code makes one.
  last_round :
      take len (uniform_bytes sha256 msg dst len (suc zero + ((len + 31) / 32 - 1)))
      ≡ take len (uniform_bytes sha256 msg dst len ((len + 31) / 32))
  last_round = elim (Bool-cases (len == 0)) [
    | inl none ↦ nothing len (ground arith) _ _
    | inr some ↦
        ap (λ k. take len (uniform_bytes sha256 msg dst len k))
          {x = suc zero + ((len + 31) / 32 - 1)} {y = (len + 31) / 32} (ground arith)
  ]
    where
      nothing : (n : ℕ) → n ≡ 0 → (xs ys : Bytes) → take n xs ≡ take n ys
      nothing zero e xs ys = refl
      nothing (suc n) e xs ys = absurd (omega (arith, e))

  -- ExpandMessageXMD is expand_message_xmd of RFC 9380.
  expand_message_xmd-expand_message :
      expand_message_xmd sha256 msg (dst_prime sha256 msg dst len) len
      ≡ expand_message sha256 msg dst len
  unfolding expand_message_xmd expand_message block uniform_bytes
  expand_message_xmd-expand_message =
      let dp = dst_prime sha256 msg dst len in
      let ell = (len + 31) / 32 in
      ap
        (λ b0. take len (
          sha256 (b0 ++ (1 ∷ dp))
          ++ next_blocks sha256 dp b0 (ell - 1) 2 (sha256 (b0 ++ (1 ∷ dp)))))
        first_hash
      ∙ ap (take len) (next_blocks-uniform_bytes (ell - 1) 0)
      ∙ last_round

-- FrostChallenge of the encoded point, the public key and the message is the challenge of RFC 9591.
pub frost_challenge-challenge :
    (sha256 : Bytes → Bytes) (r_enc pk_enc msg : Bytes)
    → frost_challenge sha256 (r_enc ++ (pk_enc ++ msg)) ≡ challenge sha256 r_enc pk_enc msg
unfolding frost_challenge challenge i2osp
frost_challenge-challenge sha256 r_enc pk_enc msg =
    let input = r_enc ++ (pk_enc ++ msg) in
    ap (λ b. set_bytes b % group_order) (expand_message_xmd-expand_message sha256 input h2_dst 48)
    ∙ ap (λ n. n % group_order) (sym (os2ip-set_bytes (expand_message sha256 input h2_dst 48)))

pub challenge_lt :
    (sha256 : Bytes → Bytes) (r_enc pk_enc msg : Bytes)
    → challenge sha256 r_enc pk_enc msg < secp256k1_order
unfolding challenge
challenge_lt sha256 r_enc pk_enc msg =
    mod-lt (os2ip (expand_message sha256 (r_enc ++ (pk_enc ++ msg)) h2_dst 48)) (omega arith)
