-- ===== src/Core/Crypto.antt =====
-- internal/core/crypto.go, and its copy in cmd/send-userop/main.go: the signer's address of a public
-- key, and the challenge of FROST. SHA-256 (crypto/sha256) and Keccak-256 are arguments.
pub mod Expand
pub mod Reference
use Prim.Native.Nat.{bit_xor}
use signet_min_bundler.Prelude.{
  ℕ, zero, suc, ◌+◌, ◌-◌, ◌*◌, ◌/◌, ◌%◌, ◌^◌, Bool, not, ◌&&◌, List, [], ◌∷◌, ◌++◌, if◌then◌else◌,
  ◌==◌, Bytes, codes, length, take, drop, replicate,
}
use signet_min_bundler.Go.{Result, ok, err, pos, zeros}
use signet_min_bundler.Hex.{set_bytes, big_bytes, pad_left32}
use signet_min_bundler.External.{External}

-- The order of the field of secp256k1, and that of its group.
abbrev pub field_prime : ℕ
field_prime = 2 ^ 256 - 2 ^ 32 - 977

abbrev pub group_order : ℕ
group_order = 115792089237316195423570985008687907852837564279074904382605163141518161494337

-- `y2` of the x coordinate.
abbrev pub curve_y2 : ℕ → ℕ
curve_y2 x = (x * x % field_prime * x % field_prime + 7) % field_prime

-- The square root that `Exp` computes, and the one of the two whose parity the prefix asks for.
unfoldable pub curve_y : ℕ → ℕ → ℕ
curve_y prefix x =
    let y = curve_y2 x ^ ((field_prime + 1) / 4) % field_prime in
    if y % 2 == (if prefix == 3 then 1 else 0) then y else field_prime - y

abbrev pub first_byte : Bytes → ℕ
first_byte [] = 0
first_byte (b ∷ bs) = b

-- `PubKeyToAddress`. (The errors' texts give the length and the prefix too.)
unfoldable pub pub_key_to_address : External → Bytes → Result Bytes
unfolding curve_y
pub_key_to_address x pub_key =
    let prefix = first_byte pub_key in
    let px = set_bytes (drop 1 pub_key) in
    if not (length pub_key == 33)
    then err (codes "pubKeyToAddress: need 33 bytes")
    else if not (prefix == 2) && not (prefix == 3)
    then err (codes "pubKeyToAddress: invalid prefix")
    else ok (
        drop 12 (
          x.keccak256
            (pad_left32 (big_bytes (pos px)) ++ pad_left32 (big_bytes (pos (curve_y prefix px))))))

-- `prev[j] ^ b0[j]` for the bytes of both.
unfoldable pub xor_bytes : Bytes → Bytes → Bytes
xor_bytes [] bs = []
xor_bytes (p ∷ prev) [] = []
xor_bytes (p ∷ prev) (b ∷ bs) = bit_xor p b ∷ xor_bytes prev bs

-- The blocks from `b_i` on, `rounds` of them, after the block `prev`.
unfoldable pub next_blocks : (Bytes → Bytes) → Bytes → Bytes → ℕ → ℕ → Bytes → Bytes
unfolding xor_bytes
next_blocks sha256 dst_prime b0 zero i prev = []
next_blocks sha256 dst_prime b0 (suc rounds) i prev =
    let b = sha256 (xor_bytes prev b0 ++ (i % 256 ∷ dst_prime)) in
    b ++ next_blocks sha256 dst_prime b0 rounds (i + 1) b

-- `ExpandMessageXMD`
unfoldable pub expand_message_xmd : (Bytes → Bytes) → Bytes → Bytes → ℕ → Bytes
unfolding next_blocks
expand_message_xmd sha256 msg dst_prime out_len =
    let ell = (out_len + 31) / 32 in
    let l_str = out_len / 256 % 256 ∷ out_len % 256 ∷ [] in
    let b0 = sha256 (zeros 64 ++ (msg ++ (l_str ++ (0 ∷ dst_prime)))) in
    let b1 = sha256 (b0 ++ (1 ∷ dst_prime)) in
    take out_len (b1 ++ next_blocks sha256 dst_prime b0 (ell - 1) 2 b1)

-- `FrostChallenge`
unfoldable pub frost_challenge : (Bytes → Bytes) → Bytes → ℕ
unfolding expand_message_xmd
frost_challenge sha256 input =
    let dst = codes "FROST-secp256k1-SHA256-v1chal" in
    let dst_prime = dst ++ length dst % 256 ∷ [] in
    set_bytes (expand_message_xmd sha256 input dst_prime 48) % group_order
