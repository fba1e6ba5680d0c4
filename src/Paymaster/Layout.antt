-- ===== src/Paymaster/Layout.antt =====
-- Where the paymaster's data and the encoding under its hash hold their parts.
use signet_min_bundler.Prelude.{
  ℕ, ◌+◌, ◌<◌, ◌≤◌, ◌≡◌, refl, sym, ap, ◌∙◌, List, [], ◌∷◌, All, arith, Bytes, IsArray, length,
  length-replicate,
}
use signet_min_bundler.Go.{ℤ, pos, abs, zeros, sub, word}
use signet_min_bundler.Go.Writes.{
  Write, IsSized, write_all, apart, disjoint, Holds, length-write_all, write_all-Holds,
}
use signet_min_bundler.Hex.{big_bytes, pad_left32, set_bytes}
use signet_min_bundler.Hex.Laws.{length-word, set_bytes-word}
use signet_min_bundler.External.{External, ExternalLaws}
use signet_min_bundler.Core.UserOp.{PackedUserOp}
use signet_min_bundler.Core.Hash.Layout.{IsEncodable}
use signet_min_bundler.Paymaster.{
  Service, uint_word, encode_validity_and_sig, paymaster_gas_limits, hash_encoding,
}

length-uint_word : (n : ℕ) → n < word → length (uint_word n) ≡ 32
length-uint_word n h = length-word (pos n) (omega (arith, h))

read_uint_word : {m n : ℕ} → uint_word m ≡ uint_word n → m ≡ n
read_uint_word {m} {n} e = sym (set_bytes-word (pos m)) ∙ ap set_bytes e ∙ set_bytes-word (pos n)

-- The window and the signature, read back.
pub record HoldsWindow (paymaster_data : Bytes) (u a : ℕ) (signature : Bytes) : Type 0 where
  pub len : length paymaster_data ≡ 64 + length signature
  pub valid_until : set_bytes (sub paymaster_data 0 32) ≡ u
  pub valid_after : set_bytes (sub paymaster_data 32 64) ≡ a
  pub sig : sub paymaster_data 64 (64 + length signature) ≡ signature

window_writes : ℕ → ℕ → Bytes → List Write
window_writes u a sig =
    record { lo = 0; hi = 32; src = uint_word u }
    ∷ record { lo = 32; hi = 64; src = uint_word a }
    ∷ record { lo = 64; hi = 64 + length sig; src = sig }
    ∷ []

window_writes-IsSized :
    (u a : ℕ) (sig : Bytes)
    → u < word
    → a < word
    → All (IsSized (64 + length sig)) (window_writes u a sig)
unfolding window_writes
window_writes-IsSized u a sig h k = (
  record { size = omega (arith, length-uint_word u h); inside = omega arith },
  (
    record { size = omega (arith, length-uint_word a k); inside = omega arith },
    (record { size = refl; inside = omega arith }, tt),
  ),
)

-- c
pub encode_validity_and_sig-HoldsWindow :
    (u a : ℕ) (sig : Bytes)
    → u < word
    → a < word
    → HoldsWindow (encode_validity_and_sig u a sig) u a sig
unfolding encode_validity_and_sig window_writes write_all
encode_validity_and_sig-HoldsWindow u a sig h k =
    let parts =
      write_all-Holds (64 + length sig) (window_writes u a sig) (zeros (64 + length sig))
        (window_writes-IsSized u a sig h k) (length-replicate (64 + length sig) 0)
        (unfold disjoint apart in ground arith) in
    record {
      len =
          length-write_all (64 + length sig) (window_writes u a sig) (zeros (64 + length sig))
            (window_writes-IsSized u a sig h k) (length-replicate (64 + length sig) 0);
      valid_until = ap set_bytes parts.0 ∙ set_bytes-word (pos u);
      valid_after = ap set_bytes parts.1.0 ∙ set_bytes-word (pos a);
      sig = parts.1.1.0;
    }

hash_writes : External → Service → PackedUserOp → ℕ → ℕ → List Write
hash_writes x s op u a =
    record { lo = 12; hi = 32; src = op.sender }
    ∷ record { lo = 32; hi = 64; src = pad_left32 (big_bytes op.nonce) }
    ∷ record { lo = 64; hi = 96; src = x.keccak256 op.init_code }
    ∷ record { lo = 96; hi = 128; src = x.keccak256 op.call_data }
    ∷ record { lo = 128; hi = 160; src = op.account_gas_limits }
    ∷ record { lo = 160; hi = 192; src = paymaster_gas_limits }
    ∷ record { lo = 192; hi = 224; src = pad_left32 (big_bytes op.pre_verification_gas) }
    ∷ record { lo = 224; hi = 256; src = op.gas_fees }
    ∷ record { lo = 256; hi = 288; src = uint_word s.chain_id }
    ∷ record { lo = 300; hi = 320; src = s.paymaster_address }
    ∷ record { lo = 320; hi = 352; src = uint_word u }
    ∷ record { lo = 352; hi = 384; src = uint_word a }
    ∷ []

-- The sizes of Go's types.
pub record IsSignable (s : Service) (op : PackedUserOp) (u a : ℕ) : Type 0 where
  pub encodable : IsEncodable op
  pub paymaster_address : IsArray 20 s.paymaster_address
  pub chain_id : s.chain_id < word
  pub valid_until : u < word
  pub valid_after : a < word

sized :
    (lo hi : ℕ) (src : Bytes)
    → hi ≡ lo + length src
    → hi ≤ 384
    → IsSized 384 (record { lo = lo; hi = hi; src = src })
sized lo hi src e h = record { size = e; inside = h }

module _ (x : External) (laws : ExternalLaws x) where
  hash_writes-IsSized :
      (s : Service) (op : PackedUserOp) (u a : ℕ)
      → IsSignable s op u a
      → All (IsSized 384) (hash_writes x s op u a)
  unfolding hash_writes paymaster_gas_limits
  hash_writes-IsSized s op u a h =
      let keccak : (b : Bytes) → length (x.keccak256 b) ≡ 32 =
        λ b. (laws.keccak256-IsArray b).len in
      (
        sized 12 32 op.sender (omega (arith, h.encodable.sender.len)) (omega arith),
        (
          sized 32 64 (pad_left32 (big_bytes op.nonce))
              (omega (arith, length-word op.nonce h.encodable.nonce)) (omega arith),
          (
            sized 64 96 (x.keccak256 op.init_code) (omega (arith, keccak op.init_code))
                (omega arith),
            (
              sized 96 128 (x.keccak256 op.call_data) (omega (arith, keccak op.call_data))
                  (omega arith),
              (
                sized 128 160 op.account_gas_limits
                    (omega (arith, h.encodable.account_gas_limits.len)) (omega arith),
                (
                  sized 160 192 paymaster_gas_limits refl (omega arith),
                  (
                    sized 192 224 (pad_left32 (big_bytes op.pre_verification_gas))
                        (omega (
                          arith,
                          length-word op.pre_verification_gas h.encodable.pre_verification_gas,
                        ))
                        (omega arith),
                    (
                      sized 224 256 op.gas_fees (omega (arith, h.encodable.gas_fees.len))
                          (omega arith),
                      (
                        sized 256 288 (uint_word s.chain_id)
                            (omega (arith, length-uint_word s.chain_id h.chain_id)) (omega arith),
                        (
                          sized 300 320 s.paymaster_address (omega (arith, h.paymaster_address.len))
                              (omega arith),
                          (
                            sized 320 352 (uint_word u)
                                (omega (arith, length-uint_word u h.valid_until)) (omega arith),
                            (
                              sized 352 384 (uint_word a)
                                  (omega (arith, length-uint_word a h.valid_after)) (omega arith),
                              tt,
                            ),
                          ),
                        ),
                      ),
                    ),
                  ),
                ),
              ),
            ),
          ),
        ),
      )

  hash_encoding-Holds :
      (s : Service) (op : PackedUserOp) (u a : ℕ)
      → IsSignable s op u a
      → Holds (hash_encoding x s op u a) (hash_writes x s op u a)
  unfolding hash_encoding hash_writes write_all
  hash_encoding-Holds s op u a h =
      write_all-Holds 384 (hash_writes x s op u a) (zeros 384) (hash_writes-IsSized s op u a h)
        (length-replicate {A = ℕ} 384 0) (unfold disjoint apart in refl)

same_part : (b c : Bytes) (l h : ℕ) {s t : Bytes} → b ≡ c → sub b l h ≡ s → sub c l h ≡ t → s ≡ t
same_part b c l h e f g = sym f ∙ ap (λ z. sub z l h) e ∙ g

-- Two requests for a signature that agree in what the paymaster's hash covers.
pub record IsSameRequest (x : External) (s r : Service) (op other : PackedUserOp) (u a v b : ℕ)
    : Type 0 where
  pub sender : op.sender ≡ other.sender
  pub nonce : abs op.nonce ≡ abs other.nonce
  pub init_code : x.keccak256 op.init_code ≡ x.keccak256 other.init_code
  pub call_data : x.keccak256 op.call_data ≡ x.keccak256 other.call_data
  pub account_gas_limits : op.account_gas_limits ≡ other.account_gas_limits
  pub pre_verification_gas : abs op.pre_verification_gas ≡ abs other.pre_verification_gas
  pub gas_fees : op.gas_fees ≡ other.gas_fees
  pub chain_id : s.chain_id ≡ r.chain_id
  pub paymaster_address : s.paymaster_address ≡ r.paymaster_address
  pub valid_until : u ≡ v
  pub valid_after : a ≡ b

read_number : (m n : ℤ) → pad_left32 (big_bytes m) ≡ pad_left32 (big_bytes n) → abs m ≡ abs n
read_number m n e = sym (set_bytes-word m) ∙ ap set_bytes e ∙ set_bytes-word n

-- Two requests with arrays and numbers of the right sizes whose encodings under the paymaster's
-- hash are equal agree in the sender, the magnitude of the nonce and of the pre-verification gas,
-- the hashes of the init code and of the calldata, the gas limits, the fees, the chain, the
-- paymaster and both ends of the window.
pub hash_encoding_injective :
    (x : External) (laws : ExternalLaws x) (s r : Service) (op other : PackedUserOp) (u a v b : ℕ)
    → IsSignable s op u a
    → IsSignable r other v b
    → hash_encoding x s op u a ≡ hash_encoding x r other v b
    → IsSameRequest x s r op other u a v b
unfolding hash_writes
hash_encoding_injective x laws s r op other u a v b h k e =
    let (p1, (p2, (p3, (p4, (p5, (_, (p7, (p8, (p9, (p10, (p11, (p12, _)))))))))))) =
      hash_encoding-Holds x laws s op u a h in
    let (q1, (q2, (q3, (q4, (q5, (_, (q7, (q8, (q9, (q10, (q11, (q12, _)))))))))))) =
      hash_encoding-Holds x laws r other v b k in
    let c = hash_encoding x s op u a in
    let d = hash_encoding x r other v b in
    record {
      sender = same_part c d 12 32 e p1 q1;
      nonce = read_number op.nonce other.nonce (same_part c d 32 64 e p2 q2);
      init_code = same_part c d 64 96 e p3 q3;
      call_data = same_part c d 96 128 e p4 q4;
      account_gas_limits = same_part c d 128 160 e p5 q5;
      pre_verification_gas =
          read_number op.pre_verification_gas other.pre_verification_gas
            (same_part c d 192 224 e p7 q7);
      gas_fees = same_part c d 224 256 e p8 q8;
      chain_id = read_uint_word {m = s.chain_id} {n = r.chain_id} (same_part c d 256 288 e p9 q9);
      paymaster_address = same_part c d 300 320 e p10 q10;
      valid_until = read_uint_word {m = u} {n = v} (same_part c d 320 352 e p11 q11);
      valid_after = read_uint_word {m = a} {n = b} (same_part c d 352 384 e p12 q12);
    }
