-- ===== src/Core/Crypto/Expand.antt =====
-- How many bytes `ExpandMessageXMD` gives.
use signet_min_bundler.Prelude.{
  ℕ, zero, suc, ◌+◌, ◌-◌, ◌*◌, ◌/◌, ◌≡◌, ◌++◌, ◌∷◌, [], arith, Bytes, length, length-append,
  length-take, ◌%◌,
}
use signet_min_bundler.Go.{zeros}
use signet_min_bundler.Core.Crypto.{xor_bytes, next_blocks, expand_message_xmd}

module _ (sha256 : Bytes → Bytes) (laws : (b : Bytes) → length (sha256 b) ≡ 32) where
  length-next_blocks :
      (dst_prime b0 : Bytes) (rounds i : ℕ) (prev : Bytes)
      → length (next_blocks sha256 dst_prime b0 rounds i prev) ≡ 32 * rounds
  unfolding next_blocks
  length-next_blocks dst_prime b0 zero i prev = omega arith
  length-next_blocks dst_prime b0 (suc rounds) i prev =
      let b = sha256 (xor_bytes prev b0 ++ (i % 256 ∷ dst_prime)) in
      rw length-append (
        omega (
          arith,
          laws (xor_bytes prev b0 ++ (i % 256 ∷ dst_prime)),
          length-next_blocks dst_prime b0 rounds (i + 1) b,
        ))

  -- If SHA-256 gives 32 bytes: ExpandMessageXMD gives exactly as many bytes as are asked for.
  pub length-expand_message_xmd :
      (msg dst_prime : Bytes) (out_len : ℕ)
      → length (expand_message_xmd sha256 msg dst_prime out_len) ≡ out_len
  unfolding expand_message_xmd
  length-expand_message_xmd msg dst_prime out_len =
      let l_str = out_len / 256 % 256 ∷ out_len % 256 ∷ [] in
      let b0 = sha256 (zeros 64 ++ (msg ++ (l_str ++ (0 ∷ dst_prime)))) in
      let b1 = sha256 (b0 ++ (1 ∷ dst_prime)) in
      rw (length-take, length-append)
        (ground (
          arith,
          laws (b0 ++ (1 ∷ dst_prime)),
          length-next_blocks dst_prime b0 ((out_len + 31) / 32 - 1) 2 b1,
        ))
