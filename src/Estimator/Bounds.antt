-- ===== src/Estimator/Bounds.antt =====
-- The gas that `CalcPreVerificationGas` charges.
use signet_min_bundler.Prelude.{
  ℕ, ◌+◌, ◌*◌, ◌%◌, ◌^◌, ◌≡◌, ◌<◌, refl, not, [], ◌∷◌, ◌==◌, arith, Bytes, length, select, inl, inr,
  Bool-cases,
}
use signet_min_bundler.Go.{word}
use signet_min_bundler.Core.UserOp.{PackedUserOp}
use signet_min_bundler.Estimator.{abi_encode_packed_op, calldata_cost, calc_pre_verification_gas}

-- The number of zero bytes, and of other bytes.
abbrev pub zero_bytes : Bytes → ℕ
zero_bytes bs = length (select (λ b. b == 0) bs)

abbrev pub nonzero_bytes : Bytes → ℕ
nonzero_bytes bs = length (select (λ b. not (b == 0)) bs)

-- Every byte is counted once.
counted_length : (bs : Bytes) → zero_bytes bs + nonzero_bytes bs ≡ length bs
counted_length [] = refl
counted_length (b ∷ bs) = ground (arith, counted_length bs)

calldata_cost_counts :
    (cost : ℕ) (bs : Bytes)
    → cost + 16 * length bs < word
    → calldata_cost cost bs ≡ cost + 4 * zero_bytes bs + 16 * nonzero_bytes bs
unfolding calldata_cost
calldata_cost_counts cost [] h = omega arith
calldata_cost_counts cost (b ∷ bs) h = elim (Bool-cases (b == 0)) [
  | inl e ↦ rw e (ground (arith, calldata_cost_counts ((cost + 4) % word) bs))
  | inr e ↦ rw e (ground (arith, calldata_cost_counts ((cost + 16) % word) bs))
]

-- An operation whose encoding is shorter than 2^59 bytes is charged 32,000 gas, 4 for every zero
-- byte of the encoding and 16 for every other byte: nothing wraps around.
pub calc_pre_verification_gas_counts :
    (op : PackedUserOp)
    → length (abi_encode_packed_op op) < 2 ^ 59
    → calc_pre_verification_gas op
      ≡ 32000
        + 4 * zero_bytes (abi_encode_packed_op op)
        + 16 * nonzero_bytes (abi_encode_packed_op op)
unfolding calc_pre_verification_gas
calc_pre_verification_gas_counts op h =
    let size = counted_length (abi_encode_packed_op op) in
    omega (arith, size, calldata_cost_counts 0 (abi_encode_packed_op op) (omega (arith, h)))
