-- ===== src/Validator/Accepts.antt =====
-- When the validator accepts an operation.
use signet_min_bundler.Prelude.{
  ℕ, ◌%◌, ◌^◌, ◌≡◌, Bool, true, false, ◌&&◌, leb, arith, equal, any, length,
}
use signet_min_bundler.Go.{Result, ok, ℤ, abs, word, sub}
use signet_min_bundler.Core.UserOp.{PackedUserOp}
use signet_min_bundler.Core.Pack.{pack_big_ints}
use signet_min_bundler.Core.Pack.Halves.{pack_big_ints_halves}
use signet_min_bundler.Validator.{Validator, check_gas_limits, check_paymaster, validate}

abbrev pub is_ok {ℓ} : {A : Type ℓ} → Result A → Bool
is_ok (ok a) = true
is_ok _ = false

low_bits : (n : ℕ) → n % 2 ^ 128 % word ≡ n % word
low_bits n = omega arith

-- An operation whose gas limits were packed from two integers is accepted exactly if the low 64
-- bits of the magnitude of each are at most the configured maximum and the first 20 bytes of its
-- paymaster field are an allowed paymaster; higher bits of a limit are not compared, and nothing
-- else of the operation is looked at, in particular not the target of its call.
pub validate_accepts :
    (v : Validator) (op : PackedUserOp) (verification call : ℤ)
    → op.account_gas_limits ≡ pack_big_ints verification call
    → is_ok (validate v op) ≡ (
        leb (abs verification % word) v.max_verification_gas
        && leb (abs call % word) v.max_call_gas
        && leb 20 (length op.paymaster_and_data)
        && any (λ p. equal p (sub op.paymaster_and_data 0 20)) v.allowed_paymasters)
unfolding validate check_gas_limits check_paymaster
validate_accepts v op verification call e =
    let (size, hi, lo) = pack_big_ints_halves verification call in
    rw (e, hi, lo, low_bits (abs verification), low_bits (abs call)) (ground arith)
