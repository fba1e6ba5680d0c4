-- ===== src/Validator.antt =====
-- internal/validator/allowlist.go: the checks on an operation before it enters the mempool.
pub mod Accepts
use signet_min_bundler.Prelude.{
  ℕ, Bool, List, ltb, if◌then◌else◌, Bytes, Text, codes, equal, any, length,
}
use signet_min_bundler.Go.{Result, ok, err, ◌>>◌, uint64_of, sub}
use signet_min_bundler.Hex.{set_bytes}
use signet_min_bundler.Core.UserOp.{PackedUserOp}

-- `Validator`; the set of paymasters is a list.
pub record Validator : Type 0 where
  pub allowed_paymasters : List Bytes
  pub max_verification_gas : ℕ
  pub max_call_gas : ℕ

-- `checkGasLimits`. (The errors' texts quote the numbers too.)
unfoldable pub check_gas_limits : Validator → PackedUserOp → Result (Unit {0})
check_gas_limits v op =
    let verif_gas = set_bytes (sub op.account_gas_limits 0 16) in
    let call_gas = set_bytes (sub op.account_gas_limits 16 32) in
    if ltb v.max_verification_gas (uint64_of verif_gas)
    then err (codes "verificationGasLimit exceeds max")
    else if ltb v.max_call_gas (uint64_of call_gas)
    then err (codes "callGasLimit exceeds max")
    else ok tt

-- `checkPaymaster`
unfoldable pub check_paymaster : Validator → PackedUserOp → Result (Unit {0})
check_paymaster v op =
    if ltb (length op.paymaster_and_data) 20
    then err (codes "paymaster required")
    else if any (λ p. equal p (sub op.paymaster_and_data 0 20)) v.allowed_paymasters
    then ok tt
    else err (codes "paymaster not in allowed list")

-- `Validate`
unfoldable pub validate : Validator → PackedUserOp → Result (Unit {0})
unfolding check_gas_limits check_paymaster
validate v op = check_gas_limits v op >> check_paymaster v op
