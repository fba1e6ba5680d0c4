-- ===== src/Estimator.antt =====
-- internal/estimator/gas.go: the gas of an operation without simulating it.
pub mod Bounds
use signet_min_bundler.Prelude.{
  ℕ, ◌+◌, ◌*◌, ◌/◌, ◌%◌, Bool, List, [], ◌∷◌, ◌++◌, ltb, ◌==◌, if◌then◌else◌, Bytes, Text, codes,
  length,
}
use signet_min_bundler.Go.{Result, ok, err, panic, ◌>>=◌, wrap, Answer, answer, failure, ℤ, word}
use signet_min_bundler.Hex.{big_bytes, pad_left32}
use signet_min_bundler.External.{External}
use signet_min_bundler.Core.UserOp.{PackedUserOp}
use signet_min_bundler.Core.Calldata.{decode_signet_execute}

-- `GasEstimate`
pub record GasEstimate : Type 0 where
  pub pre_verification_gas : ℕ
  pub verification_gas_limit : ℕ
  pub call_gas_limit : ℕ

-- `ethereum.CallMsg`, as far as it is set.
pub record CallMsg : Type 0 where
  pub from_address : Bytes
  pub to : Bytes
  pub value : ℤ
  pub data_bytes : Bytes

abbrev pub verification_gas_limit_deployed : ℕ
verification_gas_limit_deployed = 150000

abbrev pub verification_gas_limit_create : ℕ
verification_gas_limit_create = 1000000

-- `abiEncodePackedOp`
unfoldable pub abi_encode_packed_op : PackedUserOp → Bytes
abi_encode_packed_op op =
    pad_left32 op.sender
    ++ (pad_left32 (big_bytes op.nonce)
        ++ (op.init_code
            ++ (op.call_data
                ++ (op.account_gas_limits
                    ++ (pad_left32 (big_bytes op.pre_verification_gas)
                        ++ (op.gas_fees ++ (op.paymaster_and_data ++ op.signature)))))))

-- The loop of `CalcPreVerificationGas`, on `uint64`.
unfoldable pub calldata_cost : ℕ → Bytes → ℕ
calldata_cost cost [] = cost
calldata_cost cost (b ∷ bs) = calldata_cost ((cost + (if b == 0 then 4 else 16)) % word) bs

-- `CalcPreVerificationGas`
unfoldable pub calc_pre_verification_gas : PackedUserOp → ℕ
unfolding abi_encode_packed_op calldata_cost
calc_pre_verification_gas op = (calldata_cost 0 (abi_encode_packed_op op) + 21000 + 11000) % word

-- `gas * 130 / 100` on `uint64`.
abbrev pub with_wrapper : ℕ → ℕ
with_wrapper gas = gas * 130 % word / 100

-- The answer of the node, with the buffer.
abbrev pub buffered : Answer ℕ → Result ℕ
buffered (answer gas) = ok (with_wrapper gas)
buffered (failure e) = err e

-- `estimateCallGas`, with the node's `EstimateGas`.
unfoldable pub estimate_call_gas : External → (CallMsg → Answer ℕ) → PackedUserOp → Result ℕ
estimate_call_gas x estimate_gas op = do
  (target, value, inner) ← decode_signet_execute x op.call_data
  buffered (
      estimate_gas
        (record { from_address = op.sender; to = target; value = value; data_bytes = inner }))

-- `Estimate`
unfoldable pub estimate : External → (CallMsg → Answer ℕ) → PackedUserOp → Result GasEstimate
unfolding calc_pre_verification_gas estimate_call_gas
estimate x estimate_gas op = do
  let pvg = calc_pre_verification_gas op
  call_gas ← wrap (codes "estimateCallGas: ") (estimate_call_gas x estimate_gas op)
  ok (record {
    pre_verification_gas = pvg;
    verification_gas_limit =
        if ltb 0 (length op.init_code)
        then verification_gas_limit_create
        else verification_gas_limit_deployed;
    call_gas_limit = call_gas;
  })
