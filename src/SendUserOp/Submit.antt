-- ===== src/SendUserOp/Submit.antt =====
-- cmd/send-userop/main.go: the operation in the wire form, and the two calls of the bundler.
use signet_min_bundler.Prelude.{
  ℕ, [], ◌++◌, if◌then◌else◌, leb, Bytes, Text, codes, length, take, drop,
}
use signet_min_bundler.Go.{
  Result, ok, err, ◌>>=◌, wrap, Answer, answer, failure, ℤ, pos, sub, zeros,
}
use signet_min_bundler.Hex.{bytes_to_hex, big_to_hex, set_bytes}
use signet_min_bundler.Core.UserOp.{UserOperationRpc, PackedUserOp}
use signet_min_bundler.SendUserOp.Parse.{parse_big_hex}
use signet_min_bundler.SendUserOp.Fetch.{text_of, wire_hex}

-- A number in the half of a packed word.
abbrev pub half : Bytes → ℕ → ℕ → ℤ
half b lo hi = pos (set_bytes (sub b lo hi))

-- `factory` and `factoryData`, left out if the init code is too short.
abbrev pub factory_of : Bytes → Text
factory_of init_code = if leb 20 (length init_code) then wire_hex (take 20 init_code) else []

abbrev pub factory_data_of : Bytes → Text
factory_data_of init_code =
    if leb 20 (length init_code) then bytes_to_hex (drop 20 init_code) else []

-- The object of `submitToBundler`; a member that it does not set is "".
unfoldable pub submitted_op : PackedUserOp → UserOperationRpc
submitted_op op = record {
  sender = wire_hex op.sender;
  nonce = big_to_hex op.nonce;
  factory = factory_of op.init_code;
  factory_data = factory_data_of op.init_code;
  call_data = bytes_to_hex op.call_data;
  call_gas_limit = big_to_hex (half op.account_gas_limits 16 32);
  verification_gas_limit = big_to_hex (half op.account_gas_limits 0 16);
  pre_verification_gas = big_to_hex op.pre_verification_gas;
  max_fee_per_gas = big_to_hex (half op.gas_fees 16 32);
  max_priority_fee_per_gas = big_to_hex (half op.gas_fees 0 16);
  paymaster = [];
  paymaster_data = [];
  signature = bytes_to_hex op.signature;
}

-- The object of `fetchGasEstimate`.
unfoldable pub estimated_op : PackedUserOp → UserOperationRpc
unfolding submitted_op
estimated_op op = record (submitted_op op) {
  verification_gas_limit = codes "0x4c4b40";
  call_gas_limit = codes "0xf4240";
  pre_verification_gas = codes "0x186a0";
  signature = wire_hex (zeros 65);
}

-- The three texts of an estimate.
pub record EstimateTexts : Type 0 where
  pub pre_verification_gas : Text
  pub verification_gas_limit : Text
  pub call_gas_limit : Text

-- `gasEstimate`
pub record ReadEstimate : Type 0 where
  pub pre_verification_gas : ℤ
  pub verification_gas_limit : ℤ
  pub call_gas_limit : ℤ

-- The bundler: what it answers to the two calls, by the operation and the entry point as texts. An
-- answer is an error of the call, or what the result is as JSON.
pub record BundlerApi : Type 0 where
  pub estimate_gas : UserOperationRpc → Text → Answer (Answer EstimateTexts)
  pub send_operation : UserOperationRpc → Text → Answer (Answer Text)

abbrev pub decoded_estimate : Answer (Answer EstimateTexts) → Result EstimateTexts
decoded_estimate (failure e) = err e
decoded_estimate (answer (failure e)) = err (codes "decode gas estimate response: " ++ e)
decoded_estimate (answer (answer t)) = ok t

-- `fetchGasEstimate`
unfoldable pub fetch_gas_estimate : BundlerApi → PackedUserOp → Bytes → Result ReadEstimate
unfolding estimated_op parse_big_hex
fetch_gas_estimate api op entry_point = do
  resp ← decoded_estimate (api.estimate_gas (estimated_op op) (wire_hex entry_point))
  pvg ← wrap (codes "parse preVerificationGas: ") (parse_big_hex resp.pre_verification_gas)
  vgl ← wrap (codes "parse verificationGasLimit: ") (parse_big_hex resp.verification_gas_limit)
  cgl ← wrap (codes "parse callGasLimit: ") (parse_big_hex resp.call_gas_limit)
  ok (record { pre_verification_gas = pvg; verification_gas_limit = vgl; call_gas_limit = cgl })

-- `submitToBundler`
unfoldable pub submit_to_bundler : BundlerApi → PackedUserOp → Bytes → Result Text
unfolding submitted_op
submit_to_bundler api op entry_point =
    text_of (codes "decode bundler result: ")
      (api.send_operation (submitted_op op) (wire_hex entry_point))
