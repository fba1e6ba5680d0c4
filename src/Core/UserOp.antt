-- ===== src/Core/UserOp.antt =====
-- internal/core/userop.go: the wire form, the packed form, and `FromRPC`.
use signet_min_bundler.Prelude.{
  ◌+◌, Bool, true, false, [], ◌∷◌, Bytes, Text, codes, length, if◌then◌else◌,
}
use signet_min_bundler.Go.{Result, ok, ◌>>=◌, wrap, ℤ, copy_at, zeros}
use signet_min_bundler.Hex.{decode_hex, hex_to_big_int}
use signet_min_bundler.External.{External}
use signet_min_bundler.Core.Pack.{pack_big_ints}

-- `UserOperationRPC`: texts as the client sent them, "" where the field is left out.
pub record UserOperationRpc : Type 0 where
  pub sender : Text
  pub nonce : Text
  pub factory : Text
  pub factory_data : Text
  pub call_data : Text
  pub call_gas_limit : Text
  pub verification_gas_limit : Text
  pub pre_verification_gas : Text
  pub max_fee_per_gas : Text
  pub max_priority_fee_per_gas : Text
  pub paymaster : Text
  pub paymaster_data : Text
  pub signature : Text

-- `PackedUserOp`. An empty and a nil slice are the same list.
pub record PackedUserOp : Type 0 where
  pub sender : Bytes
  pub nonce : ℤ
  pub init_code : Bytes
  pub call_data : Bytes
  pub account_gas_limits : Bytes
  pub pre_verification_gas : ℤ
  pub gas_fees : Bytes
  pub paymaster_and_data : Bytes
  pub signature : Bytes

-- `make([]byte, 20+len(tail))` with the address and then `tail` copied into it.
unfoldable pub address_then : Bytes → Bytes → Bytes
address_then address tail =
    let size = 20 + length tail in copy_at (copy_at (zeros size) 0 20 address) 20 size tail

abbrev pub is_empty : Text → Bool
is_empty [] = true
is_empty (c ∷ s) = false

-- `initCode`, and `paymasterAndData`, which is built the same way.
unfoldable pub optional_part : External → Text → Text → Text → Result Bytes
unfolding address_then
optional_part x context address_text data_text = if is_empty address_text then ok [] else (do
  tail ← wrap context (decode_hex data_text)
  ok (address_then (x.hex_to_address address_text) tail))

unfoldable pub from_rpc : External → UserOperationRpc → Result PackedUserOp
from_rpc x op = do
  let sender = x.hex_to_address op.sender
  nonce ← wrap (codes "nonce: ") (hex_to_big_int op.nonce)
  call_data ← wrap (codes "callData: ") (decode_hex op.call_data)
  call_gas_limit ← wrap (codes "callGasLimit: ") (hex_to_big_int op.call_gas_limit)
  verification_gas_limit ←
      wrap (codes "verificationGasLimit: ") (hex_to_big_int op.verification_gas_limit)
  pre_verification_gas ←
      wrap (codes "preVerificationGas: ") (hex_to_big_int op.pre_verification_gas)
  max_fee_per_gas ← wrap (codes "maxFeePerGas: ") (hex_to_big_int op.max_fee_per_gas)
  max_priority_fee_per_gas ←
      wrap (codes "maxPriorityFeePerGas: ") (hex_to_big_int op.max_priority_fee_per_gas)
  sig ← wrap (codes "signature: ") (decode_hex op.signature)
  init_code ← optional_part x (codes "factoryData: ") op.factory op.factory_data
  paymaster_and_data ← optional_part x (codes "paymasterData: ") op.paymaster op.paymaster_data
  ok (record {
    sender = sender;
    nonce = nonce;
    init_code = init_code;
    call_data = call_data;
    account_gas_limits = pack_big_ints verification_gas_limit call_gas_limit;
    pre_verification_gas = pre_verification_gas;
    gas_fees = pack_big_ints max_priority_fee_per_gas max_fee_per_gas;
    paymaster_and_data = paymaster_and_data;
    signature = sig;
  })
