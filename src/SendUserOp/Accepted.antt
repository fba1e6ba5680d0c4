-- ===== src/SendUserOp/Accepted.antt =====
-- What internal/core/userop.go makes of the object that cmd/send-userop/main.go posts.
use signet_min_bundler.Prelude.{
  ◌≤◌, ◌≡◌, refl, ◌⊎◌, inl, inr, true, [], leb, All, arith, Bytes, Text, IsByte, IsArray, codes,
  length, length-take, take, drop, take-append-drop,
}
use signet_min_bundler.Go.{ok}
use signet_min_bundler.Hex.Laws.{decode_hex-bytes_to_hex, hex_to_big_int-big_to_hex}
use signet_min_bundler.External.{External}
use signet_min_bundler.Core.UserOp.{PackedUserOp, from_rpc, optional_part}
use signet_min_bundler.Core.Pack.Whole.{All-take, pack_big_ints-sub}
use signet_min_bundler.Core.Pack.Halves.{All-drop}
use signet_min_bundler.Paymaster.Wire.{address_then-append}
use signet_min_bundler.SendUserOp.Fetch.{wire_hex}
use signet_min_bundler.SendUserOp.Submit.{half, submitted_op, factory_of, factory_data_of}

-- `HexToAddress` reads the lower-case text of an address.
abbrev pub ReadsWire : External → Type 0
ReadsWire x = (a : Bytes) → IsArray 20 a → x.hex_to_address (wire_hex a) ≡ a

-- An operation as `run` makes it: arrays of Go's sizes, an init code that is empty or starts with
-- an address, and no paymaster.
pub record IsSendable (op : PackedUserOp) : Type 0 where
  pub sender : IsArray 20 op.sender
  pub init_code : All IsByte op.init_code
  pub factory : (op.init_code ≡ []) ⊎ (20 ≤ length op.init_code)
  pub call_data : All IsByte op.call_data
  pub account_gas_limits : IsArray 32 op.account_gas_limits
  pub gas_fees : IsArray 32 op.gas_fees
  pub no_paymaster : op.paymaster_and_data ≡ []
  pub signature : All IsByte op.signature

module _ (x : External) (wire : ReadsWire x) where
  optional_part-factory :
      (context : Text) (init_code : Bytes)
      → All IsByte init_code
      → (init_code ≡ []) ⊎ (20 ≤ length init_code)
      → optional_part x context (factory_of init_code) (factory_data_of init_code) ≡ ok init_code
  unfolding optional_part
  optional_part-factory context init_code h (inl none) = rw none refl
  optional_part-factory context init_code h (inr long) =
      let array : IsArray 20 (take 20 init_code) = record {
        len = omega (arith, length-take 20 init_code, long);
        bytes = All-take 20 init_code h;
      } in
      let taken : leb 20 (length init_code) ≡ true = ground (arith, long) in
      rw
        (
          taken,
          decode_hex-bytes_to_hex (drop 20 init_code) (All-drop 20 init_code h),
          wire (take 20 init_code) array,
          address_then-append (take 20 init_code) (drop 20 init_code) array.len,
          take-append-drop 20 init_code,
        )
        refl

  -- If HexToAddress reads the lower-case text of an address: what FromRPC makes of the object
  -- that submitToBundler posts, for an operation with arrays of Go's sizes, an init code that is
  -- empty or starts with an address and no paymaster, is that operation, every field as it was
  -- signed.
  pub from_rpc-submitted_op :
      (op : PackedUserOp) → IsSendable op → from_rpc x (submitted_op op) ≡ ok op
  unfolding from_rpc submitted_op optional_part
  from_rpc-submitted_op op s =
      rw
        (
          hex_to_big_int-big_to_hex op.nonce,
          decode_hex-bytes_to_hex op.call_data s.call_data,
          hex_to_big_int-big_to_hex op.pre_verification_gas,
          decode_hex-bytes_to_hex op.signature s.signature,
          optional_part-factory (codes "factoryData: ") op.init_code s.init_code s.factory,
          wire op.sender s.sender,
          hex_to_big_int-big_to_hex (half op.account_gas_limits 16 32),
          hex_to_big_int-big_to_hex (half op.account_gas_limits 0 16),
          hex_to_big_int-big_to_hex (half op.gas_fees 16 32),
          hex_to_big_int-big_to_hex (half op.gas_fees 0 16),
          optional_part,
          pack_big_ints-sub op.account_gas_limits s.account_gas_limits,
          pack_big_ints-sub op.gas_fees s.gas_fees,
          s.no_paymaster,
        )
        refl
