-- ===== src/Rpc/Values.antt =====
-- internal/rpc/methods.go: the JSON values of the replies.
use signet_min_bundler.Prelude.{
  ℕ, Bool, Option, none, some, List, [], ◌∷◌, ◌++◌, if◌then◌else◌, leb, Bytes, Text, codes, length,
  take, drop,
}
use signet_min_bundler.Go.{pos, sub}
use signet_min_bundler.Hex.{big_to_hex, bytes_to_hex, set_bytes}
use signet_min_bundler.External.{External}
use signet_min_bundler.Mempool.Table.{same_status, confirmed}
use signet_min_bundler.Mempool.Hydrate.{StoredOp}
use signet_min_bundler.Paymaster.{SponsorResult}
use signet_min_bundler.Estimator.{GasEstimate}

-- A member of an object.
pub data Member : Type 0 where
  text_member : Text → Member
  bool_member : Bool → Member

-- An object, as its members in the order in which they are set.
abbrev pub Members : Type 0
Members = List (Text × Member)

pub data Value : Type 0 where
  null : Value
  text_value : Text → Value
  texts_value : List Text → Value
  object : Members → Value

-- `new(big.Int).SetUint64(n)` in hexadecimal.
abbrev pub hex_of : ℕ → Text
hex_of n = big_to_hex (pos n)

abbrev pub member : Text → Text → Text × Member
member name v = (name, text_member v)

-- A member that is set if the pointer is not nil.
abbrev pub optional {ℓ} : {A : Type ℓ} → Text → (A → Text) → Option A → Members
optional name write none = []
optional name write (some a) = member name (write a) ∷ []

-- The address at the front of a field, and what follows it, if it is long enough.
abbrev pub split_part : External → Text → Text → Bytes → Members
split_part x name data_name part =
    if leb 20 (length part)
    then member name (x.address_hex (take 20 part))
      ∷ member data_name (bytes_to_hex (drop 20 part))
      ∷ []
    else []

-- `storedOpToRPC`
unfoldable pub stored_op_to_rpc : External → StoredOp → Members
stored_op_to_rpc x op =
    (member (codes "sender") (x.address_hex op.sender)
      ∷ member (codes "nonce") (big_to_hex op.nonce)
      ∷ member (codes "callData") (bytes_to_hex op.call_data)
      ∷ member (codes "callGasLimit") (hex_of (set_bytes (sub op.account_gas_limits 16 32)))
      ∷ member (codes "verificationGasLimit") (hex_of (set_bytes (sub op.account_gas_limits 0 16)))
      ∷ member (codes "preVerificationGas") (big_to_hex op.pre_verification_gas)
      ∷ member (codes "maxFeePerGas") (hex_of (set_bytes (sub op.gas_fees 16 32)))
      ∷ member (codes "maxPriorityFeePerGas") (hex_of (set_bytes (sub op.gas_fees 0 16)))
      ∷ member (codes "signature") (bytes_to_hex op.signature)
      ∷ [])
    ++ (split_part x (codes "factory") (codes "factoryData") op.init_code
        ++ (split_part x (codes "paymaster") (codes "paymasterData") op.paymaster_and_data
            ++ (optional (codes "transactionHash") x.hash_hex op.bundle_tx_hash
                ++ optional (codes "blockNumber") hex_of op.block_number)))

-- The object of `handleGetUserOperationReceipt`.
unfoldable pub receipt_members : External → StoredOp → Members
receipt_members x op =
    (member (codes "userOpHash") (x.hash_hex op.hash)
      ∷ member (codes "sender") (x.address_hex op.sender)
      ∷ member (codes "nonce") (big_to_hex op.nonce)
      ∷ (codes "success", bool_member (same_status op.status confirmed))
      ∷ [])
    ++ (optional (codes "actualGasCost") big_to_hex op.actual_gas_cost
        ++ (optional (codes "transactionHash") x.hash_hex op.bundle_tx_hash
            ++ (optional (codes "blockNumber") hex_of op.block_number
                ++ optional (codes "revertReason") (λ reason. reason) op.revert_reason)))

-- `sponsorResultToRPC`
unfoldable pub sponsor_result_to_rpc : External → SponsorResult → Members
sponsor_result_to_rpc x r =
    member (codes "paymaster") (x.address_hex r.paymaster)
    ∷ member (codes "paymasterData") (bytes_to_hex r.paymaster_data)
    ∷ member (codes "paymasterVerificationGasLimit") (hex_of r.paymaster_verification_gas_limit)
    ∷ member (codes "paymasterPostOpGasLimit") (hex_of r.paymaster_post_op_gas_limit)
    ∷ []

-- The object of `handleEstimateUserOperationGas`.
unfoldable pub estimate_members : GasEstimate → Members
estimate_members est =
    member (codes "preVerificationGas") (hex_of est.pre_verification_gas)
    ∷ member (codes "verificationGasLimit") (hex_of est.verification_gas_limit)
    ∷ member (codes "callGasLimit") (hex_of est.call_gas_limit)
    ∷ []
