-- ===== src/Rpc.antt =====
-- internal/rpc/: the methods, the server and its key. Here `handleSendUserOperation`, from the JSON values on: what `json.Unmarshal`
-- makes of a parameter is part of the parameter.
pub mod Send
pub mod Values
pub mod Queries
pub mod Server
pub mod Guarded
use signet_min_bundler.Prelude.{
  ℕ, Bool, List, [], ◌∷◌, ◌++◌, ◌==◌, if◌then◌else◌, Bytes, Text, codes, equal, any, length,
}
use signet_min_bundler.Go.{Result, ok, err, panic, Answer, answer, failure}
use signet_min_bundler.External.{External}
use signet_min_bundler.Core.UserOp.{UserOperationRpc, PackedUserOp, from_rpc}
use signet_min_bundler.Core.Hash.{compute_user_op_hash}
use signet_min_bundler.Validator.{Validator, validate}
use signet_min_bundler.Mempool.Table.{Table}
use signet_min_bundler.Mempool.Repo.{insert}

-- `Methods` with its `MethodsConfig`, as far as this handler reads it.
pub record Methods : Type 0 where
  pub entry_points : List Bytes
  pub chain_id : ℕ
  pub validator : Validator

-- A raw message, read as an operation, as a text, and as a `SponsorContext` (its invite code, "" if
-- it has none).
pub record Param : Type 0 where
  pub as_op : Answer UserOperationRpc
  pub as_text : Answer Text
  pub invite_code : Text

-- What a handler replies: a result, or an `RpcError` of one of two codes; or it panics.
pub data Reply : Type 0 where
  reply : Text → Reply
  invalid_params op_rejected : Text → Reply
  panicked : Reply

-- Step 6, from what `Insert` did.
abbrev pub inserted : Text → Result (Unit {0}) × Table → Reply × Table
inserted h (ok _, t) = (reply h, t)
inserted h (err e, t) = (op_rejected e, t)
inserted h (panic, t) = (panicked, t)

-- Steps 4 to 6, from what the validator said.
unfoldable pub send_validated :
    External → Methods → ℕ → Bytes → PackedUserOp → Result (Unit {0}) → Table → Reply × Table
send_validated x m now entry_point packed (ok _) t =
    let hash = compute_user_op_hash x packed entry_point m.chain_id in
    inserted (x.hash_hex hash) (insert x now packed hash t)
send_validated x m now entry_point packed (err e) t = (op_rejected e, t)
send_validated x m now entry_point packed panic t = (panicked, t)

abbrev pub bad_signature : Text
bad_signature = codes "signature must be 65 bytes"

-- Steps 3 to 6, from what `FromRPC` made.
unfoldable pub send_packed :
    External → Methods → ℕ → Bytes → Result PackedUserOp → Table → Reply × Table
unfolding send_validated
send_packed x m now entry_point (ok packed) t =
    if length packed.signature == 65
    then send_validated x m now entry_point packed (validate m.validator packed) t
    else (op_rejected bad_signature, t)
send_packed x m now entry_point (err e) t = (invalid_params e, t)
send_packed x m now entry_point panic t = (panicked, t)

-- `isAllowedEntryPoint`
abbrev pub is_supported : Methods → Bytes → Bool
is_supported m entry_point = any (λ e. equal e entry_point) m.entry_points

-- Steps 1 to 6, on the two values.
unfoldable pub send_values :
    External → Methods → ℕ → UserOperationRpc → Text → Table → Reply × Table
unfolding send_packed
send_values x m now op entry_point_hex t =
    let entry_point = x.hex_to_address entry_point_hex in
    if is_supported m entry_point
    then send_packed x m now entry_point (from_rpc x op) t
    else (op_rejected (codes "unsupported entry point"), t)

-- Both values, or the first error.
unfoldable pub send_params :
    External → Methods → ℕ → Answer UserOperationRpc → Answer Text → Table → Reply × Table
unfolding send_values
send_params x m now (answer op) (answer entry_point_hex) t =
    send_values x m now op entry_point_hex t
send_params x m now (answer op) (failure e) t =
    (invalid_params (codes "invalid entryPoint: " ++ e), t)
send_params x m now (failure e) _ t = (invalid_params (codes "invalid userOp: " ++ e), t)

-- `handleSendUserOperation`
unfoldable pub handle_send_user_operation :
    External → Methods → ℕ → List Param → Table → Reply × Table
unfolding send_params
handle_send_user_operation x m now (p ∷ q ∷ more) t = send_params x m now p.as_op q.as_text t
handle_send_user_operation x m now _ t = (invalid_params (codes "expected [userOp, entryPoint]"), t)
