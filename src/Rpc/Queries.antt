-- ===== src/Rpc/Queries.antt =====
-- internal/rpc/methods.go: the handlers beside `handleSendUserOperation`.
use signet_min_bundler.Prelude.{ℕ, Option, List, [], ◌∷◌, ◌++◌, if◌then◌else◌, map, Text, codes}
use signet_min_bundler.Go.{Result, ok, err, panic, Answer, answer, failure, ℤ, negsuc}
use signet_min_bundler.External.{External}
use signet_min_bundler.Core.UserOp.{PackedUserOp, UserOperationRpc, from_rpc}
use signet_min_bundler.Mempool.Table.{Table}
use signet_min_bundler.Mempool.Hydrate.{StoredOp}
use signet_min_bundler.Mempool.Repo.{get_by_hash, get_confirmed_by_hash}
use signet_min_bundler.Estimator.{CallMsg, GasEstimate, estimate}
use signet_min_bundler.Sponsor.{Store}
use signet_min_bundler.Paymaster.{
  Service, PaymasterEnv, SponsorResult, get_stub_data, get_paymaster_data,
}
use signet_min_bundler.Rpc.{Methods, Param, is_supported}
use signet_min_bundler.Rpc.Values.{
  Value, null, text_value, texts_value, object, hex_of, stored_op_to_rpc, receipt_members,
  sponsor_result_to_rpc, estimate_members,
}

-- `(any, *RpcError)`; or the handler panics.
pub data RpcReply : Type 0 where
  rpc_result : Value → RpcReply
  rpc_error : ℤ → Text → RpcReply
  rpc_panic : RpcReply

-- The errors of types.go, with their codes.
abbrev pub err_invalid_request : Text → RpcReply
err_invalid_request = rpc_error (negsuc 32599)

abbrev pub err_method_not_found : Text → RpcReply
err_method_not_found = rpc_error (negsuc 32600)

abbrev pub err_invalid_params : Text → RpcReply
err_invalid_params = rpc_error (negsuc 32601)

abbrev pub err_op_rejected : Text → RpcReply
err_op_rejected = rpc_error (negsuc 32520)

abbrev pub expected_hash : Text
expected_hash = codes "expected [hash]"

-- The hash of a look-up, from its first parameter.
abbrev pub with_hash : List Param → (Text → RpcReply) → RpcReply
with_hash [] next = err_invalid_params expected_hash
with_hash (p ∷ params) next = elim p.as_text [
  | failure e ↦ err_invalid_params (codes "invalid hash: " ++ e)
  | answer hash_hex ↦ next hash_hex
]

-- A row that was found; an error is a null result.
abbrev pub found_or_null : (StoredOp → Value) → Result StoredOp → RpcReply
found_or_null write (ok op) = rpc_result (write op)
found_or_null write (err e) = rpc_result null
found_or_null write panic = rpc_panic

-- `handleGetUserOperationByHash`
unfoldable pub handle_get_user_operation_by_hash : External → List Param → Table → RpcReply
unfolding stored_op_to_rpc
handle_get_user_operation_by_hash x params t = with_hash params (λ hash_hex.
    found_or_null (λ op. object (stored_op_to_rpc x op)) (get_by_hash x (x.hex_to_hash hash_hex) t))

-- `handleGetUserOperationReceipt`
unfoldable pub handle_get_user_operation_receipt : External → List Param → Table → RpcReply
unfolding receipt_members
handle_get_user_operation_receipt x params t = with_hash params (λ hash_hex.
    found_or_null (λ op. object (receipt_members x op))
      (get_confirmed_by_hash x (x.hex_to_hash hash_hex) t))

-- `handleSupportedEntryPoints`
unfoldable pub handle_supported_entry_points : External → Methods → RpcReply
handle_supported_entry_points x m = rpc_result (texts_value (map x.address_hex m.entry_points))

-- `handleChainId`
unfoldable pub handle_chain_id : Methods → RpcReply
handle_chain_id m = rpc_result (text_value (hex_of m.chain_id))

-- What a request about one operation leads to: the operation, or the reply that ends it.
pub data Request : Type 0 where
  request : PackedUserOp → Request
  refusal : RpcReply → Request

abbrev pub request_of : Result PackedUserOp → Request
request_of (ok packed) = request packed
request_of (err e) = refusal (err_invalid_params e)
request_of panic = refusal rpc_panic

-- The two values of such a request.
unfoldable pub request_values : External → Methods → UserOperationRpc → Text → Request
request_values x m op entry_point_hex =
    if is_supported m (x.hex_to_address entry_point_hex)
    then request_of (from_rpc x op)
    else refusal (err_op_rejected (codes "unsupported entry point"))

-- `parsePaymasterRequest`, with the message for too few parameters, and the same steps at the head of
-- `handleEstimateUserOperationGas`.
unfoldable pub parse_request : External → Methods → Text → List Param → Request
unfolding request_values
parse_request x m expected (p ∷ q ∷ params) = elim p.as_op [
  | failure e ↦ refusal (err_invalid_params (codes "invalid userOp: " ++ e))
  | answer op ↦ elim q.as_text as (λ _. Request) [
    | failure e ↦ refusal (err_invalid_params (codes "invalid entryPoint: " ++ e))
    | answer entry_point_hex ↦ request_values x m op entry_point_hex
  ]
]
parse_request x m expected _ = refusal (err_invalid_params expected)

-- The reply to an estimate.
abbrev pub estimated : Result GasEstimate → RpcReply
estimated (ok est) = rpc_result (object (estimate_members est))
estimated (err e) = err_invalid_params (codes "gas estimation failed: " ++ e)
estimated panic = rpc_panic

-- `handleEstimateUserOperationGas`
unfoldable pub handle_estimate_user_operation_gas :
    External → Methods → (CallMsg → Answer ℕ) → List Param → RpcReply
unfolding parse_request
handle_estimate_user_operation_gas x m estimate_gas params =
    elim (parse_request x m (codes "expected [userOp, entryPoint]") params) [
      | refusal r ↦ r
      | request packed ↦ estimated (estimate x estimate_gas packed)
    ]

abbrev pub expected_pm : Text
expected_pm = codes "expected [userOp, entryPoint, chainId, context]"

-- `handleGetPaymasterStubData`
unfoldable pub handle_get_paymaster_stub_data :
    External → Methods → Service → ℕ → List Param → RpcReply
unfolding parse_request sponsor_result_to_rpc
handle_get_paymaster_stub_data x m s now params = elim (parse_request x m expected_pm params) [
  | refusal r ↦ r
  | request packed ↦ rpc_result (object (sponsor_result_to_rpc x (get_stub_data s now)))
]

-- The invite code of the fourth parameter.
abbrev pub invite_code_of : List Param → Text
invite_code_of (_ ∷ _ ∷ _ ∷ c ∷ params) = c.invite_code
invite_code_of _ = []

-- The reply to a request for paymaster data.
abbrev pub sponsored : External → Result SponsorResult → RpcReply
sponsored x (ok r) = rpc_result (object (sponsor_result_to_rpc x r))
sponsored x (err e) = err_op_rejected e
sponsored x panic = rpc_panic

-- `handleGetPaymasterData`
unfoldable pub handle_get_paymaster_data :
    External
    → Methods
    → Service
    → PaymasterEnv
    → List Param
    → Option Store
    → RpcReply × Option Store
unfolding parse_request
handle_get_paymaster_data x m s env params store = elim (parse_request x m expected_pm params) [
  | refusal r ↦ (r, store)
  | request packed ↦
      let (done, store') = get_paymaster_data x s env packed (invite_code_of params) store in
      (sponsored x done, store')
]
