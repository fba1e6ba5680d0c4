-- ===== src/Rpc/Server.antt =====
-- internal/rpc/server.go, auth.go and types.go, and the HTTP handler that cmd/bundler/main.go builds:
-- the routes, the key, the dispatch of a request and the recovery from a panic.
use signet_min_bundler.Prelude.{
  ℕ, not, Option, none, some, List, [], ◌++◌, if◌then◌else◌, Bytes, Text, codes, equal,
}
use signet_min_bundler.Go.{Result, ok, err, panic, Answer, answer, failure, ℤ, negsuc}
use signet_min_bundler.External.{External}
use signet_min_bundler.Core.UserOp.{is_empty}
use signet_min_bundler.Mempool.Table.{Table}
use signet_min_bundler.Estimator.{CallMsg}
use signet_min_bundler.Sponsor.{Store}
use signet_min_bundler.Paymaster.{Service, PaymasterEnv}
use signet_min_bundler.Http.{HttpRequest, HttpResponse}
use signet_min_bundler.Prover.Prove.{ProveEnv}
use signet_min_bundler.Prover.Handler.{ProveHttpRequest, ProveReply, prove_handler}
use signet_min_bundler.Rpc.{
  Methods, Param, Reply, reply, invalid_params, op_rejected, panicked, handle_send_user_operation,
}
use signet_min_bundler.Rpc.Values.{Value, null, text_value}
use signet_min_bundler.Rpc.Queries.{
  RpcReply, rpc_result, rpc_error, rpc_panic, err_invalid_request, err_method_not_found,
  err_invalid_params, err_op_rejected, handle_get_user_operation_by_hash,
  handle_get_user_operation_receipt, handle_supported_entry_points, handle_chain_id,
  handle_estimate_user_operation_gas, handle_get_paymaster_stub_data, handle_get_paymaster_data,
}

-- `jsonrpcRequest`; a missing id is "".
pub record JsonRpcRequest : Type 0 where
  pub jsonrpc : Text
  pub id : Text
  pub method : Text
  pub params : List Param

-- `jsonrpcResponse`; both members are left out when they are nil (`omitempty`).
pub record JsonRpcResponse : Type 0 where
  pub id : Text
  pub result : Option Value
  pub error : Option (ℤ × Text)

-- What the server keeps: the mempool, and the sponsor store if there is one.
pub record ServerState : Type 0 where
  pub table : Table
  pub sponsors : Option Store

-- The server's parts, and what one request takes from outside.
pub record ServerEnv : Type 0 where
  pub methods : Methods
  pub service : Service
  pub paymaster : PaymasterEnv
  pub estimate_gas : CallMsg → Answer ℕ
  pub now : ℕ
  pub parse_request : Bytes → Answer JsonRpcRequest

abbrev pub rpc_reply : Reply → RpcReply
rpc_reply (reply h) = rpc_result (text_value h)
rpc_reply (invalid_params e) = err_invalid_params e
rpc_reply (op_rejected e) = err_op_rejected e
rpc_reply panicked = rpc_panic

-- `dispatch`
unfoldable pub dispatch :
    External → ServerEnv → JsonRpcRequest → ServerState → RpcReply × ServerState
dispatch x env req st =
    let (sent, table') = handle_send_user_operation x env.methods env.now req.params st.table in
    let (paid, sponsors') =
      handle_get_paymaster_data x env.methods env.service env.paymaster req.params st.sponsors in
    if equal req.method (codes "eth_sendUserOperation")
    then (rpc_reply sent, record st { table = table' })
    else if equal req.method (codes "eth_estimateUserOperationGas")
    then (handle_estimate_user_operation_gas x env.methods env.estimate_gas req.params, st)
    else if equal req.method (codes "eth_getUserOperationByHash")
    then (handle_get_user_operation_by_hash x req.params st.table, st)
    else if equal req.method (codes "eth_getUserOperationReceipt")
    then (handle_get_user_operation_receipt x req.params st.table, st)
    else if equal req.method (codes "eth_supportedEntryPoints")
    then (handle_supported_entry_points x env.methods, st)
    else if equal req.method (codes "eth_chainId")
    then (handle_chain_id env.methods, st)
    else if equal req.method (codes "pm_getPaymasterStubData")
    then (handle_get_paymaster_stub_data x env.methods env.service env.paymaster.now req.params, st)
    else if equal req.method (codes "pm_getPaymasterData")
    then (paid, record st { sponsors = sponsors' })
    else (err_method_not_found (codes "method not found: " ++ req.method), st)

-- `writeResult`, `writeError`: the status is 200 in both cases.
unfoldable pub write_reply : Text → RpcReply → Result (HttpResponse JsonRpcResponse)
write_reply id (rpc_result null) =
    ok (record { status = 200; content = record { id = id; result = none; error = none } })
write_reply id (rpc_result v) =
    ok (record { status = 200; content = record { id = id; result = some v; error = none } })
write_reply id (rpc_error code e) =
    ok
      (record { status = 200; content = record { id = id; result = none; error = some (code, e) } })
write_reply id rpc_panic = panic

-- `handleRequest` from the parsed request on.
unfoldable pub handle_parsed :
    External
    → ServerEnv
    → JsonRpcRequest
    → ServerState
    → Result (HttpResponse JsonRpcResponse) × ServerState
unfolding dispatch write_reply
handle_parsed x env req st =
    let (done, st') = dispatch x env req st in
    if equal req.jsonrpc (codes "2.0")
    then (write_reply req.id done, st')
    else (write_reply req.id (err_invalid_request (codes "jsonrpc must be \"2.0\"")), st)

-- `handleRequest`
unfoldable pub handle_request :
    External
    → ServerEnv
    → HttpRequest
    → ServerState
    → Result (HttpResponse JsonRpcResponse) × ServerState
unfolding handle_parsed write_reply
handle_request x env r st =
    if not (equal r.method (codes "POST"))
    then (write_reply [] (err_invalid_request (codes "method must be POST")), st)
    else elim r.body as (λ _. Result (HttpResponse JsonRpcResponse) × ServerState) [
      | failure e ↦ (write_reply [] (err_invalid_request (codes "failed to read body")), st)
      | answer body ↦
          elim (env.parse_request body)
            as (λ _. Result (HttpResponse JsonRpcResponse) × ServerState) [
              | failure e ↦ (write_reply [] (err_invalid_request (codes "invalid JSON: " ++ e)), st)
              | answer req ↦ handle_parsed x env req st
            ]
    ]

abbrev pub unauthorized : HttpResponse JsonRpcResponse
unauthorized = record {
  status = 401;
  content = record {
    id = [];
    result = none;
    error = some (negsuc 32000, codes "invalid or missing API key");
  };
}

-- `RequireAPIKey` around `handleRequest`.
unfoldable pub require_api_key :
    External
    → ServerEnv
    → Text
    → HttpRequest
    → ServerState
    → Result (HttpResponse JsonRpcResponse) × ServerState
unfolding handle_request
require_api_key x env api_key r st =
    let served = handle_request x env r st in
    if is_empty api_key
    then served
    else if not (equal r.api_key api_key)
    then (ok unauthorized, st)
    else served

-- What the process writes: of the health check, of the prover, or of the server; or what the
-- recovery writes after a panic.
pub data Written : Type 0 where
  healthy : Written
  proof_reply : HttpResponse ProveReply → Written
  rpc_response : HttpResponse JsonRpcResponse → Written
  server_error : Written

-- `recoverMiddleware`
abbrev pub recovered {ℓ} : {A : Type ℓ} → (A → Written) → Result A → Written
recovered write (ok a) = write a
recovered write (err e) = server_error
recovered write panic = server_error

-- The prover, if it is there.
pub record ProverEnv : Type 0 where
  pub prove : ProveEnv
  pub parse : Bytes → Answer ProveHttpRequest

-- The handler of `run`, with `recoverMiddleware` around it.
unfoldable pub serve :
    External
    → ServerEnv
    → Option ProverEnv
    → Text
    → HttpRequest
    → ServerState
    → Written × ServerState
unfolding require_api_key
serve x env prover api_key r st =
    let (served, st') = require_api_key x env api_key r st in
    let rpc : Written × ServerState = (recovered rpc_response served, st') in
    if equal r.path (codes "/healthz")
    then (healthy, st)
    else if equal r.path (codes "/v1/prove")
    then elim prover as (λ _. Written × ServerState) [
      | some p ↦ (recovered proof_reply (prove_handler p.prove p.parse api_key r), st)
      | none ↦ rpc
    ]
    else rpc
