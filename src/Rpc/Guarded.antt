-- ===== src/Rpc/Guarded.antt =====
-- What a request without the key can do.
use signet_min_bundler.Prelude.{
  ◌≡◌, refl, ◌⊎◌, inl, inr, true, false, Option, Text, codes, equal, Bool-cases, Option-cases,
  Bytes, ℕ,
}
use signet_min_bundler.Go.{Answer}
use signet_min_bundler.External.{External}
use signet_min_bundler.Core.UserOp.{is_empty}
use signet_min_bundler.Http.{HttpRequest}
use signet_min_bundler.Prover.Prove.{ProveEnv}
use signet_min_bundler.Prover.Handler.{ProveHttpRequest, failed_with, prove_handler}
use signet_min_bundler.Rpc.Server.{
  ServerEnv, ServerState, ProverEnv, Written, healthy, proof_reply, rpc_response, unauthorized,
  recovered, require_api_key, serve,
}

-- The responses to a request without the key.
pub data IsRefusal (r : HttpRequest) : Written → Type 0 where
  probe : equal r.path (codes "/healthz") ≡ true → IsRefusal r healthy
  no_key : IsRefusal r (rpc_response unauthorized)
  no_proof :
      {status : ℕ} {e : Text}
      → (status ≡ 401) ⊎ (status ≡ 405)
      → IsRefusal r (proof_reply (record { status = status; content = failed_with e }))

-- With a key configured, a request that does not carry it is answered by the health check, by the
-- status 401, or, at the prover, by 401 or 405, whatever its method, its path and its body; the
-- mempool and the sponsor store stay as they were.
pub serve-IsRefusal :
    (x : External) (env : ServerEnv) (prover : Option ProverEnv) (api_key : Text) (r : HttpRequest)
    (st : ServerState)
    → is_empty api_key ≡ false
    → equal r.api_key api_key ≡ false
    → IsRefusal r (serve x env prover api_key r st).0 × ((serve x env prover api_key r st).1 ≡ st)
unfolding require_api_key serve prove_handler
serve-IsRefusal x env prover api_key r st keyed wrong =
    elim (Bool-cases (equal r.path (codes "/healthz"))) [
      | inl health ↦ rw (health, serve) (probe health, refl)
      | inr other ↦ elim (Bool-cases (equal r.path (codes "/v1/prove"))) [
        | inr rpc ↦ rw (other, rpc, keyed, wrong, serve) (no_key, refl)
        | inl proof ↦ elim (Option-cases prover) [
          | inl off ↦ rw (other, proof, off, keyed, wrong, serve) (no_key, refl)
          | inr (p, on) ↦
              rw (other, proof, on, serve)
                (refused p.prove p.parse (Bool-cases (equal r.method (codes "POST"))), refl)
        ]
      ]
    ]
  where
    refused :
        (env : ProveEnv) (parse : Bytes → Answer ProveHttpRequest)
        → (equal r.method (codes "POST") ≡ true) ⊎ (equal r.method (codes "POST") ≡ false)
        → IsRefusal r (recovered proof_reply (prove_handler env parse api_key r))
    refused env parse (inl post) = rw (post, keyed, wrong, prove_handler) (no_proof (inl refl))
    refused env parse (inr other) = rw (other, prove_handler) (no_proof (inr refl))
