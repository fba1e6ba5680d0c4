-- ===== src/Prover/Handler.antt =====
-- internal/prover/handler.go: the endpoint /v1/prove.
use signet_min_bundler.Prelude.{
  not, ◌&&◌, none, some, ◌++◌, if◌then◌else◌, Bytes, Text, codes, equal, has_prefix, drop, ℕ,
}
use signet_min_bundler.Go.{Result, ok, err, panic, Answer, answer, failure}
use signet_min_bundler.Hex.{hex_encode, hex_decode}
use signet_min_bundler.Core.UserOp.{is_empty}
use signet_min_bundler.Http.{HttpRequest, HttpResponse}
use signet_min_bundler.Prover.Prove.{ProveEnv, ProveResult, prove}

-- `proveHTTPRequest`
pub record ProveHttpRequest : Type 0 where
  pub jwt : Text
  pub session_pub : Text

-- `proveHTTPResponse`
pub record ProveHttpResponse : Type 0 where
  pub proof : Text
  pub sub : Text
  pub iss : Text
  pub exp : ℕ
  pub aud : Text
  pub azp : Text
  pub jwks_modulus : Text
  pub session_pub : Text

-- What is encoded into the body: an error's message, or the proof.
pub data ProveReply : Type 0 where
  failed_with : Text → ProveReply
  proved : ProveHttpResponse → ProveReply

-- `trimHexPrefix`
unfoldable pub trim_hex_prefix : Text → Text
trim_hex_prefix s = if has_prefix s (codes "0x") then drop 2 s else s

abbrev pub response_of : ProveResult → ProveHttpResponse
response_of r = record {
  proof = hex_encode r.proof;
  sub = r.sub;
  iss = r.iss;
  exp = r.exp;
  aud = r.aud;
  azp = r.azp;
  jwks_modulus = hex_encode r.jwks_modulus;
  session_pub = hex_encode r.session_pub;
}

-- `writeJSONError`
abbrev pub write_json_error : ℕ → Text → Result (HttpResponse ProveReply)
write_json_error status msg = ok (record { status = status; content = failed_with msg })

-- What the handler does with the outcome of `Prove`.
unfoldable pub write_outcome : Result ProveResult → Result (HttpResponse ProveReply)
write_outcome (ok r) = ok (record { status = 200; content = proved (response_of r) })
write_outcome (err e) = write_json_error 500 (codes "proof generation failed: " ++ e)
write_outcome panic = panic

-- The handler from the decoded request on.
unfoldable pub prove_decoded : ProveEnv → ProveHttpRequest → Result (HttpResponse ProveReply)
unfolding trim_hex_prefix write_outcome
prove_decoded env req =
    let (bytes, problem) = hex_decode (trim_hex_prefix req.session_pub) in
    elim problem [
      | some e ↦ write_json_error 400 (codes "invalid session_pub hex: " ++ e)
      | none ↦ write_outcome (prove env (record { jwt = req.jwt; session_pub = bytes }))
    ]

-- The handler after the check of the key.
unfoldable pub prove_body :
    ProveEnv → (Bytes → Answer ProveHttpRequest) → Answer Bytes → Result (HttpResponse ProveReply)
unfolding prove_decoded
prove_body env parse (failure e) = write_json_error 400 (codes "failed to read body")
prove_body env parse (answer body) = elim (parse body) [
  | failure e ↦ write_json_error 400 (codes "invalid JSON: " ++ e)
  | answer req ↦ prove_decoded env req
]

abbrev pub bad_key : Text
bad_key = codes "invalid or missing API key"

-- `Handler`
unfoldable pub prove_handler :
    ProveEnv
    → (Bytes → Answer ProveHttpRequest)
    → Text
    → HttpRequest
    → Result (HttpResponse ProveReply)
unfolding prove_body
prove_handler env parse api_key r =
    if not (equal r.method (codes "POST"))
    then write_json_error 405 (codes "POST required")
    else if not (is_empty api_key) && not (equal r.api_key api_key)
    then write_json_error 401 bad_key
    else prove_body env parse r.body
