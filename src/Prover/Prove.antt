-- ===== src/Prover/Prove.antt =====
-- internal/prover/prover.go: `Prove`.
use signet_min_bundler.Prelude.{
  ℕ, ◌+◌, ◌-◌, ◌*◌, ◌/◌, ◌^◌, Option, none, some, List, [], ◌∷◌, ◌++◌, if◌then◌else◌, leb, ◌==◌,
  replicate, Bytes, Text, codes, length,
}
use signet_min_bundler.Go.{Result, ok, err, panic, ◌>>=◌, guard, wrap, Answer, pos}
use signet_min_bundler.Hex.{set_bytes, big_bytes}
use signet_min_bundler.Prover.Toml.{decimal, split_big_int_to_limbs, ProverData, write_prover_toml}
use signet_min_bundler.Prover.Jwks.{JwksEnv, PublicKey, result_of, fetch_jwks_public_key}

-- The claims that are read.
pub record Claims : Type 0 where
  pub iss : Text
  pub sub : Text
  pub aud : Text
  pub azp : Text
  pub exp : ℕ

-- The outside of `Prove` beside the key search: the JSON of the claims, the file that is written, the
-- two programs that run, the directory between them, and the proof that is read.
pub record ProveEnv : Type 0 where
  pub jwks : JwksEnv
  pub parse_claims : Bytes → Answer Claims
  pub write_file : Text → Answer (Unit {0})
  pub nargo_execute : Answer (Unit {0})
  pub make_proof_dir : Answer (Unit {0})
  pub bb_prove : Answer (Unit {0})
  pub read_proof : Answer Bytes

-- `ProveRequest`
pub record ProveRequest : Type 0 where
  pub jwt : Text
  pub session_pub : Bytes

-- `ProveResult`
pub record ProveResult : Type 0 where
  pub proof : Bytes
  pub sub : Text
  pub iss : Text
  pub exp : ℕ
  pub aud : Text
  pub azp : Text
  pub jwks_modulus : Bytes
  pub session_pub : Bytes

-- The text up to the first full stop, and what follows it.
unfoldable pub cut_at_dot : Text → Option (Text × Text)
cut_at_dot [] = none
cut_at_dot (c ∷ s) =
    let rest = cut_at_dot s in
    if c == b'.'
    then some ([], s)
    else elim rest as (λ _. Option (Text × Text)) [ none ↦ none | some (a, b) ↦ some (c ∷ a, b) ]

-- `strings.SplitN(jwt, ".", 3)` with its check.
unfoldable pub jwt_parts : Text → Result (Text × Text × Text)
unfolding cut_at_dot
jwt_parts jwt = elim (cut_at_dot jwt) [
  | none ↦ err (codes "invalid JWT: expected 3 parts")
  | some (header, rest) ↦ elim (cut_at_dot rest) [
    | none ↦ err (codes "invalid JWT: expected 3 parts")
    | some (payload, sig) ↦ ok (header, payload, sig)
  ]
]

-- `redcParam`: a division by zero panics.
unfoldable pub redc_param : ℕ → Result ℕ
redc_param modulus = if modulus == 0 then panic else ok (2 ^ (2 * 2048 + 4) / modulus)

abbrev pub max_data_length : ℕ
max_data_length = 1024

abbrev pub limbs : ℕ → List Text
limbs n = split_big_int_to_limbs n 120 18

-- The inputs of the circuit.
unfoldable pub prover_data : Claims → Text → Text → Bytes → ℕ → ℕ → Bytes → ProverData
unfolding split_big_int_to_limbs
prover_data claims header_b64 signing_input session_pub modulus redc sig_bytes = record {
  data_storage = signing_input ++ replicate (max_data_length - length signing_input) 0;
  data_len = length signing_input;
  base64_decode_offset = length header_b64 + 1;
  modulus_limbs = limbs modulus;
  redc_limbs = limbs redc;
  sig_limbs = limbs (set_bytes sig_bytes);
  iss = claims.iss;
  sub = claims.sub;
  exp = claims.exp;
  aud = claims.aud;
  azp = claims.azp;
  session_pub = session_pub;
}

-- Steps 4 to 7: the file, the witness and the proof.
unfoldable pub run_prover : ProveEnv → ProverData → Result Bytes
unfolding write_prover_toml
run_prover env d = do
  toml ← write_prover_toml d
  written ← result_of (codes "write Prover.toml: ") (env.write_file toml)
  witnessed ← result_of (codes "nargo execute: ") env.nargo_execute
  made ← result_of (codes "create proof dir: ") env.make_proof_dir
  proved ← result_of (codes "bb prove: ") env.bb_prove
  result_of (codes "read proof: ") env.read_proof

abbrev pub too_long : ℕ → Text
too_long n =
    codes "signed data too long: " ++ (decimal n ++ (codes " > " ++ decimal max_data_length))

abbrev pub proved_result : Claims → Bytes → PublicKey → Bytes → ProveResult
proved_result claims session_pub pub_key proof = record {
  proof = proof;
  sub = claims.sub;
  iss = claims.iss;
  exp = claims.exp;
  aud = claims.aud;
  azp = claims.azp;
  jwks_modulus = big_bytes (pos pub_key.modulus);
  session_pub = session_pub;
}

-- `Prove` once the token is decoded.
unfoldable pub prove_claims : ProveEnv → Bytes → Text → Text → Claims → Bytes → Result ProveResult
unfolding redc_param prover_data run_prover
prove_claims env session_pub header_b64 signing_input claims sig_bytes = do
  pub_key ← wrap (codes "fetch JWKS: ") (fetch_jwks_public_key env.jwks claims.iss header_b64)
  redc ← redc_param pub_key.modulus
  fits ← guard (leb (length signing_input) max_data_length) (too_long (length signing_input))
  proof ←
      run_prover env
        (prover_data claims header_b64 signing_input session_pub pub_key.modulus redc sig_bytes)
  ok (proved_result claims session_pub pub_key proof)

abbrev pub bad_session_pub : Text
bad_session_pub = codes "session_pub must be 33 bytes (compressed secp256k1)"

-- `Prove`
unfoldable pub prove : ProveEnv → ProveRequest → Result ProveResult
unfolding jwt_parts prove_claims
prove env req = do
  sized ← guard (length req.session_pub == 33) bad_session_pub
  parts ← jwt_parts req.jwt
  let header_b64 = parts.0
  payload_json ← result_of (codes "decode JWT payload: ") (env.jwks.base64_decode parts.1)
  claims ← result_of (codes "parse JWT claims: ") (env.parse_claims payload_json)
  sig_bytes ← result_of (codes "decode JWT signature: ") (env.jwks.base64_decode parts.2)
  prove_claims env req.session_pub header_b64 (header_b64 ++ b'.' ∷ parts.1) claims sig_bytes
