-- ===== src/Prover/Proved.antt =====
-- What holds of a token for which `Prove` returns a proof.
use signet_min_bundler.Prelude.{
  ℕ, ◌≤◌, ◌≡◌, ◌≢◌, refl, inl, inr, Bool, true, false, ◌∷◌, ◌++◌, ◌==◌, leb, arith, Bytes, Text,
  codes, length,
}
use signet_min_bundler.Go.{Result, ok, guard, wrap, Answer, answer, failure}
use signet_min_bundler.Go.Results.{>>=-eq-ok, wrap-eq-ok}
use signet_min_bundler.Prover.Toml.{ProverData, write_prover_toml}
use signet_min_bundler.Prover.Bounded.{HasShortClaims, write_prover_toml-cases}
use signet_min_bundler.Prover.Jwks.{PublicKey, result_of, fetch_jwks_public_key}
use signet_min_bundler.Prover.Prove.{
  Claims, ProveEnv, ProveRequest, ProveResult, jwt_parts, redc_param, prover_data, run_prover,
  bad_session_pub, proved_result, max_data_length, too_long, prove_claims, prove,
}

guard-ok : (b : Bool) (e : Text) {u : Unit {0}} → guard b e ≡ ok u → b ≡ true
guard-ok true e h = refl
guard-ok false e h = cc

result_of-ok {ℓ} :
    {A : Type ℓ} (context : Text) (a : Answer A) {v : A} → result_of context a ≡ ok v → a ≡ answer v
result_of-ok context (answer a) h = ground arith
result_of-ok context (failure e) h = cc

run_prover-ok :
    (env : ProveEnv) (d : ProverData) {proof : Bytes}
    → run_prover env d ≡ ok proof
    → HasShortClaims d × (env.read_proof ≡ answer proof)
unfolding run_prover
run_prover-ok env d {proof} e =
    let (toml, w, e1) = >>=-eq-ok (write_prover_toml d) _ e in
    let (written, a, e2) =
      >>=-eq-ok (result_of (codes "write Prover.toml: ") (env.write_file toml)) _ e1 in
    let (witnessed, b, e3) =
      >>=-eq-ok (result_of (codes "nargo execute: ") env.nargo_execute) _ e2 in
    let (made, c, e4) =
      >>=-eq-ok (result_of (codes "create proof dir: ") env.make_proof_dir) _ e3 in
    let (proved, g, e5) = >>=-eq-ok (result_of (codes "bb prove: ") env.bb_prove) _ e4 in
    (
      elim (write_prover_toml-cases d) as (λ _. HasShortClaims d) [
        | inl (short, made) ↦ short
        | inr (long, broke) ↦ absurd (ground (arith, broke, w))
      ],
      result_of-ok (codes "read proof: ") env.read_proof e5,
    )

module _ (env : ProveEnv) (session_pub : Bytes) (header_b64 signing_input : Text) (claims : Claims)
    (sig_bytes : Bytes) where
  -- The token's claims and signature were proved under this key.
  pub record IsProvedBy (key : PublicKey) (r : ProveResult) : Type 0 where
    pub fetched : fetch_jwks_public_key env.jwks claims.iss header_b64 ≡ ok key
    pub modulus : key.modulus ≢ 0
    pub fits : length signing_input ≤ 1024
    pub short :
        (redc : ℕ) × HasShortClaims
          (prover_data claims header_b64 signing_input session_pub key.modulus redc sig_bytes)
    pub made :
        (proof : Bytes) × (env.read_proof ≡ answer proof)
        × (r ≡ proved_result claims session_pub key proof)

  proved_by :
      (key : PublicKey) (redc : ℕ) (proof : Bytes) {r : ProveResult} {u : Unit {0}}
      → wrap (codes "fetch JWKS: ") (fetch_jwks_public_key env.jwks claims.iss header_b64) ≡ ok key
      → redc_param key.modulus ≡ ok redc
      → guard (leb (length signing_input) max_data_length) (too_long (length signing_input)) ≡ ok u
      → run_prover env
          (prover_data claims header_b64 signing_input session_pub key.modulus redc sig_bytes)
        ≡ ok proof
      → Path (Result ProveResult) (ok (proved_result claims session_pub key proof)) (ok r)
      → IsProvedBy key r
  unfolding redc_param
  proved_by key redc proof {r} {u} k m f ran e =
      let (short, read) =
        run_prover-ok env
          (prover_data claims header_b64 signing_input session_pub key.modulus redc sig_bytes)
          ran in
      record {
        fetched =
            wrap-eq-ok (codes "fetch JWKS: ") (fetch_jwks_public_key env.jwks claims.iss header_b64)
              k;
        modulus = λ z. absurd (ground (arith, m));
        fits =
            let small =
              guard-ok (leb (length signing_input) max_data_length)
                (too_long (length signing_input)) f in
            ground arith;
        short = (redc, short);
        made = (proof, read, cc e);
      }

  prove_claims-IsProvedBy :
      {r : ProveResult}
      → prove_claims env session_pub header_b64 signing_input claims sig_bytes ≡ ok r
      → (key : PublicKey) × IsProvedBy key r
  unfolding prove_claims
  prove_claims-IsProvedBy {r} e0 =
      let (key, k, e1) =
        >>=-eq-ok
          (wrap (codes "fetch JWKS: ") (fetch_jwks_public_key env.jwks claims.iss header_b64)) _
          e0 in
      let (redc, m, e2) = >>=-eq-ok (redc_param key.modulus) _ e1 in
      let (fits, f, e3) =
        >>=-eq-ok
          (guard (leb (length signing_input) max_data_length) (too_long (length signing_input))) _
          e2 in
      let (proof, ran, e4) =
        >>=-eq-ok
          (run_prover env
            (prover_data claims header_b64 signing_input session_pub key.modulus redc sig_bytes))
          _ e3 in
      (key, proved_by key redc proof k m f ran e4)

-- The request's token: its three parts, its claims and its signature, decoded.
pub record IsDecoded (env : ProveEnv) (req : ProveRequest) (header payload : Text) (claims : Claims)
    (sig_bytes : Bytes) : Type 0 where
  pub sized : length req.session_pub ≡ 33
  pub parts :
      (sig : Text) × (jwt_parts req.jwt ≡ ok (header, payload, sig))
      × (env.jwks.base64_decode sig ≡ answer sig_bytes)
  pub parsed :
      (json : Bytes) × (env.jwks.base64_decode payload ≡ answer json)
      × (env.parse_claims json ≡ answer claims)

-- If Prove returns a proof, the session key has 33 bytes, the token has three parts whose payload
-- and signature decode, the key of the token's header was found at the issuer that the claims
-- name and its modulus is not 0, the signed part has at most 1024 bytes, the four claims fit
-- their bounded vectors, and the result is the proof that was read, with the claims, the key's
-- modulus and the session key.
pub prove-IsProvedBy :
    (env : ProveEnv) (req : ProveRequest) {r : ProveResult}
    → prove env req ≡ ok r
    → (header : Text) × (payload : Text) × (claims : Claims) × (sig_bytes : Bytes)
      × (key : PublicKey) × IsDecoded env req header payload claims sig_bytes
      × IsProvedBy env req.session_pub header (header ++ b'.' ∷ payload) claims sig_bytes key r
unfolding prove
prove-IsProvedBy env req {r} e0 =
    let (sized, s, e1) = >>=-eq-ok (guard (length req.session_pub == 33) bad_session_pub) _ e0 in
    let (parts, p, e2) = >>=-eq-ok (jwt_parts req.jwt) _ e1 in
    let (json, j, e3) =
      >>=-eq-ok (result_of (codes "decode JWT payload: ") (env.jwks.base64_decode parts.1)) _ e2 in
    let (claims, c, e4) =
      >>=-eq-ok (result_of (codes "parse JWT claims: ") (env.parse_claims json)) _ e3 in
    let (sig_bytes, g, e5) =
      >>=-eq-ok (result_of (codes "decode JWT signature: ") (env.jwks.base64_decode parts.2)) _
        e4 in
    let (key, by) =
      prove_claims-IsProvedBy env req.session_pub parts.0 (parts.0 ++ b'.' ∷ parts.1) claims
        sig_bytes {r = r} e5 in
    (
      parts.0,
      parts.1,
      claims,
      sig_bytes,
      key,
      record {
        sized =
            let good = guard-ok (length req.session_pub == 33) bad_session_pub s in ground arith;
        parts = (
          parts.2,
          p,
          result_of-ok (codes "decode JWT signature: ") (env.jwks.base64_decode parts.2) g,
        );
        parsed = (
          json,
          result_of-ok (codes "decode JWT payload: ") (env.jwks.base64_decode parts.1) j,
          result_of-ok (codes "parse JWT claims: ") (env.parse_claims json) c,
        );
      },
      by,
    )
