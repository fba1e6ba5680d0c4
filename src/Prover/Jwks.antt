-- ===== src/Prover/Jwks.antt =====
-- internal/prover/prover.go: the issuer's key, from its discovery document.
use signet_min_bundler.Prelude.{
  ℕ, Bool, not, ◌&&◌, ◌||◌, Option, none, some, List, [], ◌∷◌, ◌++◌, if◌then◌else◌, Bytes, Text,
  codes, equal, ◌==◌,
}
use signet_min_bundler.Go.{Result, ok, err, ◌>>=◌, Answer, answer, failure, ℤ, int64_of}
use signet_min_bundler.Hex.{set_bytes}
use signet_min_bundler.Core.UserOp.{is_empty}

-- The header of a JWT, as it is read.
pub record JwtHeader : Type 0 where
  pub kid : Text
  pub alg : Text

-- An entry of `keys` that is an object; "" where a member is missing or no string.
pub record Jwk : Type 0 where
  pub kid : Text
  pub kty : Text
  pub n : Text
  pub e : Text

-- `rsa.PublicKey`
pub record PublicKey : Type 0 where
  pub modulus : ℕ
  pub exponent : ℤ

-- What the key search takes from outside: base64, the JSON of a header, and two documents by their
-- URL. `none` is a document without the member that is looked for, and an entry that is no object.
pub record JwksEnv : Type 0 where
  pub base64_decode : Text → Answer Bytes
  pub parse_header : Bytes → Answer JwtHeader
  pub get_jwks_uri : Text → Answer (Option Text)
  pub get_keys : Text → Answer (Option (List (Option Jwk)))

-- The error of a call, with its context.
abbrev pub result_of {ℓ} : {A : Type ℓ} → Text → Answer A → Result A
result_of context (answer a) = ok a
result_of context (failure e) = err (context ++ e)

abbrev pub present {ℓ} : {A : Type ℓ} → Text → Option A → Result A
present missing (some a) = ok a
present missing none = err missing

-- `parseJWK`
unfoldable pub parse_jwk : JwksEnv → Jwk → Result PublicKey
parse_jwk env key =
    if is_empty key.n || is_empty key.e then err (codes "missing n or e in JWK") else (do
      n_bytes ← result_of (codes "decode JWK n: ") (env.base64_decode key.n)
      e_bytes ← result_of (codes "decode JWK e: ") (env.base64_decode key.e)
      ok (record { modulus = set_bytes n_bytes; exponent = int64_of (set_bytes e_bytes) }))

abbrev pub is_match : Text → Jwk → Bool
is_match kid key = equal key.kid kid && equal key.kty (codes "RSA")

-- The loop over the keys.
unfoldable pub find_key : JwksEnv → Text → List (Option Jwk) → Result PublicKey
unfolding parse_jwk
find_key env kid [] = err (codes "no matching RSA key found for kid=" ++ kid)
find_key env kid (none ∷ keys) = find_key env kid keys
find_key env kid (some key ∷ keys) =
    let rest = find_key env kid keys in if is_match kid key then parse_jwk env key else rest

-- `strings.TrimSuffix(issuer, "/")`
unfoldable pub trim_slash : Text → Text
trim_slash [] = []
trim_slash (c ∷ []) = if c == b'/' then [] else c ∷ []
trim_slash (c ∷ d ∷ s) = c ∷ trim_slash (d ∷ s)

abbrev pub discovery_url : Text → Text
discovery_url issuer = trim_slash issuer ++ codes "/.well-known/openid-configuration"

-- `fetchJWKSPublicKey` from the header on.
unfoldable pub fetch_key : JwksEnv → Text → JwtHeader → Result PublicKey
unfolding find_key trim_slash
fetch_key env issuer header =
    if not (equal header.alg (codes "RS256"))
    then err (codes "unsupported algorithm: " ++ (header.alg ++ codes " (need RS256)"))
    else (do
      uri ← result_of (codes "fetch OIDC config: ") (env.get_jwks_uri (discovery_url issuer))
      jwks_uri ← present (codes "no jwks_uri in OIDC config") uri
      found ← result_of (codes "fetch JWKS: ") (env.get_keys jwks_uri)
      keys ← present (codes "no keys in JWKS") found
      find_key env header.kid keys)

-- `fetchJWKSPublicKey`
unfoldable pub fetch_jwks_public_key : JwksEnv → Text → Text → Result PublicKey
unfolding fetch_key
fetch_jwks_public_key env issuer header_b64 = do
  header_json ← result_of (codes "decode header: ") (env.base64_decode header_b64)
  header ← result_of (codes "parse header: ") (env.parse_header header_json)
  fetch_key env issuer header
