-- ===== src/Tests/Prover.antt =====
-- The theorems on the prover, at concrete inputs.
use signet_min_bundler.Prelude.{
  ◌≡◌, ◌⊎◌, refl, none, some, [], ◌∷◌, ◌++◌, Bytes, Text, codes, replicate, arith,
}
use signet_min_bundler.Go.{ok, panic, answer, pos, zeros}
use signet_min_bundler.Prover.Toml.{ProverData, limbs_of, write_prover_toml}
use signet_min_bundler.Hex.{set_bytes}
use signet_min_bundler.Hex.Digits.{of_digits}
use signet_min_bundler.Prover.Limbs.{IsSplit, limbs_of-IsSplit}
use signet_min_bundler.Prover.Bounded.{HasShortClaims, write_prover_toml-cases}
use signet_min_bundler.Prover.Jwks.{Jwk, PublicKey, fetch_jwks_public_key}
use signet_min_bundler.Prover.Prove.{
  Claims, ProveEnv, ProveRequest, ProveResult, proved_result, prove, prover_data,
}
use signet_min_bundler.Prover.Proved.{IsDecoded, IsProvedBy, prove-IsProvedBy}

limbs_of-IsSplit_example : IsSplit 1000 4 3 (limbs_of 1000 4 3)
limbs_of-IsSplit_example = limbs_of-IsSplit 1000 4 3 (omega arith)

abbrev key : Jwk
key = record { kid = codes "k"; kty = codes "RSA"; n = 7 ∷ []; e = 3 ∷ [] }

-- An issuer with one key, and programs that succeed; base64 leaves its text.
abbrev prove_env : ProveEnv
prove_env = record {
  jwks = record {
    base64_decode = λ t. answer t;
    parse_header = λ _. answer (record { kid = codes "k"; alg = codes "RS256" });
    get_jwks_uri = λ _. answer (some []);
    get_keys = λ _. answer (some (none ∷ some key ∷ []));
  };
  parse_claims =
      λ _. answer (record { iss = codes "i"; sub = codes "s"; aud = []; azp = []; exp = 5 });
  write_file = λ _. answer tt;
  nargo_execute = answer tt;
  make_proof_dir = answer tt;
  bb_prove = answer tt;
  read_proof = answer (1 ∷ []);
}

abbrev token : ProveRequest
token = record { jwt = codes "h.p.s"; session_pub = zeros 33 }

abbrev claims : Claims
claims = record { iss = codes "i"; sub = codes "s"; aud = []; azp = []; exp = 5 }

abbrev public_key : PublicKey
public_key = record { modulus = 7; exponent = pos 3 }

abbrev proof_result : ProveResult
proof_result = proved_result claims (zeros 33) public_key (1 ∷ [])

proved_run : prove prove_env token ≡ ok proof_result
unfolding prove fetch_jwks_public_key set_bytes of_digits
proved_run = refl

prove-IsProvedBy_example :
    (header : Text) × (payload : Text) × (c : Claims) × (sig_bytes : Bytes) × (k : PublicKey)
    × IsDecoded prove_env token header payload c sig_bytes
    × IsProvedBy prove_env (zeros 33) header (header ++ b'.' ∷ payload) c sig_bytes k proof_result
prove-IsProvedBy_example = prove-IsProvedBy prove_env token {r = proof_result} proved_run

-- A subject of 129 bytes.
abbrev long_subject : ProverData
long_subject = prover_data (record claims { sub = replicate 129 97 }) [] [] [] 7 1 []

write_prover_toml-cases_example :
    (HasShortClaims long_subject × ((text : Text) × (write_prover_toml long_subject ≡ ok text)))
    ⊎ ((HasShortClaims long_subject → ⊥) × (write_prover_toml long_subject ≡ panic))
write_prover_toml-cases_example = write_prover_toml-cases long_subject
