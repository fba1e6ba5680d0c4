-- ===== src/Config.antt =====
-- internal/config/config.go: defaults, environment and checks, from the parsed file on. A signed
-- field is an integer; addresses stay as bytes.
pub mod Complete
use signet_min_bundler.Prelude.{
  ℕ, Bool, true, false, List, [], ◌∷◌, ◌==◌, ◌++◌, if◌then◌else◌, Bytes, Text, codes, equal, any,
  has_prefix, drop, Option, none, some,
}
use signet_min_bundler.Go.{
  Result, ok, err, panic, ◌>>=◌, ◌>>◌, wrap, guard, ℤ, pos, negsuc, Answer, answer, failure,
}

-- `BundlerConfig`; a nil `ExpectedAddress` is `none`.
pub record BundlerConfig : Type 0 where
  pub rpc_url : Text
  pub chain_id : ℕ
  pub entry_points : List Bytes
  pub allowed_paymasters : List Bytes
  pub max_verification_gas : ℕ
  pub max_call_gas : ℕ
  pub max_bundle_size : ℤ
  pub pending_ttl_ms : ℤ
  pub retention_ms : ℤ
  pub keystore_path : Text
  pub expected_address : Option Bytes
  pub db_path : Text
  pub listen_addr : Text
  pub tick_interval_ms : ℤ
  pub prover_api_key : Text
  pub sponsor_gating : Bool

-- The default in the place of 0, and of "".
abbrev pub default_int : ℕ → ℤ → ℤ
default_int n (pos k) = if k == 0 then pos n else pos k
default_int n (negsuc k) = negsuc k

abbrev pub default_text : Text → Text → Text
default_text d [] = d
default_text d (c ∷ s) = c ∷ s

-- `applyDefaults`
unfoldable pub apply_defaults : BundlerConfig → BundlerConfig
apply_defaults c = record c {
  max_bundle_size = default_int 10 c.max_bundle_size;
  pending_ttl_ms = default_int 600000 c.pending_ttl_ms;
  retention_ms = default_int 604800000 c.retention_ms;
  listen_addr = default_text (codes ":4337") c.listen_addr;
  tick_interval_ms = default_int 12000 c.tick_interval_ms;
  db_path = default_text (codes "~/.bundler/bundler.db") c.db_path;
  keystore_path = default_text (codes "~/.bundler/keystore.json") c.keystore_path;
}

-- `applyEnvOverrides`, on the two variables' values.
unfoldable pub apply_env_overrides : Text → Text → BundlerConfig → BundlerConfig
apply_env_overrides rpc_url prover_api_key c = record c {
  rpc_url = default_text c.rpc_url rpc_url;
  prover_api_key = default_text c.prover_api_key prover_api_key;
}

abbrev pub is_present {ℓ} : {A : Type ℓ} → List A → Bool
is_present [] = false
is_present (a ∷ s) = true

abbrev pub is_set : ℕ → Bool
is_set n = if n == 0 then false else true

-- `validate`
unfoldable pub validate : BundlerConfig → Result (Unit {0})
validate c = do
  guard (is_present c.rpc_url) (codes "rpcUrl is required")
  guard (is_set c.chain_id) (codes "chainId is required")
  guard (is_present c.entry_points) (codes "at least one entryPoint is required")
  guard (is_present c.allowed_paymasters) (codes "at least one allowedPaymaster is required")
  guard (is_set c.max_verification_gas) (codes "maxVerificationGas is required")
  guard (is_set c.max_call_gas) (codes "maxCallGas is required")
  ok tt

-- `Load`, from what `toml.Unmarshal` made of the file on.
unfoldable pub load : Text → Text → BundlerConfig → Result BundlerConfig
unfolding apply_defaults apply_env_overrides validate
load rpc_url prover_api_key parsed =
    let c = apply_env_overrides rpc_url prover_api_key (apply_defaults parsed) in
    wrap (codes "config validation: ") (validate c) >> ok c

-- `IsAllowedEntryPoint`
unfoldable pub is_allowed_entry_point : BundlerConfig → Bytes → Bool
is_allowed_entry_point c address = any (λ e. equal e address) c.entry_points

-- `ExpandPath`, with what `os.UserHomeDir` answers.
unfoldable pub expand_path : Answer Text → Text → Text
expand_path home path =
    if has_prefix path (codes "~/")
    then elim home [ answer h ↦ h ++ drop 1 path | failure e ↦ path ]
    else path
