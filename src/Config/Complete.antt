-- ===== src/Config/Complete.antt =====
-- What a loaded configuration has.
use signet_min_bundler.Prelude.{
  ℕ, ◌≡◌, ◌≢◌, refl, Bool, true, false, List, [], ◌∷◌, arith, Text, codes,
}
use signet_min_bundler.Go.{Result, ok, err, panic, ◌>>◌, wrap, guard, ℤ, pos, negsuc}
use signet_min_bundler.Config.{
  BundlerConfig, default_int, is_present, is_set, apply_defaults, apply_env_overrides, validate,
  load,
}

-- The settings that the bundler cannot run without.
pub record IsComplete (c : BundlerConfig) : Type 0 where
  pub rpc_url : c.rpc_url ≢ []
  pub chain_id : c.chain_id ≢ 0
  pub entry_points : c.entry_points ≢ []
  pub allowed_paymasters : c.allowed_paymasters ≢ []
  pub max_verification_gas : c.max_verification_gas ≢ 0
  pub max_call_gas : c.max_call_gas ≢ 0
  pub max_bundle_size : c.max_bundle_size ≢ pos 0
  pub pending_ttl_ms : c.pending_ttl_ms ≢ pos 0
  pub retention_ms : c.retention_ms ≢ pos 0
  pub tick_interval_ms : c.tick_interval_ms ≢ pos 0

passed_guard {ℓ} :
    {A : Type ℓ} (b : Bool) (e : Text) (k : Result A) {a : A}
    → (guard b e >> k) ≡ ok a
    → (b ≡ true) × (k ≡ ok a)
passed_guard true e k h = (refl, h)
passed_guard false e k h = cc

present {ℓ} : {A : Type ℓ} (s : List A) → is_present s ≡ true → s ≢ []
present [] h = cc
present (a ∷ s) h = λ e. cc

set : (n : ℕ) → is_set n ≡ true → n ≢ 0
set n h = ground arith

default_int_set : (n : ℕ) (v : ℤ) → n ≢ 0 → default_int n v ≢ pos 0
default_int_set n (pos k) h = ground arith
default_int_set n (negsuc k) h = λ e. cc

-- What the checks establish.
record IsChecked (c : BundlerConfig) : Type 0 where
  rpc_url : c.rpc_url ≢ []
  chain_id : c.chain_id ≢ 0
  entry_points : c.entry_points ≢ []
  allowed_paymasters : c.allowed_paymasters ≢ []
  max_verification_gas : c.max_verification_gas ≢ 0
  max_call_gas : c.max_call_gas ≢ 0

validate-IsChecked : (c : BundlerConfig) → validate c ≡ ok tt → IsChecked c
unfolding validate
validate-IsChecked c h =
    let (a1, h1) = passed_guard (is_present c.rpc_url) _ _ h in
    let (a2, h2) = passed_guard (is_set c.chain_id) _ _ h1 in
    let (a3, h3) = passed_guard (is_present c.entry_points) _ _ h2 in
    let (a4, h4) = passed_guard (is_present c.allowed_paymasters) _ _ h3 in
    let (a5, h5) = passed_guard (is_set c.max_verification_gas) _ _ h4 in
    let (a6, h6) = passed_guard (is_set c.max_call_gas) _ _ h5 in
    record {
      rpc_url = present c.rpc_url a1;
      chain_id = set c.chain_id a2;
      entry_points = present c.entry_points a3;
      allowed_paymasters = present c.allowed_paymasters a4;
      max_verification_gas = set c.max_verification_gas a5;
      max_call_gas = set c.max_call_gas a6;
    }

checked_then :
    (context : Text) (m : Result (Unit {0})) (c0 : BundlerConfig) {c : BundlerConfig}
    → (wrap context m >> ok c0) ≡ ok c
    → (m ≡ ok tt) × (Result.ok c0 ≡ ok c)
checked_then context (ok _) c0 h = (refl, h)
checked_then context (err e) c0 h = cc
checked_then context panic c0 h = cc

-- A configuration that loads has an RPC address, a chain id, an entry point, a paymaster and both
-- gas maxima, and no size or interval of it is 0.
pub load-IsComplete :
    (rpc_url prover_api_key : Text) (parsed : BundlerConfig) {c : BundlerConfig}
    → load rpc_url prover_api_key parsed ≡ ok c
    → IsComplete c
unfolding load apply_defaults apply_env_overrides
load-IsComplete rpc_url prover_api_key parsed {c} h =
    let c0 = apply_env_overrides rpc_url prover_api_key (apply_defaults parsed) in
    let (valid, loaded) = checked_then (codes "config validation: ") (validate c0) c0 h in
    let there : c0 ≡ c = cc loaded in
    let v = validate-IsChecked c0 valid in rw there at (complete v)
  where
    complete :
        IsChecked (apply_env_overrides rpc_url prover_api_key (apply_defaults parsed))
        → IsComplete (apply_env_overrides rpc_url prover_api_key (apply_defaults parsed))
    complete v = record {
      rpc_url = v.rpc_url;
      chain_id = v.chain_id;
      entry_points = v.entry_points;
      allowed_paymasters = v.allowed_paymasters;
      max_verification_gas = v.max_verification_gas;
      max_call_gas = v.max_call_gas;
      max_bundle_size = default_int_set 10 parsed.max_bundle_size (omega arith);
      pending_ttl_ms = default_int_set 600000 parsed.pending_ttl_ms (omega arith);
      retention_ms = default_int_set 604800000 parsed.retention_ms (omega arith);
      tick_interval_ms = default_int_set 12000 parsed.tick_interval_ms (omega arith);
    }
