-- ===== src/Tests/Checks.antt =====
-- The theorems on the validator and the gas estimate, at concrete inputs.
use signet_min_bundler.Prelude.{
  ℕ, Bytes, codes, none, some, false, ◌||◌, if◌then◌else◌, ◌+◌, ◌*◌, ◌%◌, ◌^◌, ◌<◌, ◌≡◌, refl, ◌&&◌,
  [], ◌∷◌, leb, arith, equal, any, length,
}
use signet_min_bundler.Go.{ok, err, pos, abs, word, sub, zeros}
use signet_min_bundler.Hex.{big_bytes, pad_left32}
use signet_min_bundler.Hex.Digits.{to_digits}
use signet_min_bundler.Core.UserOp.{PackedUserOp}
use signet_min_bundler.Core.Pack.{pack_big_ints}
use signet_min_bundler.Validator.{Validator, validate}
use signet_min_bundler.Validator.Accepts.{is_ok, validate_accepts}
use signet_min_bundler.Estimator.{abi_encode_packed_op, calc_pre_verification_gas}
use signet_min_bundler.Estimator.Bounds.{
  zero_bytes, nonzero_bytes, calc_pre_verification_gas_counts,
}
use signet_min_bundler.Config.{BundlerConfig, apply_defaults, apply_env_overrides, load}
use signet_min_bundler.Config.Complete.{IsComplete, load-IsComplete}
use signet_min_bundler.Sponsor.{
  Invite, Store, check_sender, find_invite, redeem_code, sender_text, used_code,
}
use signet_min_bundler.Sponsor.Redeem.{redeem_code_once}
use signet_min_bundler.Tests.Instances.{sample}
use signet_min_bundler.Tests.Mempool.{sample_op}

-- A call gas limit above 2^64.
abbrev big_limits : PackedUserOp
big_limits = record (sample_op 1) {
  account_gas_limits = pack_big_ints (pos 150000) (pos (2 ^ 64 + 5));
  paymaster_and_data = zeros 20;
}

abbrev one_paymaster : Validator
one_paymaster = record {
  allowed_paymasters = zeros 20 ∷ [];
  max_verification_gas = 200000;
  max_call_gas = 500;
}

validate_accepts_example : is_ok (validate one_paymaster big_limits) ≡ (
    leb (abs (pos 150000) % word) 200000
    && leb (abs (pos (2 ^ 64 + 5)) % word) 500
    && leb 20 (length big_limits.paymaster_and_data)
    && any (λ p. equal p (sub big_limits.paymaster_and_data 0 20)) one_paymaster.allowed_paymasters)
validate_accepts_example =
    validate_accepts one_paymaster big_limits (pos 150000) (pos (2 ^ 64 + 5)) refl

sample_short : length (abi_encode_packed_op (sample_op 1)) < 2 ^ 59
unfolding abi_encode_packed_op pad_left32 big_bytes to_digits
sample_short = omega arith

calc_pre_verification_gas_counts_example :
    calc_pre_verification_gas (sample_op 1)
    ≡ 32000
      + 4 * zero_bytes (abi_encode_packed_op (sample_op 1))
      + 16 * nonzero_bytes (abi_encode_packed_op (sample_op 1))
calc_pre_verification_gas_counts_example =
    calc_pre_verification_gas_counts (sample_op 1) sample_short

-- A configuration file with only the required settings.
abbrev minimal : BundlerConfig
minimal = record {
  rpc_url = codes "http://localhost:8545";
  chain_id = 1;
  entry_points = zeros 20 ∷ [];
  allowed_paymasters = zeros 20 ∷ [];
  max_verification_gas = 500000;
  max_call_gas = 1000000;
  max_bundle_size = pos 0;
  pending_ttl_ms = pos 0;
  retention_ms = pos 0;
  keystore_path = [];
  expected_address = none;
  db_path = [];
  listen_addr = [];
  tick_interval_ms = pos 0;
  prover_api_key = [];
  sponsor_gating = false;
}

minimal_loads : load [] [] minimal ≡ ok (apply_env_overrides [] [] (apply_defaults minimal))
unfolding load validate apply_env_overrides apply_defaults
minimal_loads = refl

load-IsComplete_example : IsComplete (apply_env_overrides [] [] (apply_defaults minimal))
load-IsComplete_example =
    load-IsComplete [] [] minimal {c = apply_env_overrides [] [] (apply_defaults minimal)}
      minimal_loads

-- One unused invite code.
abbrev invite : Invite
invite = record { code = codes "a3f1b2c4"; created_at = 1; used_by = none; used_at = none }

abbrev one_invite : Store
one_invite = record { invites = invite ∷ []; guests = [] }

invite_found : find_invite (codes "a3f1b2c4") one_invite.invites ≡ some invite
unfolding find_invite
invite_found = refl

nobody : check_sender sample (zeros 20) one_invite ≡ false
unfolding check_sender
nobody = refl

redeem_code_once_example :
    (store' : Store) × (redeem_code sample 2 (codes "a3f1b2c4") (zeros 20) one_invite
      ≡ (ok tt, store'))
    × ((other : Bytes)
        → check_sender sample other store'
          ≡ check_sender sample other one_invite
            || equal (sender_text sample (zeros 20)) (sender_text sample other))
    × ((later : ℕ) (other : Bytes)
        → redeem_code sample later (codes "a3f1b2c4") other store'
          ≡ (if check_sender sample other store' then (ok tt, store') else (err used_code, store')))
redeem_code_once_example =
    redeem_code_once sample 2 (codes "a3f1b2c4") (zeros 20) one_invite {i = invite} nobody
      invite_found refl
