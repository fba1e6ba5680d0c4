-- ===== src/SendUserOp/Flow.antt =====
-- cmd/send-userop/main.go: `run`, from the flags to the bundler's answer. What is only printed, and
-- the test vector that it may write, are left out.
use signet_min_bundler.Prelude.{
  ℕ, Bool, not, ◌&&◌, Option, none, some, [], if◌then◌else◌, equal, Bytes, Text, codes,
}
use signet_min_bundler.Go.{Result, ok, err, panic, ◌>>=◌, wrap, ℤ, pos, scale, add_int}
use signet_min_bundler.Hex.{decode_hex}
use signet_min_bundler.External.{External}
use signet_min_bundler.Core.UserOp.{PackedUserOp, is_empty}
use signet_min_bundler.Core.Calldata.{build_execute_calldata, build_init_code}
use signet_min_bundler.Core.Pack.{pack_big_ints, pack_uint128s}
use signet_min_bundler.Core.Crypto.{pub_key_to_address}
use signet_min_bundler.SendUserOp.Parse.{parse_address, parse_value}
use signet_min_bundler.SendUserOp.Fetch.{
  Node, fetch_chain_id, fetch_base_fee, fetch_get_address, is_deployed, fetch_nonce,
}
use signet_min_bundler.SendUserOp.Sign.{Frost, compute_user_op_hash, derive_public_key, frost_sign}
use signet_min_bundler.SendUserOp.Submit.{
  BundlerApi, ReadEstimate, fetch_gas_estimate, submit_to_bundler,
}

-- The flags that are read.
pub record Flags : Type 0 where
  pub bundler : Text
  pub entry_point : Text
  pub factory : Text
  pub salt : Text
  pub sender : Text
  pub key : Text
  pub to : Text
  pub value : Text
  pub calldata : Text
  pub verification_gas_limit : ℕ
  pub call_gas_limit : ℕ
  pub pre_verification_gas : ℕ
  pub max_fee_per_gas : Text
  pub max_priority_fee_per_gas : Text
  pub no_estimate_gas : Bool

-- The outside of the command; `parse_any` is `SetString(s, 0)`.
pub record SendEnv : Type 0 where
  pub node : Node
  pub api : BundlerApi
  pub frost : Frost
  pub parse_any : Text → Option ℤ

-- A number in any base, or the error. (Its text quotes the flag too.)
abbrev pub number : Text → Option ℤ → Result ℤ
number message none = err message
number message (some n) = ok n

-- The flags without which nothing is done. (The error lists those that are missing.)
abbrev pub has_required : Flags → Bool
has_required f =
    not (is_empty f.bundler)
    && not (is_empty f.factory && is_empty f.sender)
    && not (is_empty f.key)
    && not (is_empty f.to)

-- `maxFeePerGas`
unfoldable pub max_fee : SendEnv → Flags → ℤ → Result ℤ
max_fee env f max_prio_fee =
    if is_empty f.max_fee_per_gas
    then (do
      base_fee ← wrap (codes "fetch base fee: ") (fetch_base_fee env.node)
      ok (add_int (scale base_fee 2) max_prio_fee))
    else number (codes "invalid --max-fee-per-gas") (env.parse_any f.max_fee_per_gas)

-- The sender that the flags name must be the account of the factory.
unfoldable pub check_sender_flag : Text → Bytes → Result (Unit {0})
check_sender_flag sender counterfactual = if is_empty sender then ok tt else (do
  explicit ← wrap (codes "invalid --sender: ") (parse_address sender)
  if equal explicit counterfactual
      then ok tt
      else err (codes "--sender does not match factory.getAddress"))

-- The sender, and the init code of an account that is not deployed.
unfoldable pub resolve_sender : External → SendEnv → Flags → Bytes → Bytes → Result (Bytes × Bytes)
unfolding check_sender_flag
resolve_sender x env f entry_point group_pub_key =
    if is_empty f.factory
    then (do sender ← wrap (codes "invalid --sender: ") (parse_address f.sender); ok (sender, []))
    else (do
      factory ← wrap (codes "invalid --factory: ") (parse_address f.factory)
      salt ← number (codes "invalid --salt") (env.parse_any f.salt)
      counterfactual ←
          wrap (codes "factory.getAddress: ")
            (fetch_get_address x env.node factory entry_point group_pub_key salt)
      checked ← check_sender_flag f.sender counterfactual
      deployed ← wrap (codes "check deployment: ") (is_deployed env.node counterfactual)
      ok (
        counterfactual,
        if deployed then [] else build_init_code x factory entry_point group_pub_key salt,
      ))

-- The operation with the gas of the bundler's estimate, or with that of the flags if there is none.
unfoldable pub with_estimate : Flags → Result ReadEstimate → PackedUserOp → PackedUserOp
with_estimate f (ok est) op = record op {
  pre_verification_gas = est.pre_verification_gas;
  account_gas_limits = pack_big_ints (pos f.verification_gas_limit) est.call_gas_limit;
}
with_estimate f (err e) op = op
with_estimate f panic op = op

-- The signature and the submission of an operation that has its gas.
unfoldable pub sign_sized :
    External → SendEnv → Flags → ℤ → Bytes → PackedUserOp → Result (PackedUserOp × Text)
sign_sized x env f chain_id entry_point op = do
  sig ←
      wrap (codes "frost sign: ")
        (frost_sign env.frost f.key (compute_user_op_hash x op chain_id entry_point))
  let signed = record op { signature = sig }
  hash ← wrap (codes "submit: ") (submit_to_bundler env.api signed entry_point)
  ok (signed, hash)

-- The gas estimate, the signature and the submission of an operation.
unfoldable pub sign_and_submit_op :
    External → SendEnv → Flags → ℤ → Bytes → PackedUserOp → Result (PackedUserOp × Text)
unfolding with_estimate sign_sized
sign_and_submit_op x env f chain_id entry_point op =
    let sized =
      if f.no_estimate_gas
      then op
      else with_estimate f (fetch_gas_estimate env.api op entry_point) op in
    sign_sized x env f chain_id entry_point sized

-- `run` once the flags are there; the result is the operation that was sent, and its hash.
unfoldable pub send_flags : External → SendEnv → Flags → Result (PackedUserOp × Text)
unfolding max_fee resolve_sender sign_and_submit_op
send_flags x env f = do
  entry_point ← wrap (codes "invalid --entry-point: ") (parse_address f.entry_point)
  to ← wrap (codes "invalid --to: ") (parse_address f.to)
  value ← wrap (codes "invalid --value: ") (parse_value f.value)
  max_prio_fee ←
      number (codes "invalid --max-priority-fee-per-gas") (env.parse_any f.max_priority_fee_per_gas)
  group_pub_key ← wrap (codes "derive public key: ") (derive_public_key env.frost f.key)
  expected_signer ← wrap (codes "derive signer address: ") (pub_key_to_address x group_pub_key)
  chain_id ← wrap (codes "fetch chain id: ") (fetch_chain_id env.node)
  fee ← max_fee env f max_prio_fee
  (sender, init_code) ← resolve_sender x env f entry_point group_pub_key
  nonce ← wrap (codes "fetch nonce: ") (fetch_nonce x env.node entry_point sender)
  inner_data ← wrap (codes "decode --calldata: ") (decode_hex f.calldata)
  sign_and_submit_op x env f chain_id entry_point (record {
    sender = sender;
    nonce = nonce;
    init_code = init_code;
    call_data = build_execute_calldata x to value inner_data;
    account_gas_limits = pack_uint128s f.verification_gas_limit f.call_gas_limit;
    pre_verification_gas = pos f.pre_verification_gas;
    gas_fees = pack_big_ints max_prio_fee fee;
    paymaster_and_data = [];
    signature = [];
  })

-- `run`
unfoldable pub run_command : External → SendEnv → Flags → Result (PackedUserOp × Text)
unfolding send_flags
run_command x env f =
    if has_required f then send_flags x env f else err (codes "missing required flags")
