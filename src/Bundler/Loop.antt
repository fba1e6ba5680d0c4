-- ===== src/Bundler/Loop.antt =====
-- internal/bundler/loop.go: `Tick` and the helpers that settle the operations of a bundle. The clock
-- is read once per call: the times that one call writes are equal.
pub mod Settle
pub mod Outcome
pub mod Lifecycle
use signet_min_bundler.Prelude.{
  ℕ, ◌+◌, ◌*◌, ◌/◌, ◌%◌, Bool, true, false, ◌||◌, Option, none, some, List, [], ◌∷◌, ◌++◌, map,
  if◌then◌else◌, Bytes, Text, codes, contains,
}
use signet_min_bundler.Go.{Result, ok, err, panic, Answer, answer, failure, word}
use signet_min_bundler.External.{External}
use signet_min_bundler.Mempool.Table.{Status, pending, submitted, failed, Table}
use signet_min_bundler.Mempool.Hydrate.{StoredOp, StatusExtra}
use signet_min_bundler.Mempool.Repo.{
  RowOrder, no_extra, get_pending, claim_for_bundling, update_status,
}
use signet_min_bundler.Bundler.Abi.{build_handle_ops_calldata}

-- `Signer` and `BundleClient`: what they answer during one tick, by the message sent.
pub record TickEnv : Type 0 where
  pub address : Bytes
  pub check_balance : Answer (Unit {0})
  pub estimate_gas : Bytes → Answer ℕ
  pub call_contract : Bytes → Answer Bytes
  pub sign_and_submit : Bytes → ℕ → Answer Bytes

abbrev pub failed_extra : Text → StatusExtra
failed_extra reason = record no_extra { revert_reason = some reason }

abbrev pub submitted_extra : Bytes → ℕ → ℕ → StatusExtra
submitted_extra tx index now = record no_extra {
  bundle_tx_hash = some tx;
  bundle_index = some index;
  submitted_at = some now;
}

-- `resetToPending`: an error of `UpdateStatus` is only logged.
unfoldable pub reset_to_pending : External → ℕ → List StoredOp → Table → Table
reset_to_pending x now [] t = t
reset_to_pending x now (op ∷ ops) t =
    reset_to_pending x now ops (update_status x now op.hash pending no_extra t).1

-- `failOps`
unfoldable pub fail_ops : External → ℕ → Text → List StoredOp → Table → Table
fail_ops x now reason [] t = t
fail_ops x now reason (op ∷ ops) t =
    fail_ops x now reason ops (update_status x now op.hash failed (failed_extra reason) t).1

-- Step 7 of `Tick`, from operation `i` on; errors are ignored.
unfoldable pub mark_submitted : External → ℕ → Bytes → ℕ → List StoredOp → Table → Table
mark_submitted x now tx i [] t = t
mark_submitted x now tx i (op ∷ ops) t =
    mark_submitted x now tx (i + 1) ops
      (update_status x now op.hash submitted (submitted_extra tx i now) t).1

-- `extractRevertReason`
unfoldable pub extract_revert_reason : Answer Bytes → Text
extract_revert_reason (answer bytes) = codes "unknown"
extract_revert_reason (failure e) = e

-- `isEntryPointRevert`
unfoldable pub is_entry_point_revert : Text → Text → Bool
is_entry_point_revert estimate_err reason =
    if contains reason (codes "FailedOp") || contains reason (codes "FailedOpWithRevert")
    then true
    else if contains estimate_err (codes "0x220266b6") || contains estimate_err (codes "0x6fde1f52")
    then true
    else if contains reason (codes " AA")
    then true
    else if contains estimate_err (codes "execution reverted")
    then true
    else false

-- The failure branch of step 5.
unfoldable pub estimate_failed : External → ℕ → List StoredOp → Text → Text → Table → Table
estimate_failed x now ops e reason t =
    if is_entry_point_revert e reason
    then fail_ops x now reason ops t
    else reset_to_pending x now ops t

-- `gasLimit * 12 / 10` on `uint64`.
abbrev pub with_buffer : ℕ → ℕ
with_buffer gas = gas * 12 % word / 10

-- Steps 4 to 7 of `Tick`, on the claimed operations.
unfoldable pub submit_bundle :
    External → TickEnv → ℕ → List StoredOp → Table → Result (Unit {0}) × Table
submit_bundle x env now ops t =
    let calldata = build_handle_ops_calldata x (map (λ (op : StoredOp). op.op) ops) env.address in
    elim (env.estimate_gas calldata) [
      | answer gas ↦ elim (env.sign_and_submit calldata (with_buffer gas)) [
        | answer tx ↦ (ok tt, mark_submitted x now tx 0 ops t)
        | failure e ↦ (err (codes "submit bundle: " ++ e), reset_to_pending x now ops t)
      ]
      | failure e ↦ (
        err (codes "estimate gas: " ++ e),
        estimate_failed x now ops e (extract_revert_reason (env.call_contract calldata)) t,
      )
    ]

-- Steps 3 to 7 of `Tick`.
unfoldable pub claim_and_submit :
    External → TickEnv → ℕ → List StoredOp → Table → Result (Unit {0}) × Table
claim_and_submit x env now ops t =
    let (claim, t') = claim_for_bundling x now (map (λ (op : StoredOp). op.hash) ops) t in
    elim claim [
      | ok _ ↦ submit_bundle x env now ops t'
      | err e ↦ (err (codes "claim for bundling: " ++ e), t')
      | panic ↦ (panic, t')
    ]

-- Steps 2 to 7 of `Tick`, from what `GetPending` returned.
unfoldable pub bundle_pending :
    External → TickEnv → ℕ → Result (List StoredOp) → Table → Result (Unit {0}) × Table
bundle_pending x env now (err e) t = (err (codes "get pending: " ++ e), t)
bundle_pending x env now panic t = (panic, t)
bundle_pending x env now (ok []) t = (ok tt, t)
bundle_pending x env now (ok (op ∷ ops)) t = claim_and_submit x env now (op ∷ ops) t

-- `Tick`
unfoldable pub tick : External → RowOrder → TickEnv → ℕ → ℕ → Table → Result (Unit {0}) × Table
tick x o env max_bundle now t = elim env.check_balance [
  | answer _ ↦ bundle_pending x env now (get_pending x o max_bundle t) t
  | failure e ↦ (err e, t)
]
