-- ===== src/Bundler/Watcher.antt =====
-- internal/bundler/watcher.go and reconcile.go: `Poll`, and `Reconcile` at the start of the process.
pub mod Settlement
pub mod Poll
use signet_min_bundler.Prelude.{
  ℕ, ◌%◌, ◌^◌, Bool, true, false, Option, none, some, List, [], ◌∷◌, ◌++◌, ◌==◌, if◌then◌else◌,
  Bytes, equal,
}
use signet_min_bundler.Go.{Result, ok, err, panic, ◌>>=◌, Answer, answer, failure, ℤ, uint64_of}
use signet_min_bundler.External.{External}
use signet_min_bundler.Mempool.Table.{Status, submitted, confirmed, failed, Table}
use signet_min_bundler.Mempool.Hydrate.{StoredOp, StatusExtra}
use signet_min_bundler.Mempool.Repo.{
  RowOrder, no_extra, get_by_status, reset_bundling_to_pending, update_status,
}
use signet_min_bundler.Bundler.Receipt.{
  Log, OpOutcome, Outcomes, outcome_of, parse_handle_ops_receipt, handle_bundle_revert,
}

-- `types.Receipt`, as far as it is read.
pub record Receipt : Type 0 where
  pub status : ℕ
  pub block_number : ℕ
  pub logs : List Log

-- `byTx`
abbrev pub Groups : Type 0
Groups = List (Bytes × List StoredOp)

-- What a poll takes from outside: the node, the contract's address, the order in which Go visits a
-- map, and the clock, which stands still during the call.
pub record WatchEnv : Type 0 where
  pub entry_point : Bytes
  pub receipt_of : Bytes → Answer Receipt
  pub visit : Groups → Groups
  pub now : ℕ

-- `byTx[tx] = append(byTx[tx], op)`
unfoldable pub add_to_group : Bytes → StoredOp → Groups → Groups
add_to_group tx op [] = (tx, op ∷ []) ∷ []
add_to_group tx op ((g, ops) ∷ groups) =
    let rest = add_to_group tx op groups in
    if equal g tx then (g, ops ++ op ∷ []) ∷ groups else (g, ops) ∷ rest

-- The grouping loop.
unfoldable pub group_by_tx : List StoredOp → Groups → Groups
unfolding add_to_group
group_by_tx [] groups = groups
group_by_tx (op ∷ ops) groups = elim op.bundle_tx_hash [
  | none ↦ group_by_tx ops groups
  | some tx ↦ group_by_tx ops (add_to_group tx op groups)
]

abbrev pub outcome_extra : Receipt → OpOutcome → StatusExtra
outcome_extra receipt outcome = record no_extra {
  block_number = some (uint64_of receipt.block_number);
  actual_gas_cost = outcome.actual_gas_cost;
  revert_reason = outcome.revert_reason;
}

-- The loop over the operations of a bundle that landed.
unfoldable pub settle_ops : External → ℕ → Receipt → Outcomes → List StoredOp → Table → Table
settle_ops x now receipt outcomes [] t = t
settle_ops x now receipt outcomes (op ∷ ops) t = elim (outcome_of op.hash outcomes) [
  | none ↦ settle_ops x now receipt outcomes ops t
  | some outcome ↦
      settle_ops x now receipt outcomes ops
        (update_status x now op.hash (if outcome.success then confirmed else failed)
          (outcome_extra receipt outcome) t).1
]

-- What a call did, and the table that it leaves; a panic here comes before any write.
abbrev pub table_after : Result Table → Table → Result (Unit {0}) × Table
table_after (ok t') t = (ok tt, t')
table_after (err e) t = (err e, t)
table_after panic t = (panic, t)

-- One bundle whose receipt has come.
unfoldable pub settle_receipt : External → WatchEnv → Receipt → List StoredOp → Table → Result Table
unfolding settle_ops
settle_receipt x env receipt ops t =
    if receipt.status == 1
    then (do
      outcomes ← parse_handle_ops_receipt x env.entry_point receipt.logs
      ok (settle_ops x env.now receipt outcomes ops t))
    else handle_bundle_revert x env.now [] ops t

-- One round of the loop over `byTx`; an error of the node skips the bundle.
unfoldable pub settle_group :
    External → WatchEnv → Bytes × List StoredOp → Table → Result (Unit {0}) × Table
settle_group x env (tx, ops) t = elim (env.receipt_of tx) [
  | failure e ↦ (ok tt, t)
  | answer receipt ↦ table_after (settle_receipt x env receipt ops t) t
]

unfoldable pub settle_groups : External → WatchEnv → Groups → Table → Result (Unit {0}) × Table
settle_groups x env [] t = (ok tt, t)
settle_groups x env (group ∷ groups) t =
    let (done, t') = settle_group x env group t in
    elim done [ ok _ ↦ settle_groups x env groups t' | err e ↦ (err e, t') | panic ↦ (panic, t') ]

-- `Poll` from the submitted operations on; without any there is no group, and the early return does
-- nothing more.
unfoldable pub poll_ops :
    External → WatchEnv → Result (List StoredOp) → Table → Result (Unit {0}) × Table
unfolding group_by_tx
poll_ops x env (ok ops) t = settle_groups x env (env.visit (group_by_tx ops [])) t
poll_ops x env (err e) t = (err e, t)
poll_ops x env panic t = (panic, t)

-- `Poll`
unfoldable pub poll : External → RowOrder → WatchEnv → Table → Result (Unit {0}) × Table
poll x o env t = poll_ops x env (get_by_status x o submitted t) t

-- `Reconcile`: the reset of the interrupted claims, then the same check of the submitted bundles.
unfoldable pub reconcile : External → RowOrder → WatchEnv → Table → Result (Unit {0}) × Table
reconcile x o env t =
    let (reset, t') = reset_bundling_to_pending env.now t in
    elim reset [ ok n ↦ poll x o env t' | err e ↦ (err e, t') | panic ↦ (panic, t') ]
