-- ===== src/Mempool/Repo.antt =====
-- internal/mempool/db.go: the methods of `SQLiteRepo` over the table, and the tick of prune.go.
pub mod UpdateStatus
pub mod Claim
pub mod Insert
pub mod Sweep
pub mod Pending
use signet_min_bundler.Prelude.{
  ℕ, ◌+◌, ◌-◌, suc, zero, Bool, true, false, not, ◌&&◌, Option, none, some, List, [], ◌∷◌, ◌++◌,
  leb, ◌==◌, if◌then◌else◌, Bytes, Text, codes, equal, select, take, map_option,
}
use signet_min_bundler.Go.{Result, ok, err, panic, ◌>>=◌, ℤ, sub_ℕ}
use signet_min_bundler.Hex.{int_text}
use signet_min_bundler.External.{External}
use signet_min_bundler.Core.UserOp.{PackedUserOp}
use signet_min_bundler.Mempool.Table.{
  Status, pending, bundling, submitted, confirmed, failed, replaced, is_terminal, same_status, Row,
  Table, insert_row, update, count_rows, before, has_hash, has_status, find_row,
}
use signet_min_bundler.Mempool.Hydrate.{StoredOp, StatusExtra, new_row, hydrate_op, scan_ops}

-- `ORDER BY`: SQLite's sort, of which the rows' order among equal keys is not documented.
pub record RowOrder : Type 0 where
  pub order_by : (Row → ℕ) → List Row → List Row

abbrev pub unique_failed : Text
unique_failed = codes "UNIQUE constraint failed"

abbrev pub duplicate : Text
duplicate = codes "duplicate sender+nonce: op already exists in mempool"

abbrev pub no_rows : Text
no_rows = codes "sql: no rows in result set"

-- `Insert`
unfoldable pub insert : External → ℕ → PackedUserOp → Bytes → Table → Result (Unit {0}) × Table
insert x now op hash t = elim (insert_row (new_row x now op hash) t) [
  | none ↦ (err duplicate, t)
  | some t' ↦ (ok tt, t')
]

abbrev pub with_status : ℕ → Status → Row → Row
with_status now s r = record r { status = s; updated_at = now }

-- The statements of `Replace` after its check of the old row; `none` rolls the transaction back.
unfoldable pub swap_rows : External → ℕ → Text → PackedUserOp → Bytes → Table → Option Table
swap_rows x now old op hash t = elim (update (has_hash old) (with_status now replaced) t) [
  | none ↦ none
  | some (n, t') ↦ insert_row (new_row x now op hash) t'
]

-- `Replace`
unfoldable pub replace :
    External → ℕ → Bytes → PackedUserOp → Bytes → Table → Result (Unit {0}) × Table
unfolding swap_rows
replace x now old op hash t = elim (find_row (has_hash (x.hash_hex old)) t) [
  | none ↦ (err (codes "old op not found: " ++ no_rows), t)
  | some r ↦
      if same_status r.status pending
      then elim (swap_rows x now (x.hash_hex old) op hash t) [
        | none ↦ (err unique_failed, t)
        | some t' ↦ (ok tt, t')
      ]
      else (err (codes "cannot replace op"), t)
]

-- `GetPending`
unfoldable pub get_pending : External → RowOrder → ℕ → Table → Result (List StoredOp)
get_pending x o limit t =
    scan_ops x (take limit (o.order_by (λ r. r.received_at) (select (has_status pending) t)))

abbrev pub not_pending : Text
not_pending = codes "claim: op not pending"

abbrev pub claim_failed : Text
claim_failed = codes "claim: UNIQUE constraint failed"

-- One round of the loop of `ClaimForBundling`, from what its `UPDATE` did.
abbrev pub claimed : Option (ℕ × Table) → Result Table
claimed none = err claim_failed
claimed (some (zero, t')) = err not_pending
claimed (some (suc n, t')) = ok t'

-- The `WHERE` of that `UPDATE`.
abbrev pub is_claimable : Text → Row → Bool
is_claimable h r = has_hash h r && has_status pending r

-- The loop of `ClaimForBundling`, inside its transaction.
unfoldable pub claim_each : External → ℕ → List Bytes → Table → Result Table
claim_each x now [] t = ok t
claim_each x now (h ∷ hashes) t = do
  t' ← claimed (update (is_claimable (x.hash_hex h)) (with_status now bundling) t)
  claim_each x now hashes t'

-- `tx.Commit()`, or the deferred `tx.Rollback()`.
abbrev pub commit_or_rollback : Result Table → Table → Result (Unit {0}) × Table
commit_or_rollback (ok t') t = (ok tt, t')
commit_or_rollback (err e) t = (err e, t)
commit_or_rollback panic t = (panic, t)

-- `ClaimForBundling`: a hash that is not pending rolls all of it back.
unfoldable pub claim_for_bundling : External → ℕ → List Bytes → Table → Result (Unit {0}) × Table
claim_for_bundling x now hashes t = commit_or_rollback (claim_each x now hashes t) t

-- `column = ?` if the pointer is not nil, else the column as it was.
abbrev pub or_else {ℓ} : {A : Type ℓ} → Option A → Option A → Option A
or_else (some a) old = some a
or_else none old = old

abbrev pub no_extra : StatusExtra
no_extra = record {
  bundle_tx_hash = none;
  bundle_index = none;
  submitted_at = none;
  block_number = none;
  revert_reason = none;
  actual_gas_cost = none;
}

-- The assignments that `UpdateStatus` builds; a nil `extra` is `no_extra`.
unfoldable pub set_columns : External → ℕ → Status → StatusExtra → Row → Row
set_columns x now s extra r = record r {
  status = s;
  updated_at = now;
  bundle_tx_hash = or_else (map_option x.hash_hex extra.bundle_tx_hash) r.bundle_tx_hash;
  bundle_index = or_else extra.bundle_index r.bundle_index;
  submitted_at = or_else extra.submitted_at r.submitted_at;
  block_number = or_else extra.block_number r.block_number;
  revert_reason = or_else extra.revert_reason r.revert_reason;
  actual_gas_cost = or_else (map_option (int_text 10) extra.actual_gas_cost) r.actual_gas_cost;
}

abbrev pub not_found : Text
not_found = codes "op not found"

-- `UpdateStatus`. (An error of it is of text only for the log.)
unfoldable pub update_status :
    External → ℕ → Bytes → Status → StatusExtra → Table → Result (Unit {0}) × Table
unfolding set_columns
update_status x now hash s extra t =
    elim (update (has_hash (x.hash_hex hash)) (set_columns x now s extra) t) [
      | none ↦ (err (codes "update status: " ++ unique_failed), t)
      | some (n, t') ↦ elim n [ zero ↦ (err not_found, t') | suc _ ↦ (ok tt, t') ]
    ]

unfoldable pub scan_op : External → Option Row → Result StoredOp
scan_op x none = err no_rows
scan_op x (some r) = hydrate_op x r

-- `GetByHash`
unfoldable pub get_by_hash : External → Bytes → Table → Result StoredOp
unfolding scan_op find_row
get_by_hash x hash t = scan_op x (find_row (has_hash (x.hash_hex hash)) t)

-- `GetConfirmedByHash`
unfoldable pub get_confirmed_by_hash : External → Bytes → Table → Result StoredOp
unfolding scan_op find_row
get_confirmed_by_hash x hash t =
    scan_op x (find_row (λ r. has_hash (x.hash_hex hash) r && has_status confirmed r) t)

-- The order of `bundle_index`, NULL first.
abbrev pub index_key : Row → ℕ
index_key r = elim r.bundle_index [ none ↦ 0 | some i ↦ i + 1 ]

abbrev pub in_bundle : Text → Row → Bool
in_bundle tx r = elim r.bundle_tx_hash [ none ↦ false | some h ↦ equal h tx ]

-- `GetByBundleTx`
unfoldable pub get_by_bundle_tx : External → RowOrder → Bytes → Table → Result (List StoredOp)
get_by_bundle_tx x o tx t = scan_ops x (o.order_by index_key (select (in_bundle (x.hash_hex tx)) t))

-- `GetByStatus`
unfoldable pub get_by_status : External → RowOrder → Status → Table → Result (List StoredOp)
get_by_status x o s t = scan_ops x (o.order_by (λ r. r.received_at) (select (has_status s) t))

-- An `UPDATE` whose count is the result.
abbrev pub counted : Option (ℕ × Table) → Table → Result ℕ × Table
counted none t = (err unique_failed, t)
counted (some (n, t')) t = (ok n, t')

-- `ResetBundlingToPending`
unfoldable pub reset_bundling_to_pending : ℕ → Table → Result ℕ × Table
reset_bundling_to_pending now t =
    counted (update (has_status bundling) (with_status now pending) t) t

abbrev pub ttl_expired : Text
ttl_expired = codes "ttl_expired"

abbrev pub expire : ℕ → Row → Row
expire now r = record r { status = failed; revert_reason = some ttl_expired; updated_at = now }

abbrev pub is_stale : ℤ → Row → Bool
is_stale cutoff r = has_status pending r && before r.received_at cutoff

-- `MarkTtlExpired`
unfoldable pub mark_ttl_expired : ℕ → ℤ → Table → Result ℕ × Table
mark_ttl_expired now cutoff t = counted (update (is_stale cutoff) (expire now) t) t

abbrev pub is_old_history : ℤ → Row → Bool
is_old_history cutoff r = is_terminal r.status && before r.updated_at cutoff

-- `DELETE … WHERE test`: the rows that stay, and the number of those that go.
unfoldable pub delete_rows : (Row → Bool) → Table → ℕ × Table
unfolding count_rows
delete_rows test t = (count_rows test t, select (λ r. not (test r)) t)

-- `PruneHistory`
unfoldable pub prune_history : ℤ → Table → Result ℕ × Table
unfolding delete_rows
prune_history cutoff t = let (n, t') = delete_rows (is_old_history cutoff) t in (ok n, t')

-- `Pruner.tick`, with its two readings of the clock (that of `MarkTtlExpired` is `now`).
unfoldable pub prune_tick : ℕ → ℕ → ℕ → ℕ → Table → Table
prune_tick pending_ttl retention now later t =
    (prune_history (sub_ℕ later retention) (mark_ttl_expired now (sub_ℕ now pending_ttl) t).1).1
