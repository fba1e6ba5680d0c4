-- ===== src/Bundler/Watcher/Settlement.antt =====
-- What `Poll` does to the rows, whatever the node answers and whatever the receipts hold.
use signet_min_bundler.Prelude.{
  ℕ, ◌≡◌, refl, sym, ◌∙◌, ◌⊎◌, inl, inr, Bool, true, false, Option, none, some, List, [], ◌∷◌, ◌==◌,
  arith, if◌then◌else◌, Bytes, Text, equal-eq, All, Bool-cases, Option-cases, map_option,
}
use signet_min_bundler.Go.{Result, ok, err, panic, ◌>>=◌}
use signet_min_bundler.Go.Results.{Answer-cases, >>=-eq-ok}
use signet_min_bundler.External.{External}
use signet_min_bundler.Mempool.Table.{
  Status, pending, submitted, confirmed, failed, Row, Table, satisfies_indexes, update_rows, update,
  has_hash,
}
use signet_min_bundler.Mempool.Table.Rows.{row_at, KeepsHash, row_at-hash, row_at-update_rows}
use signet_min_bundler.Mempool.Hydrate.{StoredOp, StatusExtra}
use signet_min_bundler.Mempool.Repo.{no_extra, set_columns, update_status}
use signet_min_bundler.Bundler.Receipt.{
  Outcomes, outcome_of, parse_handle_ops_receipt, handle_bundle_revert, reset_all,
}
use signet_min_bundler.Bundler.Watcher.{
  Receipt, WatchEnv, Groups, outcome_extra, settle_ops, table_after, settle_receipt, settle_group,
  settle_groups,
}

-- The statuses that a receipt leads to.
pub data IsOutcome : Status → Type 0 where
  landed : IsOutcome confirmed
  reverted : IsOutcome failed
  again : IsOutcome pending

-- The row of a hash since the poll began.
pub data Polled (t : Table) (k : Text) (o : Option Row) : Type 0 where
  same : o ≡ row_at k t → Polled t k o
  moved :
      {r r' : Row}
      → row_at k t ≡ some r
      → r.status ≡ submitted
      → o ≡ some r'
      → IsOutcome r'.status
      → Polled t k o

-- A table in the course of a poll that began at `t`.
pub record IsPolled (t u : Table) : Type 0 where
  pub indexes : satisfies_indexes u ≡ true
  pub rows : (k : Text) → Polled t k (row_at k u)

module _ (x : External) (now : ℕ) (t : Table) where
  -- The operation's row is submitted when the poll begins.
  abbrev pub IsSubmittedAt : StoredOp → Type 0
  IsSubmittedAt op = (r : Row) × (row_at (x.hash_hex op.hash) t ≡ some r) × (r.status ≡ submitted)

  row-Polled :
      (op : StoredOp) (s : Status) (extra : StatusExtra) (k : Text) (r : Row)
      → r.hash ≡ k
      → IsSubmittedAt op
      → IsOutcome s
      → Polled t k (some r)
      → Polled t k
          (some (if has_hash (x.hash_hex op.hash) r then set_columns x now s extra r else r))
  unfolding set_columns
  row-Polled op s extra k r named a e p = elim (Bool-cases (has_hash (x.hash_hex op.hash) r)) [
    | inl here ↦
        let h = sym (equal-eq r.hash (x.hash_hex op.hash) here) ∙ named in
        rw here (moved {r = a.0} (rw h at (a.1)) a.2 refl e)
    | inr there ↦ rw there p
  ]

  -- The table after an `UpdateStatus`.
  update_status_table :
      (h : Bytes) (s : Status) (extra : StatusExtra) (u : Table)
      → ((update_status x now h s extra u).1 ≡ u)
        ⊎ (((update_status x now h s extra u).1
              ≡ update_rows (has_hash (x.hash_hex h)) (set_columns x now s extra) u)
            × (satisfies_indexes
                  (update_rows (has_hash (x.hash_hex h)) (set_columns x now s extra) u)
                ≡ true))
  unfolding update_status update
  update_status_table h s extra u =
      elim (Bool-cases
        (satisfies_indexes (update_rows (has_hash (x.hash_hex h)) (set_columns x now s extra) u))) [
          | inl good ↦ inr (ground arith, good)
          | inr bad ↦ inl (ground arith)
        ]

  update-IsPolled :
      (op : StoredOp) (s : Status) (extra : StatusExtra) (u : Table)
      → IsSubmittedAt op
      → IsOutcome s
      → IsPolled t u
      → IsPolled t (update_status x now op.hash s extra u).1
  update-IsPolled op s extra u a e p = elim (update_status_table op.hash s extra u) [
    | inl kept ↦ rw kept p
    | inr (changed, good) ↦ rw changed (record {
      indexes = good;
      rows = λ k.
          rw
            (row_at-update_rows (has_hash (x.hash_hex op.hash)) (set_columns x now s extra) u k
              keeps)
            (each k (row_at k u) (λ r f. row_at-hash k u {r = r} f) (p.rows k));
    })
  ]
    where
      keeps : KeepsHash (set_columns x now s extra)
      keeps = unfold set_columns in λ r. refl

      each :
          (k : Text) (o : Option Row)
          → ((r : Row) → o ≡ some r → r.hash ≡ k)
          → Polled t k o
          → Polled t k (
              map_option
                (λ r. if has_hash (x.hash_hex op.hash) r then set_columns x now s extra r else r)
                o)
      each k none named p = p
      each k (some r) named p = row-Polled op s extra k r (named r refl) a e p

  settle_ops-IsPolled :
      (receipt : Receipt) (outcomes : Outcomes) (ops : List StoredOp) (u : Table)
      → All IsSubmittedAt ops
      → IsPolled t u
      → IsPolled t (settle_ops x now receipt outcomes ops u)
  unfolding settle_ops
  settle_ops-IsPolled receipt outcomes [] u a p = p
  settle_ops-IsPolled receipt outcomes (op ∷ ops) u a p =
      elim (Option-cases (outcome_of op.hash outcomes)) [
        | inl missing ↦ rw (missing, settle_ops) (settle_ops-IsPolled receipt outcomes ops u a.1 p)
        | inr (outcome, known) ↦
            rw (known, settle_ops)
              (settle_ops-IsPolled receipt outcomes ops
                (update_status x now op.hash (if outcome.success then confirmed else failed)
                  (outcome_extra receipt outcome) u).1
                a.1
                (update-IsPolled op (if outcome.success then confirmed else failed)
                  (outcome_extra receipt outcome) u a.0 (end outcome.success) p))
      ]
    where
      end : (b : Bool) → IsOutcome (if b then confirmed else failed)
      end true = landed
      end false = reverted

  reset_all-IsPolled :
      (ops : List StoredOp) (u : Table)
      → All IsSubmittedAt ops
      → IsPolled t u
      → IsPolled t (reset_all x now ops u)
  unfolding reset_all
  reset_all-IsPolled [] u a p = p
  reset_all-IsPolled (op ∷ ops) u a p =
      reset_all-IsPolled ops (update_status x now op.hash pending no_extra u).1 a.1
        (update-IsPolled op pending no_extra u a.0 again p)

module _ (x : External) (env : WatchEnv) (t : Table) where
  abbrev pub AllSubmitted : List StoredOp → Type 0
  AllSubmitted = All (IsSubmittedAt x env.now t)

  table_after-IsPolled :
      (r : Result Table) (u : Table)
      → IsPolled t u
      → ((u' : Table) → r ≡ ok u' → IsPolled t u')
      → IsPolled t (table_after r u).1
  table_after-IsPolled (ok u') u p q = q u' refl
  table_after-IsPolled (err e) u p q = p
  table_after-IsPolled panic u p q = p

  settle_receipt-IsPolled :
      (receipt : Receipt) (ops : List StoredOp) (u : Table)
      → AllSubmitted ops
      → IsPolled t u
      → (u' : Table) → settle_receipt x env receipt ops u ≡ ok u'
      → IsPolled t u'
  unfolding settle_receipt handle_bundle_revert
  settle_receipt-IsPolled receipt ops u a p u' e = elim (Bool-cases (receipt.status == 1)) [
    | inl good ↦
        let run : (parse_handle_ops_receipt x env.entry_point receipt.logs >>= λ outcomes.
        ok (settle_ops x env.now receipt outcomes ops u))
            ≡ ok u' =
          ground arith in
        let (outcomes, parsed, done) =
          >>=-eq-ok (parse_handle_ops_receipt x env.entry_point receipt.logs)
            (λ outcomes. ok (settle_ops x env.now receipt outcomes ops u)) run in
        let there : settle_ops x env.now receipt outcomes ops u ≡ u' = ground arith in
        rw there at (settle_ops-IsPolled x env.now t receipt outcomes ops u a p)
    | inr bad ↦
        let there : reset_all x env.now ops u ≡ u' = ground arith in
        rw there at (reset_all-IsPolled x env.now t ops u a p)
  ]

  settle_group-IsPolled :
      (group : Bytes × List StoredOp) (u : Table)
      → AllSubmitted group.1
      → IsPolled t u
      → IsPolled t (settle_group x env group u).1
  unfolding settle_group
  settle_group-IsPolled (tx, ops) u a p = elim (Answer-cases (env.receipt_of tx)) [
    | inl (receipt, came) ↦
        rw (came, settle_group)
          (table_after-IsPolled (settle_receipt x env receipt ops u) u p
            (settle_receipt-IsPolled receipt ops u a p))
    | inr (e, failed_to) ↦ rw (failed_to, settle_group) p
  ]

  pub settle_groups-IsPolled :
      (groups : Groups) (u : Table)
      → All (λ g. AllSubmitted g.1) groups
      → IsPolled t u
      → IsPolled t (settle_groups x env groups u).1
  unfolding settle_groups
  settle_groups-IsPolled [] u a p = p
  settle_groups-IsPolled (group ∷ groups) u a p =
      next (settle_group x env group u).0 (settle_group x env group u).1
        (settle_group-IsPolled group u a.0 p) (λ u' q. settle_groups-IsPolled groups u' a.1 q)
    where
      next :
          (r : Result (Unit {0})) (u' : Table)
          → IsPolled t u'
          → ((u' : Table) → IsPolled t u' → IsPolled t (settle_groups x env groups u').1)
          → IsPolled t
              (elim r as (λ _. Result (Unit {0}) × Table) [
                | ok _ ↦ settle_groups x env groups u'
                | err e ↦ (err e, u')
                | panic ↦ (panic, u')
              ]).1
      next (ok _) u' q rest = rest u' q
      next (err f) u' q rest = q
      next panic u' q rest = q
