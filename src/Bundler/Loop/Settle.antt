-- ===== src/Bundler/Loop/Settle.antt =====
-- The three loops of `Tick` over the operations of a bundle: what they do to each row.
use signet_min_bundler.Prelude.{
  ℕ, ◌+◌, ◌≡◌, refl, ◌∙◌, ◌⊎◌, inl, inr, Bool, true, false, Option, none, some, List, [], ◌∷◌,
  arith, if◌then◌else◌, Bytes, Text, equal, equal-eq, equal_self, equal_comm, any, Bool-cases,
  map_option,
}
use signet_min_bundler.External.{External}
use signet_min_bundler.Mempool.Table.{
  Status, pending, submitted, failed, Row, Table, is_active, satisfies_indexes,
}
use signet_min_bundler.Mempool.Table.Rows.{row_at}
use signet_min_bundler.Mempool.Hydrate.{StoredOp, StatusExtra}
use signet_min_bundler.Mempool.Repo.{no_extra, set_columns, update_status}
use signet_min_bundler.Mempool.Repo.UpdateStatus.{Becomes, update_status_row}
use signet_min_bundler.Bundler.Loop.{
  reset_to_pending, fail_ops, mark_submitted, failed_extra, submitted_extra,
}

module _ (x : External) where
  abbrev pub op_named : Text → StoredOp → Bool
  op_named k op = equal (x.hash_hex op.hash) k

  -- The place of the operation of this hash, counted from `i`.
  unfoldable pub place : Text → ℕ → List StoredOp → Option ℕ
  place k i [] = none
  place k i (op ∷ ops) = if op_named k op then some i else place k (i + 1) ops

  -- The operations are of different live rows.
  abbrev pub AllLive : Table → List StoredOp → Type 0
  AllLive t [] = Unit
  AllLive t (op ∷ ops) =
      ((r : Row) × (row_at (x.hash_hex op.hash) t ≡ some r) × (is_active r ≡ true))
      × (any (op_named (x.hash_hex op.hash)) ops ≡ false)
      × AllLive t ops

  -- The three loops in one: the new status and columns by the operation's place.
  pub settle_all : ℕ → (ℕ → Status) → (ℕ → StatusExtra) → ℕ → List StoredOp → Table → Table
  settle_all now s extra i [] t = t
  settle_all now s extra i (op ∷ ops) t =
      settle_all now s extra (i + 1) ops (update_status x now op.hash (s i) (extra i) t).1

  -- A row after a loop.
  abbrev pub settled : ℕ → (ℕ → Status) → (ℕ → StatusExtra) → Option ℕ → Option Row → Option Row
  settled now s extra none row = row
  settled now s extra (some i) row = map_option (set_columns x now (s i) (extra i)) row

  AllLive-Becomes :
      (h : Text) (r' : Row) (t t' : Table) (ops : List StoredOp)
      → Becomes t t' h r'
      → any (op_named h) ops ≡ false
      → AllLive t ops
      → AllLive t' ops
  AllLive-Becomes h r' t t' [] b f a = tt
  AllLive-Becomes h r' t t' (g ∷ gs) b f a = (
    (
      a.0.0,
      ground (arith, b.rows (x.hash_hex g.hash), equal_comm h (x.hash_hex g.hash), a.0.1),
      a.0.2,
    ),
    a.1,
    AllLive-Becomes h r' t t' gs b (ground arith) a.2,
  )

  place_absent :
      (k : Text) (i : ℕ) (ops : List StoredOp) → any (op_named k) ops ≡ false → place k i ops ≡ none
  unfolding place
  place_absent k i [] h = refl
  place_absent k i (op ∷ ops) h = ground (arith, place_absent k (i + 1) ops)

  module _ (now : ℕ) (s : ℕ → Status) (extra : ℕ → StatusExtra) where
    pub settle_all_rows :
        (i : ℕ) (ops : List StoredOp) (t : Table)
        → satisfies_indexes t ≡ true
        → AllLive t ops
        → (satisfies_indexes (settle_all now s extra i ops t) ≡ true)
          × ((k : Text)
              → row_at k (settle_all now s extra i ops t)
                ≡ settled now s extra (place k i ops) (row_at k t))
    unfolding settle_all place
    settle_all_rows i [] t v a = (v, λ k. refl)
    settle_all_rows i (op ∷ ops) t v a =
        let (t', done, b) =
          update_status_row x now op.hash (s i) (extra i) t {r = a.0.0} v a.0.1 (λ _. a.0.2) in
        let (v', rows) = settle_all_rows (i + 1) ops t' b.indexes (
          AllLive-Becomes (x.hash_hex op.hash) (set_columns x now (s i) (extra i) a.0.0) t t' ops b
            a.1 a.2) in
        (
          rw (done, settle_all) v',
          λ k. rw (done, settle_all) (rows k ∙ first k t' b (Bool-cases (op_named k op))),
        )
      where
        first :
            (k : Text) (t' : Table)
            → Becomes t t' (x.hash_hex op.hash) (set_columns x now (s i) (extra i) a.0.0)
            → (op_named k op ≡ true) ⊎ (op_named k op ≡ false)
            → settled now s extra (place k (i + 1) ops) (row_at k t')
              ≡ settled now s extra
                  (if op_named k op then some i else place k (i + 1) ops)
                  (row_at k t)
        first k t' b (inl here) =
            let same = equal-eq (x.hash_hex op.hash) k here in
            rw (here, ← same, place_absent (x.hash_hex op.hash) (i + 1) ops a.1)
              (b.rows (x.hash_hex op.hash) ∙ rw (equal_self (x.hash_hex op.hash), a.0.1))
        first k t' b (inr there) = rw (there, b.rows k, there)

    -- The other rows are as they were, and so is every row if the loop has none to settle.
    pub settle_all_other :
        (k : Text) (i : ℕ) (ops : List StoredOp) (t : Table)
        → satisfies_indexes t ≡ true
        → AllLive t ops
        → place k i ops ≡ none
        → row_at k (settle_all now s extra i ops t) ≡ row_at k t
    settle_all_other k i ops t v a e = (settle_all_rows i ops t v a).1 k ∙ rw e

  module _ (now : ℕ) where
    pub reset_to_pending-settle_all :
        (i : ℕ) (ops : List StoredOp) (t : Table)
        → reset_to_pending x now ops t ≡ settle_all now (λ _. pending) (λ _. no_extra) i ops t
    unfolding reset_to_pending settle_all
    reset_to_pending-settle_all i [] t = refl
    reset_to_pending-settle_all i (op ∷ ops) t =
        reset_to_pending-settle_all (i + 1) ops (update_status x now op.hash pending no_extra t).1

    pub fail_ops-settle_all :
        (reason : Text) (i : ℕ) (ops : List StoredOp) (t : Table)
        → fail_ops x now reason ops t
          ≡ settle_all now (λ _. failed) (λ _. failed_extra reason) i ops t
    unfolding fail_ops settle_all
    fail_ops-settle_all reason i [] t = refl
    fail_ops-settle_all reason i (op ∷ ops) t =
        fail_ops-settle_all reason (i + 1) ops
          (update_status x now op.hash failed (failed_extra reason) t).1

    pub mark_submitted-settle_all :
        (tx : Bytes) (i : ℕ) (ops : List StoredOp) (t : Table)
        → mark_submitted x now tx i ops t
          ≡ settle_all now (λ _. submitted) (λ j. submitted_extra tx j now) i ops t
    unfolding mark_submitted settle_all
    mark_submitted-settle_all tx i [] t = refl
    mark_submitted-settle_all tx i (op ∷ ops) t =
        mark_submitted-settle_all tx (i + 1) ops
          (update_status x now op.hash submitted (submitted_extra tx i now) t).1
