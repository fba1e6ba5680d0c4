-- ===== src/Bundler/Watcher/Poll.antt =====
-- `Poll` and `Reconcile` as wholes: which operations they look at, and what they leave.
use mathlib.Core.List.{Permᴰ}
use signet_min_bundler.Prelude.{
  ℕ, ◌≡◌, ◌≢◌, refl, ap, ◌∙◌, inl, inr, Bool, true, Option, none, some, List, [], ◌∷◌, ◌++◌, arith,
  if◌then◌else◌, Bytes, Text, equal, All, select, Bool-cases, Option-cases, map_option,
}
use signet_min_bundler.Go.{Result, ok, err, panic}
use signet_min_bundler.External.{External}
use signet_min_bundler.Mempool.Table.{
  Status, pending, bundling, submitted, Row, Table, satisfies_indexes, update_rows, update,
  has_status,
}
use signet_min_bundler.Mempool.Table.Rows.{row_at}
use signet_min_bundler.Mempool.Hydrate.{StoredOp, scan_ops}
use signet_min_bundler.Mempool.Repo.{
  RowOrder, get_by_status, reset_bundling_to_pending, with_status,
}
use signet_min_bundler.Mempool.Repo.Sweep.{reset_bundling}
use signet_min_bundler.Mempool.Repo.Pending.{
  RowOrderLaws, IsValid, All-perm, Distinct-indexes, row_at_self, hydrate_op-hash, scan_ops-cons,
}
use signet_min_bundler.Bundler.Watcher.{
  WatchEnv, Groups, add_to_group, group_by_tx, poll_ops, poll, reconcile,
}
use signet_min_bundler.Bundler.Watcher.Settlement.{
  IsOutcome, Polled, landed, reverted, again, IsPolled, same, moved, AllSubmitted,
  settle_groups-IsPolled,
}

-- Go visits every entry of a map once.
pub record WatchLaws (env : WatchEnv) : Type 0 where
  pub visit-perm : (groups : Groups) → Permᴰ groups (env.visit groups)

module _ (P : Bytes × List StoredOp → Type 0) where
  groups-perm : {gs hs : Groups} → Permᴰ gs hs → All P gs → All P hs
  groups-perm Permᴰ.nil a = a
  groups-perm (Permᴰ.cons e p) a = (rw e at (a.0), groups-perm p a.1)
  groups-perm (Permᴰ.swap e f) a = (rw f at (a.1.0), (rw e at (a.0), a.1.1))
  groups-perm (Permᴰ.trans p q) a = groups-perm q (groups-perm p a)

module _ (P : StoredOp → Type 0) where
  All-snoc : (ops : List StoredOp) (op : StoredOp) → All P ops → P op → All P (ops ++ op ∷ [])
  All-snoc [] op a p = (p, tt)
  All-snoc (o ∷ ops) op a p = (a.0, All-snoc ops op a.1 p)

  add_to_group-All :
      (tx : Bytes) (op : StoredOp) (groups : Groups)
      → P op
      → All (λ g. All P g.1) groups
      → All (λ g. All P g.1) (add_to_group tx op groups)
  unfolding add_to_group
  add_to_group-All tx op [] p a = ((p, tt), tt)
  add_to_group-All tx op ((g, ops) ∷ groups) p a = elim (Bool-cases (equal g tx)) [
    | inl here ↦ rw here (All-snoc ops op a.0 p, a.1)
    | inr there ↦ rw there (a.0, add_to_group-All tx op groups p a.1)
  ]

  group_by_tx-All :
      (ops : List StoredOp) (groups : Groups)
      → All P ops
      → All (λ g. All P g.1) groups
      → All (λ g. All P g.1) (group_by_tx ops groups)
  unfolding group_by_tx
  group_by_tx-All [] groups a g = g
  group_by_tx-All (op ∷ ops) groups a g = elim (Option-cases op.bundle_tx_hash) [
    | inl lost ↦ rw (lost, group_by_tx) (group_by_tx-All ops groups a.1 g)
    | inr (tx, known) ↦
        rw (known, group_by_tx)
          (group_by_tx-All ops (add_to_group tx op groups) a.1
            (add_to_group-All tx op groups a.0 g))
  ]

module _ (x : External) (env : WatchEnv) (t : Table) where
  -- A row that `GetByStatus` may return.
  record IsSubmittedRow (r : Row) : Type 0 where
    found : row_at r.hash t ≡ some r
    canonical : x.hash_hex (x.hex_to_hash r.hash) ≡ r.hash
    waits : r.status ≡ submitted

  scan_submitted :
      (rows : List Row) (ops : List StoredOp)
      → All IsSubmittedRow rows
      → scan_ops x rows ≡ ok ops
      → AllSubmitted x env t ops
  unfolding scan_ops
  scan_submitted [] [] c e = tt
  scan_submitted [] (op ∷ ops) c e = absurd (ground arith)
  scan_submitted (r ∷ rows) ops c e =
      let (op, rest, h, more, whole) = scan_ops-cons x r rows e in
      let text : x.hash_hex op.hash ≡ r.hash =
        ap x.hash_hex (hydrate_op-hash x r {op = op} h).0 ∙ c.0.canonical in
      rw whole ((r, rw text (c.0.found), c.0.waits), scan_submitted rows rest c.1 more)

  gather :
      (u : Table)
      → All (λ s. row_at s.hash t ≡ some s) u
      → All (λ r. x.hash_hex (x.hex_to_hash r.hash) ≡ r.hash) u
      → All IsSubmittedRow (select (has_status submitted) u)
  gather [] f c = tt
  gather (r ∷ u) f c = elim (Bool-cases (has_status submitted r)) [
    | inl waits ↦
        rw waits (record { found = f.0; canonical = c.0; waits = ground arith }, gather u f.1 c.1)
    | inr busy ↦ rw busy (gather u f.1 c.1)
  ]

  get_by_status-AllSubmitted :
      (o : RowOrder) (ops : List StoredOp)
      → RowOrderLaws o
      → IsValid x t
      → get_by_status x o submitted t ≡ ok ops
      → AllSubmitted x env t ops
  unfolding get_by_status
  get_by_status-AllSubmitted o ops laws v e =
      scan_submitted (o.order_by (λ r. r.received_at) (select (has_status submitted) t)) ops
        (All-perm IsSubmittedRow
          (laws.order_by-perm (λ r. r.received_at) (select (has_status submitted) t))
          (gather t (row_at_self t (Distinct-indexes t v.indexes)) v.canonical))
        e

  unmoved : satisfies_indexes t ≡ true → IsPolled t t
  unmoved i = record { indexes = i; rows = λ k. same refl }

  poll_ops-IsPolled :
      (found : Result (List StoredOp))
      → WatchLaws env
      → satisfies_indexes t ≡ true
      → ((ops : List StoredOp) → found ≡ ok ops → AllSubmitted x env t ops)
      → IsPolled t (poll_ops x env found t).1
  unfolding poll_ops
  poll_ops-IsPolled (ok ops) laws i a =
      settle_groups-IsPolled x env t (env.visit (group_by_tx ops [])) t
        (groups-perm (λ g. AllSubmitted x env t g.1) (laws.visit-perm (group_by_tx ops []))
          (group_by_tx-All _ ops [] (a ops refl) tt))
        (unmoved i)
  poll_ops-IsPolled (err e) laws i a = unmoved i
  poll_ops-IsPolled panic laws i a = unmoved i

  -- On a table that satisfies the unique indexes and whose hash columns are canonical, with an
  -- ORDER BY that sorts, whatever the node answers, in whatever order the bundles are visited
  -- (each once), and also if a receipt makes it panic, Poll keeps the indexes, and each row is as
  -- it was, or was submitted and is now confirmed, failed or pending.
  pub poll-IsPolled :
      (o : RowOrder) → RowOrderLaws o → WatchLaws env → IsValid x t → IsPolled t (poll x o env t).1
  unfolding poll
  poll-IsPolled o order laws v =
      poll_ops-IsPolled (get_by_status x o submitted t) laws v.indexes
        (λ ops e. get_by_status-AllSubmitted o ops order v e)

abbrev IsCanonical : External → Table → Type 0
IsCanonical x = All (λ r. x.hash_hex (x.hex_to_hash r.hash) ≡ r.hash)

module _ (x : External) (now : ℕ) where
  update_rows-IsCanonical :
      (test : Row → Bool) (s : Status) (t : Table)
      → IsCanonical x t
      → IsCanonical x (update_rows test (with_status now s) t)
  unfolding update_rows
  update_rows-IsCanonical test s [] c = tt
  update_rows-IsCanonical test s (r ∷ t) c = elim (Bool-cases (test r)) [
    | inl here ↦ rw here (c.0, update_rows-IsCanonical test s t c.1)
    | inr there ↦ rw there (c.0, update_rows-IsCanonical test s t c.1)
  ]

  pub reset_bundling-IsValid :
      (t : Table) → IsValid x t → IsValid x (reset_bundling_to_pending now t).1
  unfolding reset_bundling_to_pending update
  reset_bundling-IsValid t v =
      elim (Bool-cases
        (satisfies_indexes (update_rows (has_status bundling) (with_status now pending) t))) [
          | inl good ↦
              rw (good, reset_bundling_to_pending, update)
                (record {
                  indexes = good;
                  canonical = update_rows-IsCanonical (has_status bundling) pending t v.canonical;
                })
          | inr bad ↦ rw (bad, reset_bundling_to_pending, update) v
        ]

-- No row, or one that no claim holds.
abbrev pub IsReleased : Option Row → Type 0
IsReleased none = Unit
IsReleased (some r) = r.status ≢ bundling

module _ (x : External) (env : WatchEnv) where
  reset-IsReleased :
      (t : Table) (k : Text)
      → satisfies_indexes t ≡ true
      → IsReleased (row_at k (reset_bundling_to_pending env.now t).1)
  reset-IsReleased t k i =
      let (t', done, i', rows) = reset_bundling env.now t i in
      rw (done, rows k) (released (row_at k t))
    where
      released :
          (o : Option Row)
          → IsReleased (
              map_option
                (λ r. if has_status bundling r then with_status env.now pending r else r)
                o)
      released none = tt
      released (some r) = elim (Bool-cases (has_status bundling r)) [
        | inl here ↦ rw here (λ e. cc)
        | inr there ↦ rw there (λ e. ground arith)
      ]

  Polled-IsReleased :
      (t : Table) (k : Text) (o : Option Row)
      → Polled t k o
      → IsReleased (row_at k t)
      → IsReleased o
  Polled-IsReleased t k o (same e) r = rw e r
  Polled-IsReleased t k o (moved {r' = r'} f s e z) r = rw e (other r'.status z)
    where
      other : (s : Status) → IsOutcome s → s ≢ bundling
      other _ landed = λ e. cc
      other _ reverted = λ e. cc
      other _ again = λ e. cc

  -- On a table that satisfies the unique indexes and whose hash columns are canonical, with an
  -- ORDER BY that sorts and a map whose entries are visited once: after the startup
  -- reconciliation no row is bundling, whatever the node answers, and the indexes hold.
  pub reconcile_releases :
      (o : RowOrder) (t : Table)
      → RowOrderLaws o
      → WatchLaws env
      → IsValid x t
      → (satisfies_indexes (reconcile x o env t).1 ≡ true)
        × ((k : Text) → IsReleased (row_at k (reconcile x o env t).1))
  unfolding reconcile
  reconcile_releases o t order laws v =
      let (u, done, i', rows) = reset_bundling env.now t v.indexes in
      let went = ap (λ (p : Result ℕ × Table). p.0) done in
      let t' = (reset_bundling_to_pending env.now t).1 in
      let p = poll-IsPolled x env t' o order laws (reset_bundling-IsValid x env.now t v) in
      rw (went, reconcile)
        (
          p.indexes,
          λ k.
              Polled-IsReleased t' k (row_at k (poll x o env t').1) (p.rows k)
                (reset-IsReleased t k v.indexes),
        )
