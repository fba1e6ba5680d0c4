-- ===== src/System/Steps.antt =====
-- The steps of the loop, the watcher, the pruner and the reconciliation.
use signet_min_bundler.Prelude.{
  ℕ, ◌≡◌, refl, ap, ◌∙◌, sym, ◌⊎◌, inl, inr, map, true, false, Option, none, some, List, [], ◌∷◌,
  arith, if◌then◌else◌, Text, Bytes, equal, equal-eq, Bool-cases, map_option,
}
use signet_min_bundler.Go.{ℤ, Result, ok}
use signet_min_bundler.External.{External}
use signet_min_bundler.Mempool.Table.{
  Status, pending, bundling, submitted, failed, Row, Table, has_status,
}
use signet_min_bundler.Mempool.Table.Rows.{row_at}
use signet_min_bundler.Mempool.Hydrate.{StoredOp}
use signet_min_bundler.Mempool.Repo.{
  RowOrder, get_pending, claim_for_bundling, mark_ttl_expired, prune_history, is_stale, expire,
  is_old_history, with_status, reset_bundling_to_pending,
}
use signet_min_bundler.Mempool.Repo.Sweep.{reset_bundling, mark_ttl_expired_lem, prune_history_lem}
use signet_min_bundler.Mempool.Repo.Claim.{AllPending, names, claim_pending}
use signet_min_bundler.Mempool.Repo.Pending.{get_pending-AllPending, RowOrderLaws, IsValid}
use signet_min_bundler.Bundler.Loop.{TickEnv, tick}
use signet_min_bundler.Bundler.Loop.Lifecycle.{tick-Follows}
use signet_min_bundler.Bundler.Watcher.{WatchEnv, poll, reconcile}
use signet_min_bundler.Bundler.Watcher.Settlement
use signet_min_bundler.Bundler.Watcher.Settlement.{IsOutcome, Polled, IsPolled}
use signet_min_bundler.Bundler.Watcher.Poll.{WatchLaws, poll-IsPolled, reset_bundling-IsValid}
use signet_min_bundler.System.Status.{
  Moves, claims, drops, confirms, reverts, retries, releases, forgets,
}
use signet_min_bundler.System.Lives.{
  Evolves, Lives, Lives-Evolves, Lives-same, Lives-moved, Follows-Lives,
}

module _ (x : External) (t : Table) (v : IsValid x t) where
  pub tick-Evolves :
      (o : RowOrder) (env : TickEnv) (max_bundle now : ℕ)
      → RowOrderLaws o
      → Evolves x t (tick x o env max_bundle now t).1
  tick-Evolves o env max_bundle now laws =
      let (i, rows) = tick-Follows x now o env max_bundle t laws v in
      Lives-Evolves x t v (tick x o env max_bundle now t).1 i
        (λ k. Follows-Lives x t v k (row_at k (tick x o env max_bundle now t).1) (rows k))

  named_pending :
      (hs : List Bytes) (k : Text)
      → AllPending x t hs
      → names x k hs ≡ true
      → (r : Row) × (row_at k t ≡ some r) × (r.status ≡ pending)
  named_pending [] k a e = cc
  named_pending (h ∷ hs) k a e = elim (Bool-cases (equal (x.hash_hex h) k)) [
    | inl here ↦ (a.0.0, rw (equal-eq (x.hash_hex h) k here) at (a.0.1.found), a.0.1.status)
    | inr there ↦ named_pending hs k a.2 (ground arith)
  ]

  pub stops-Evolves :
      (o : RowOrder) (limit now : ℕ) (ops : List StoredOp)
      → RowOrderLaws o
      → get_pending x o limit t ≡ ok ops
      → Evolves x t (claim_for_bundling x now (map (λ (op : StoredOp). op.hash) ops) t).1
  stops-Evolves o limit now ops order e =
      let hs = map (λ (op : StoredOp). op.hash) ops in
      let a : AllPending x t hs = get_pending-AllPending x t limit o {ops = ops} order v e in
      let (u, done, i, rows) = claim_pending x now hs t v.indexes a in
      rw done (Lives-Evolves x t v u i (λ k. rw (rows k) (each k a (Bool-cases (names x k hs)))))
    where
      each :
          (k : Text)
          → AllPending x t (map (λ (op : StoredOp). op.hash) ops)
          → (names x k (map (λ (op : StoredOp). op.hash) ops) ≡ true)
            ⊎ (names x k (map (λ (op : StoredOp). op.hash) ops) ≡ false)
          → Lives x t k (
              if names x k (map (λ (op : StoredOp). op.hash) ops)
              then map_option (with_status now bundling) (row_at k t)
              else row_at k t)
      each k a (inl in_it) =
          let (r, found, waits) = named_pending (map (λ (op : StoredOp). op.hash) ops) k a in_it in
          rw (in_it, found)
            (Lives-moved x t v k r (some (with_status now bundling r)) found (rw waits claims))
      each k a (inr out) = rw out (Lives-same x t v k (row_at k t) refl)

  expires-Lives :
      (k : Text) (now : ℕ) (cutoff : ℤ) (o : Option Row)
      → row_at k t ≡ o
      → Lives x t k (map_option (λ r. if is_stale cutoff r then expire now r else r) o)
  expires-Lives k now cutoff none e = Lives-same x t v k none (sym e)
  expires-Lives k now cutoff (some r) e = elim (Bool-cases (is_stale cutoff r)) [
    | inl old ↦
        rw old (Lives-moved x t v k r (some (expire now r)) e (waits r.status (ground arith)))
    | inr young ↦ rw young (Lives-same x t v k (some r) (sym e))
  ]
    where
      waits : (s : Status) → s ≡ pending → Moves (some s) (some failed)
      waits s e = rw e drops

  prunes-Lives :
      (k : Text) (cutoff : ℤ) (o : Option Row)
      → row_at k t ≡ o
      → Lives x t k (elim o as (λ _. Option Row) [
        | none ↦ none
        | some r ↦ if is_old_history cutoff r then none else some r
      ])
  prunes-Lives k cutoff none e = Lives-same x t v k none (sym e)
  prunes-Lives k cutoff (some r) e = elim (Bool-cases (is_old_history cutoff r)) [
    | inl old ↦ rw old (Lives-moved x t v k r none e (forgets {s = r.status} (ground arith)))
    | inr young ↦ rw young (Lives-same x t v k (some r) (sym e))
  ]

  pub expires-Evolves : (now : ℕ) (cutoff : ℤ) → Evolves x t (mark_ttl_expired now cutoff t).1
  expires-Evolves now cutoff =
      let (u, done, i, rows) = mark_ttl_expired_lem now cutoff t v.indexes in
      rw done
        (Lives-Evolves x t v u i (λ k. rw (rows k) (expires-Lives k now cutoff (row_at k t) refl)))

  pub prunes-Evolves : (cutoff : ℤ) → Evolves x t (prune_history cutoff t).1
  prunes-Evolves cutoff =
      let (u, done, i, rows) = prune_history_lem cutoff t v.indexes in
      rw done (Lives-Evolves x t v u i (λ k. rw (rows k) (prunes-Lives k cutoff (row_at k t) refl)))

  outcome : {s : Status} → IsOutcome s → Moves (some submitted) (some s)
  outcome Settlement.landed = confirms
  outcome Settlement.reverted = reverts
  outcome Settlement.again = retries

  pub poll-Evolves :
      (o : RowOrder) (env : WatchEnv)
      → RowOrderLaws o
      → WatchLaws env
      → Evolves x t (poll x o env t).1
  poll-Evolves o env order laws =
      let p = poll-IsPolled x env t o order laws v in
      Lives-Evolves x t v (poll x o env t).1 p.indexes
        (λ k. each k (row_at k (poll x o env t).1) (p.rows k))
    where
      each : (k : Text) (q : Option Row) → Polled t k q → Lives x t k q
      each k q (Settlement.same e) = Lives-same x t v k q e
      each k q (Settlement.moved {r = r} {r' = r'} f s e z) =
          Lives-moved x t v k r q f (rw (e, s) (outcome z))

  -- The reset of the claims, then a poll.
  reset_at : ℕ → Option Row → Option Row
  reset_at now = map_option (λ r. if has_status bundling r then with_status now pending r else r)

  reconciled :
      (k : Text) (now : ℕ) (u : Table) (o q : Option Row)
      → row_at k t ≡ o
      → row_at k u ≡ reset_at now o
      → Polled u k q
      → Lives x t k q
  unfolding reset_at
  reconciled k now u none q e f (Settlement.same g) = Lives-same x t v k q (g ∙ f ∙ sym e)
  reconciled k now u none q e f (Settlement.moved g s h z) = cc
  reconciled k now u (some r) q e f p = elim (Bool-cases (has_status bundling r)) [
    | inl held ↦ free (ground arith) (f ∙ rw held) p
    | inr other ↦ rest (f ∙ rw other) p
  ]
    where
      free :
          r.status ≡ bundling
          → row_at k u ≡ some (with_status now pending r)
          → Polled u k q
          → Lives x t k q
      free b g (Settlement.same h) = Lives-moved x t v k r q e (rw (b, h, g) releases)
      free b g (Settlement.moved {r = s} f' w h z) = absurd (ground arith)

      rest : row_at k u ≡ some r → Polled u k q → Lives x t k q
      rest g (Settlement.same h) = Lives-same x t v k q (h ∙ g ∙ sym e)
      rest g (Settlement.moved {r = s} f' w h z) =
          let same_row : r ≡ s = ground arith in
          Lives-moved x t v k r q e (rw (same_row, w, h) (outcome z))

  pub starts-Evolves :
      (o : RowOrder) (env : WatchEnv)
      → RowOrderLaws o
      → WatchLaws env
      → Evolves x t (reconcile x o env t).1
  unfolding reconcile reset_at
  starts-Evolves o env order laws =
      let (u, done, i, rows) = reset_bundling env.now t v.indexes in
      let went = ap (λ (p : Result ℕ × Table). p.0) done in
      let left = ap (λ (p : Result ℕ × Table). p.1) done in
      let t' = (reset_bundling_to_pending env.now t).1 in
      let p = poll-IsPolled x env t' o order laws (reset_bundling-IsValid x env.now t v) in
      rw (went, reconcile)
        (Lives-Evolves x t v (poll x o env t').1 p.indexes (λ k.
          reconciled k env.now t' (row_at k t) (row_at k (poll x o env t').1) refl
            (ap (row_at k) left ∙ rows k) (p.rows k)))
