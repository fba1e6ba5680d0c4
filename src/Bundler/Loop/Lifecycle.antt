-- ===== src/Bundler/Loop/Lifecycle.antt =====
-- One `Tick`, seen from the row of any hash.
use signet_min_bundler.Prelude.{
  ℕ, ◌+◌, ◌≡◌, refl, ◌∙◌, ◌⊎◌, inl, inr, true, Option, none, some, List, [], ◌∷◌, ◌++◌, arith, Text,
  codes, equal-eq, Bool-cases, Option-cases,
}
use signet_min_bundler.Go.{Result, ok, err, panic}
use signet_min_bundler.Go.Results.{Answer-cases}
use signet_min_bundler.External.{External}
use signet_min_bundler.Mempool.Table.{
  Status, pending, bundling, submitted, failed, Row, Table, satisfies_indexes,
}
use signet_min_bundler.Mempool.Table.Rows.{row_at}
use signet_min_bundler.Mempool.Hydrate.{StoredOp, StatusExtra}
use signet_min_bundler.Mempool.Repo.{RowOrder, no_extra, set_columns, with_status, get_pending}
use signet_min_bundler.Mempool.Repo.Claim.{AllPending}
use signet_min_bundler.Mempool.Repo.Pending.{RowOrderLaws, IsValid, get_pending-AllPending}
use signet_min_bundler.Bundler.Loop.{
  TickEnv, submitted_extra, claim_and_submit, bundle_pending, tick, with_buffer,
  is_entry_point_revert,
}
use signet_min_bundler.Bundler.Loop.Settle.{place, op_named}
use signet_min_bundler.Bundler.Loop.Outcome.{
  hashes_of, after, revert_reason_of, Settles, bundle_data, end_status, end_extra,
  claim_and_submit_submitted, claim_and_submit_refused, claim_and_submit_estimate_failed,
}

-- How a pending row may leave a tick.
pub data Settled (r : Row) : Row → Type 0 where
  again : {r' : Row} → r'.status ≡ pending → r'.hash ≡ r.hash → Settled r r'
  sent : {r' : Row} → r'.status ≡ submitted → r'.hash ≡ r.hash → Settled r r'
  dropped : {r' : Row} → r'.status ≡ failed → r'.hash ≡ r.hash → Settled r r'

-- A row of the table before, or a pending one that was settled.
pub data Follows (t : Table) (k : Text) (o : Option Row) : Type 0 where
  same : o ≡ row_at k t → Follows t k o
  moved :
      {r r' : Row}
      → row_at k t ≡ some r
      → r.status ≡ pending
      → o ≡ some r'
      → Settled r r'
      → Follows t k o

module _ (x : External) (now : ℕ) where
  placed_pending :
      (k : Text) (i j : ℕ) (ops : List StoredOp) (t : Table)
      → AllPending x t (hashes_of ops)
      → place x k i ops ≡ some j
      → (r : Row) × (row_at k t ≡ some r) × (r.status ≡ pending)
  unfolding place
  placed_pending k i j [] t a e = cc
  placed_pending k i j (op ∷ ops) t a e = elim (Bool-cases (op_named x k op)) [
    | inl here ↦ (a.0.0, rw (equal-eq (x.hash_hex op.hash) k here) at (a.0.1.found), a.0.1.status)
    | inr there ↦ placed_pending k (i + 1) j ops t a.2 (ground arith)
  ]

  -- A branch of the tick settles rows of a bundle or leaves them.
  follows :
      (env : TickEnv) (ops : List StoredOp) (t : Table) (result : Result (Unit {0}))
      (s : ℕ → Status) (extra : ℕ → StatusExtra)
      → AllPending x t (hashes_of ops)
      → ((i : ℕ) (r : Row)
          → Settled r (set_columns x now (s i) (extra i) (with_status now bundling r)))
      → Settles x now env ops t result s extra
      → (satisfies_indexes (claim_and_submit x env now ops t).1 ≡ true)
        × ((k : Text) → Follows t k (row_at k (claim_and_submit x env now ops t).1))
  follows env ops t result s extra a ends settles =
      let (t', done, v', rows) = settles in
      (rw done v', λ k. rw done (follow k t' (rows k) (Option-cases (place x k 0 ops))))
    where
      follow :
          (k : Text) (t' : Table)
          → row_at k t' ≡ after x now s extra (place x k 0 ops) (row_at k t)
          → (place x k 0 ops ≡ none) ⊎ ((i : ℕ) × (place x k 0 ops ≡ some i))
          → Follows t k (row_at k t')
      follow k t' e (inl absent) = same (e ∙ rw absent)
      follow k t' e (inr (i, at)) =
          let (r, found, waits) = placed_pending k 0 i ops t a at in
          moved {r = r} found waits (e ∙ rw (at, found)) (ends i r)

  claim_and_submit-Follows :
      (env : TickEnv) (ops : List StoredOp) (t : Table)
      → satisfies_indexes t ≡ true
      → AllPending x t (hashes_of ops)
      → (satisfies_indexes (claim_and_submit x env now ops t).1 ≡ true)
        × ((k : Text) → Follows t k (row_at k (claim_and_submit x env now ops t).1))
  claim_and_submit-Follows env ops t v a =
      elim (Answer-cases (env.estimate_gas (bundle_data x now env ops t))) [
        | inl (gas, e) ↦
            elim (Answer-cases
              (env.sign_and_submit (bundle_data x now env ops t) (with_buffer gas))) [
                | inl (tx, s) ↦
                    follows env ops t (ok tt) (λ _. submitted) (λ i. submitted_extra tx i now) a
                      (λ i r. unfold set_columns in sent refl refl)
                      (claim_and_submit_submitted x now env ops t {gas = gas} {tx = tx} v a e s)
                | inr (reason, s) ↦
                    follows env ops t (err (codes "submit bundle: " ++ reason)) (λ _. pending)
                      (λ _. no_extra) a (λ i r. unfold set_columns in again refl refl)
                      (claim_and_submit_refused x now env ops t {gas = gas} {reason = reason} v a e
                        s)
              ]
        | inr (e, f) ↦
            follows env ops t (err (codes "estimate gas: " ++ e))
              (λ _. end_status x now env ops t e) (λ _. end_extra x now env ops t e) a
              (λ i r. ends e r) (claim_and_submit_estimate_failed x now env ops t {e = e} v a f)
      ]
    where
      ends :
          (e : Text) (r : Row)
          → Settled r (
              set_columns x now
                (end_status x now env ops t e)
                (end_extra x now env ops t e)
                (with_status now bundling r))
      ends e r = elim (Bool-cases (is_entry_point_revert e (revert_reason_of x now env ops t))) [
        | inl permanent ↦ unfold set_columns in rw permanent (dropped refl refl)
        | inr transient ↦ unfold set_columns in rw transient (again refl refl)
      ]

  bundle_pending-Follows :
      (env : TickEnv) (ops : Result (List StoredOp)) (t : Table)
      → satisfies_indexes t ≡ true
      → ((l : List StoredOp) → ops ≡ ok l → AllPending x t (hashes_of l))
      → (satisfies_indexes (bundle_pending x env now ops t).1 ≡ true)
        × ((k : Text) → Follows t k (row_at k (bundle_pending x env now ops t).1))
  unfolding bundle_pending
  bundle_pending-Follows env (ok []) t v a = (v, λ k. same refl)
  bundle_pending-Follows env (ok (op ∷ ops)) t v a =
      claim_and_submit-Follows env (op ∷ ops) t v (a (op ∷ ops) refl)
  bundle_pending-Follows env (err e) t v a = (v, λ k. same refl)
  bundle_pending-Follows env panic t v a = (v, λ k. same refl)

  -- On a table that satisfies the unique indexes and whose hash columns are canonical, with an
  -- ORDER BY that sorts, and whatever the node and the signer answer, one Tick keeps the indexes,
  -- and the row of each hash is as it was, or was pending and is now pending, submitted or failed
  -- under the same hash.
  pub tick-Follows :
      (o : RowOrder) (env : TickEnv) (max_bundle : ℕ) (t : Table)
      → RowOrderLaws o
      → IsValid x t
      → (satisfies_indexes (tick x o env max_bundle now t).1 ≡ true)
        × ((k : Text) → Follows t k (row_at k (tick x o env max_bundle now t).1))
  unfolding tick
  tick-Follows o env max_bundle t laws v = elim (Answer-cases env.check_balance) [
    | inl (done, funded) ↦
        rw (funded, tick)
          (bundle_pending-Follows env (get_pending x o max_bundle t) t v.indexes
            (λ l e. get_pending-AllPending x t max_bundle o {ops = l} laws v e))
    | inr (e, broke) ↦ rw (broke, tick) (v.indexes, λ k. same refl)
  ]
