-- ===== src/Mempool/Repo/Sweep.antt =====
-- The statements over many rows: `ResetBundlingToPending`, `MarkTtlExpired`, `PruneHistory`.
use signet_min_bundler.Prelude.{
  ℕ, ◌≡◌, refl, ap, ◌∙◌, Bool, true, false, not, none, some, [], ◌∷◌, arith, if◌then◌else◌, Text,
  equal, equal-eq, equal_comm, All, any, select, map_option,
}
use signet_min_bundler.Go.{ok, ℤ}
use signet_min_bundler.Mempool.Table.{
  pending, bundling, Row, Table, clash, satisfies_indexes, update_rows, count_rows, update,
  has_hash, has_status, find_row,
}
use signet_min_bundler.Mempool.Table.Indexes.{
  Quiet, IsQuiet, update-Quiet, update_rows-satisfies_indexes,
}
use signet_min_bundler.Mempool.Table.Rows.{row_at, KeepsHash, row_at-update_rows}
use signet_min_bundler.Mempool.Repo.{
  reset_bundling_to_pending, mark_ttl_expired, prune_history, with_status, expire, is_stale,
  is_old_history,
}

-- A change that the test makes quiet for every row.
sweep :
    (test : Row → Bool) (change : Row → Row) (t : Table)
    → ((r : Row) → test r ≡ true → Quiet r (change r))
    → KeepsHash change
    → satisfies_indexes t ≡ true
    → (t' : Table) × (update test change t ≡ some (count_rows test t, t'))
      × (satisfies_indexes t' ≡ true)
      × ((k : Text) → row_at k t' ≡ map_option (λ r. if test r then change r else r) (row_at k t))
sweep test change t quiet keeps i = (
  update_rows test change t,
  update-Quiet test change t (spread t) i,
  update_rows-satisfies_indexes test change t (spread t) i,
  λ k. row_at-update_rows test change t k keeps,
)
  where
    spread : (u : Table) → All (IsQuiet test change) u
    spread [] = tt
    spread (r ∷ u) = (quiet r, spread u)

-- In a table that satisfies the unique indexes, the startup reset returns every bundling row to
-- pending and changes no other row; it cannot fail on the unique indexes, and reports the number
-- of rows.
pub reset_bundling :
    (now : ℕ) (t : Table)
    → satisfies_indexes t ≡ true
    → (t' : Table) × (reset_bundling_to_pending now t
        ≡ (ok (count_rows (has_status bundling) t), t'))
      × (satisfies_indexes t' ≡ true)
      × ((k : Text)
          → row_at k t'
            ≡ map_option
                (λ r. if has_status bundling r then with_status now pending r else r)
                (row_at k t))
unfolding reset_bundling_to_pending
reset_bundling now t i =
    let (t', done, i', rows) =
      sweep (has_status bundling) (with_status now pending) t quiet (λ r. refl) i in
    (t', rw (done, reset_bundling_to_pending), i', rows)
  where
    quiet : (r : Row) → has_status bundling r ≡ true → Quiet r (with_status now pending r)
    quiet r h = record { hash = refl; sender = refl; nonce = refl; active = λ _. ground arith }

-- In a table that satisfies the unique indexes, TTL expiry fails exactly the pending rows
-- received before the cutoff, with the reason ttl_expired, and changes no other row; it cannot
-- fail on the unique indexes, and reports the number of rows.
pub mark_ttl_expired_lem :
    (now : ℕ) (cutoff : ℤ) (t : Table)
    → satisfies_indexes t ≡ true
    → (t' : Table) × (mark_ttl_expired now cutoff t ≡ (ok (count_rows (is_stale cutoff) t), t'))
      × (satisfies_indexes t' ≡ true)
      × ((k : Text)
          → row_at k t'
            ≡ map_option (λ r. if is_stale cutoff r then expire now r else r) (row_at k t))
unfolding mark_ttl_expired
mark_ttl_expired_lem now cutoff t i =
    let (t', done, i', rows) = sweep (is_stale cutoff) (expire now) t quiet (λ r. refl) i in
    (t', rw (done, mark_ttl_expired), i', rows)
  where
    quiet : (r : Row) → is_stale cutoff r ≡ true → Quiet r (expire now r)
    quiet r h = record { hash = refl; sender = refl; nonce = refl; active = λ p. cc }

any-select : (p keep : Row → Bool) (t : Table) → any p t ≡ false → any p (select keep t) ≡ false
any-select p keep [] h = refl
any-select p keep (r ∷ t) h = ground (arith, any-select p keep t)

select-satisfies_indexes :
    (keep : Row → Bool) (t : Table)
    → satisfies_indexes t ≡ true
    → satisfies_indexes (select keep t) ≡ true
unfolding satisfies_indexes
select-satisfies_indexes keep [] h = refl
select-satisfies_indexes keep (r ∷ t) h =
    ground (arith, any-select (clash r) keep t, select-satisfies_indexes keep t)

row_at-absent :
    (h : Text) (r : Row) (t : Table)
    → has_hash h r ≡ true
    → any (clash r) t ≡ false
    → row_at h t ≡ none
unfolding clash find_row
row_at-absent h r [] e c = refl
row_at-absent h r (s ∷ t) e c =
    let same = equal-eq r.hash h e in
    ground (arith, ap (equal s.hash) same, equal_comm r.hash s.hash, row_at-absent h r t e)

row_at-select :
    (keep : Row → Bool) (t : Table) (k : Text)
    → satisfies_indexes t ≡ true
    → row_at k (select keep t)
      ≡ elim (row_at k t) [ none ↦ none | some r ↦ if keep r then some r else none ]
unfolding satisfies_indexes find_row
row_at-select keep [] k i = refl
row_at-select keep (r ∷ t) k i = ground (arith, row_at-absent k r t, row_at-select keep t k)

-- In a table that satisfies the unique indexes, pruning deletes exactly the terminal rows last
-- updated before the cutoff, keeps the indexes, and reports the number of rows.
pub prune_history_lem :
    (cutoff : ℤ) (t : Table)
    → satisfies_indexes t ≡ true
    → (t' : Table) × (prune_history cutoff t ≡ (ok (count_rows (is_old_history cutoff) t), t'))
      × (satisfies_indexes t' ≡ true)
      × ((k : Text)
          → row_at k t' ≡ elim (row_at k t) [
            | none ↦ none
            | some r ↦ if is_old_history cutoff r then none else some r
          ])
unfolding prune_history
prune_history_lem cutoff t i = (
  select kept t,
  refl,
  select-satisfies_indexes kept t i,
  λ k. row_at-select kept t k i ∙ ground arith,
)
  where
    kept : Row → Bool
    kept r = not (is_old_history cutoff r)
