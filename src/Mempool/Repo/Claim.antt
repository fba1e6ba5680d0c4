-- ===== src/Mempool/Repo/Claim.antt =====
-- `ClaimForBundling`: all the operations or none.
use signet_min_bundler.Prelude.{
  ℕ, zero, suc, ◌≡◌, ◌≢◌, refl, ◌∙◌, ◌⊎◌, inl, inr, Bool, true, false, none, some, List, [], ◌∷◌,
  arith, if◌then◌else◌, Bytes, Text, equal, equal-eq, equal_self, equal_comm, All, any, Bool-cases,
  Option-cases, map_option,
}
use signet_min_bundler.Go.{ok, err}
use signet_min_bundler.External.{External}
use signet_min_bundler.Mempool.Table.{
  pending, bundling, Row, Table, satisfies_indexes, update_rows, update, count_rows, has_hash,
}
use signet_min_bundler.Mempool.Table.Rows.{
  row_at, row_at-hash, row_at_unique, row_at-update_rows, none_at, update_rows-none,
}
use signet_min_bundler.Mempool.Repo.{
  claimed, claim_failed, not_pending, is_claimable, claim_each, claim_for_bundling, with_status,
}
use signet_min_bundler.Mempool.Repo.UpdateStatus.{Becomes, update_one}

-- A pending operation.
pub record IsPendingAt (t : Table) (h : Text) (r : Row) : Type 0 where
  pub found : row_at h t ≡ some r
  pub status : r.status ≡ pending

module _ (x : External) where
  -- One of the hashes has this text.
  abbrev pub names : Text → List Bytes → Bool
  names k = any (λ h. equal (x.hash_hex h) k)

  -- The hashes are of different pending operations.
  abbrev pub AllPending : Table → List Bytes → Type 0
  AllPending t [] = Unit
  AllPending t (h ∷ hs) =
      ((r : Row) × IsPendingAt t (x.hash_hex h) r)
      × (names (x.hash_hex h) hs ≡ false)
      × AllPending t hs

  module _ (now : ℕ) where
    -- One round of the loop on a pending operation.
    claim_one :
        (h : Text) (t : Table) {r : Row}
        → satisfies_indexes t ≡ true
        → IsPendingAt t h r
        → (t' : Table) × (claimed (update (is_claimable h) (with_status now bundling) t) ≡ ok t')
          × Becomes t t' h (with_status now bundling r)
    claim_one h t {r} i p =
        let (n, t', done, becomes) =
          update_one h (is_claimable h) (with_status now bundling) t {r = r} i p.found
            (λ s q. ground arith) holds (λ s. refl)
            (record { hash = refl; sender = refl; nonce = refl; active = λ _. rw p.status }) in
        (t', rw done, becomes)
      where
        holds : is_claimable h r ≡ true
        holds = rw (p.status, row_at-hash h t {r = r} p.found, equal_self h)

    AllPending-Becomes :
        (h : Text) (r' : Row) (t t' : Table) (hs : List Bytes)
        → Becomes t t' h r'
        → names h hs ≡ false
        → AllPending t hs
        → AllPending t' hs
    AllPending-Becomes h r' t t' [] b f a = tt
    AllPending-Becomes h r' t t' (g ∷ gs) b f a = (
      (
        a.0.0,
        record {
          found = ground (arith, b.rows (x.hash_hex g), equal_comm h (x.hash_hex g), a.0.1.found);
          status = a.0.1.status;
        },
      ),
      a.1,
      AllPending-Becomes h r' t t' gs b (ground arith) a.2,
    )

    claim_each_pending :
        (hs : List Bytes) (t : Table)
        → satisfies_indexes t ≡ true
        → AllPending t hs
        → (t' : Table) × (claim_each x now hs t ≡ ok t')
          × (satisfies_indexes t' ≡ true)
          × ((k : Text)
              → row_at k t' ≡ (
                  if names k hs
                  then map_option (with_status now bundling) (row_at k t)
                  else row_at k t))
    unfolding claim_each
    claim_each_pending [] t i a = (t, refl, i, λ k. refl)
    claim_each_pending (h ∷ hs) t i a =
        let (t', first, b) = claim_one (x.hash_hex h) t {r = a.0.0} i a.0.1 in
        let (t'', rest, i'', rows) =
          claim_each_pending hs t' b.indexes (
            AllPending-Becomes (x.hash_hex h) (with_status now bundling a.0.0) t t' hs b a.1 a.2) in
        (
          t'',
          rw (first, claim_each) rest,
          i'',
          λ k. rows k ∙ both k t' b (Bool-cases (equal (x.hash_hex h) k)),
        )
      where
        both :
            (k : Text) (t' : Table)
            → Becomes t t' (x.hash_hex h) (with_status now bundling a.0.0)
            → (equal (x.hash_hex h) k ≡ true) ⊎ (equal (x.hash_hex h) k ≡ false)
            → (if names k hs
                then map_option (with_status now bundling) (row_at k t')
                else row_at k t')
              ≡ (if names k (h ∷ hs)
                  then map_option (with_status now bundling) (row_at k t)
                  else row_at k t)
        both k t' b (inl here) =
            let same = equal-eq (x.hash_hex h) k here in
            rw (here, ← same, a.1, b.rows (x.hash_hex h), equal_self (x.hash_hex h), a.0.1.found)
        both k t' b (inr there) = rw (there, b.rows k, there)

    -- In a table that satisfies the unique indexes, claiming different pending operations
    -- succeeds: exactly their rows are bundling, no other row has changed, and the indexes hold.
    pub claim_pending :
        (hs : List Bytes) (t : Table)
        → satisfies_indexes t ≡ true
        → AllPending t hs
        → (t' : Table) × (claim_for_bundling x now hs t ≡ (ok tt, t'))
          × (satisfies_indexes t' ≡ true)
          × ((k : Text)
              → row_at k t' ≡ (
                  if names k hs
                  then map_option (with_status now bundling) (row_at k t)
                  else row_at k t))
    unfolding claim_for_bundling
    claim_pending hs t i a =
        let (t', done, i', rows) = claim_each_pending hs t i a in
        (t', rw (done, claim_for_bundling), i', rows)

    -- What one round may do.
    claimed-cases :
        (h : Text) (t : Table)
        → ((e : Text) × (claimed (update (is_claimable h) (with_status now bundling) t) ≡ err e))
          ⊎ ((claimed (update (is_claimable h) (with_status now bundling) t)
                ≡ ok (update_rows (is_claimable h) (with_status now bundling) t))
              × (satisfies_indexes (update_rows (is_claimable h) (with_status now bundling) t)
                  ≡ true))
    unfolding update
    claimed-cases h t =
        elim (Bool-cases
          (satisfies_indexes (update_rows (is_claimable h) (with_status now bundling) t))) [
            | inl good ↦ rw good (some_rows (count_rows (is_claimable h) t))
            | inr bad ↦ inl (claim_failed, rw bad)
          ]
      where
        some_rows :
            (n : ℕ)
            → ((e : Text) × (claimed
                    (some (n, update_rows (is_claimable h) (with_status now bundling) t))
                  ≡ err e))
              ⊎ ((claimed (some (n, update_rows (is_claimable h) (with_status now bundling) t))
                    ≡ ok (update_rows (is_claimable h) (with_status now bundling) t))
                  × (◌≡◌ {A = Bool} true true))
        some_rows zero = inl (not_pending, refl)
        some_rows (suc n) = inr (refl, refl)

    -- The round of an operation that is not pending fails.
    claim_one_refused :
        (h : Text) (t : Table)
        → satisfies_indexes t ≡ true
        → ((r : Row) → row_at h t ≡ some r → r.status ≢ pending)
        → claimed (update (is_claimable h) (with_status now bundling) t) ≡ err not_pending
    unfolding update
    claim_one_refused h t i n =
        let (none_counted, same) =
          update_rows-none (is_claimable h) (with_status now bundling) t
            (refused (Option-cases (row_at h t))) in
        rw (none_counted, same, i)
      where
        no_hash :
            (u : Table) → All (λ s. has_hash h s ≡ false) u → All (λ s. is_claimable h s ≡ false) u
        no_hash [] a = tt
        no_hash (s ∷ u) a = (rw (a.0), no_hash u a.1)

        one_hash :
            (r : Row) (u : Table)
            → row_at h t ≡ some r
            → All (λ s. has_hash h s ≡ true → s ≡ r) u
            → All (λ s. is_claimable h s ≡ false) u
        one_hash r [] e a = tt
        one_hash r (s ∷ u) e a = (unclaimable, one_hash r u e a.1)
          where
            unclaimable : is_claimable h s ≡ false
            unclaimable = elim (Bool-cases (has_hash h s)) [
              | inl here ↦ rw (a.0 here) (ground (arith, n r e))
              | inr there ↦ rw there
            ]

        refused :
            (row_at h t ≡ none) ⊎ ((r : Row) × (row_at h t ≡ some r))
            → All (λ s. is_claimable h s ≡ false) t
        refused (inl gone) = no_hash t (none_at h t gone)
        refused (inr (r, e)) = one_hash r t e (row_at_unique h t {r = r} i e)

    still_refused :
        (g h : Text) (t : Table)
        → ((r : Row) → row_at h t ≡ some r → r.status ≢ pending)
        → (r : Row) → row_at h (update_rows (is_claimable g) (with_status now bundling) t) ≡ some r
        → r.status ≢ pending
    still_refused g h t n r e p =
        ground (
          arith,
          row_at-update_rows (is_claimable g) (with_status now bundling) t h (λ s. refl),
          n r,
        )

    claim_each_refused :
        (hs : List Bytes) (t : Table) (h : Bytes)
        → satisfies_indexes t ≡ true
        → any (λ g. equal g h) hs ≡ true
        → ((r : Row) → row_at (x.hash_hex h) t ≡ some r → r.status ≢ pending)
        → (e : Text) × (claim_each x now hs t ≡ err e)
    unfolding claim_each
    claim_each_refused [] t h i m n = absurd (ground arith)
    claim_each_refused (g ∷ gs) t h i m n = elim (Bool-cases (equal g h)) [
      | inl here ↦
          (not_pending, rw (equal-eq g h here, claim_one_refused (x.hash_hex h) t i n, claim_each))
      | inr there ↦ elim (claimed-cases (x.hash_hex g) t) [
        | inl (e, failed) ↦ (e, rw (failed, claim_each))
        | inr (went, i') ↦
            let (e, later) =
              claim_each_refused gs
                (update_rows (is_claimable (x.hash_hex g)) (with_status now bundling) t) h i'
                (ground arith) (still_refused (x.hash_hex g) (x.hash_hex h) t n) in
            (e, rw (went, claim_each) later)
      ]
    ]

    -- In a table that satisfies the unique indexes, a claim that names an operation which is not
    -- pending (not in the table, or in another status) returns an error and leaves the table as
    -- it was, also the rows named before it.
    pub claim_not_pending :
        (hs : List Bytes) (t : Table) (h : Bytes)
        → satisfies_indexes t ≡ true
        → any (λ g. equal g h) hs ≡ true
        → ((r : Row) → row_at (x.hash_hex h) t ≡ some r → r.status ≢ pending)
        → (e : Text) × (claim_for_bundling x now hs t ≡ (err e, t))
    unfolding claim_for_bundling
    claim_not_pending hs t h i m n =
        let (e, refused) = claim_each_refused hs t h i m n in (e, rw (refused, claim_for_bundling))
