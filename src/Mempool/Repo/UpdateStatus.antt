-- ===== src/Mempool/Repo/UpdateStatus.antt =====
-- `UpdateStatus`: on every branch, the result and every row of the table after it.
use signet_min_bundler.Prelude.{
  ℕ, suc, ◌≡◌, refl, sym, ap, ◌∙◌, ◌⊎◌, inl, inr, Bool, true, false, Option, none, some, [], ◌∷◌,
  arith, if◌then◌else◌, Bytes, Text, equal, equal-eq, equal_self, All, Bool-cases, Option-cases,
  map_option,
}
use signet_min_bundler.Go.{ok, err}
use signet_min_bundler.Hex.{int_text}
use signet_min_bundler.External.{External}
use signet_min_bundler.Mempool.Table.{
  Status, is_terminal, Row, Table, is_active, satisfies_indexes, update_rows, update, has_hash,
}
use signet_min_bundler.Mempool.Table.Indexes.{
  Quiet, IsQuiet, update-Quiet, update_rows-satisfies_indexes,
}
use signet_min_bundler.Mempool.Table.Rows.{
  row_at, KeepsHash, row_at-update_rows, row_at_unique, row_at-hash, none_at, update_rows-none,
  update_rows_unaffected, count_rows-pos,
}
use signet_min_bundler.Mempool.Hydrate.{StatusExtra}
use signet_min_bundler.Mempool.Repo.{or_else, set_columns, update_status, not_found}

-- The table after a change of the row of hash `h` to `r'`, seen by hash.
pub record Becomes (t t' : Table) (h : Text) (r' : Row) : Type 0 where
  pub indexes : satisfies_indexes t' ≡ true
  pub rows : (k : Text) → row_at k t' ≡ (if equal h k then some r' else row_at k t)

-- A quiet statement on one row, of any test that implies the row's hash.
pub update_one :
    (h : Text) (test : Row → Bool) (change : Row → Row) (t : Table) {r : Row}
    → satisfies_indexes t ≡ true
    → row_at h t ≡ some r
    → ((s : Row) → test s ≡ true → has_hash h s ≡ true)
    → test r ≡ true
    → KeepsHash change
    → Quiet r (change r)
    → (n : ℕ) × (t' : Table) × (update test change t ≡ some (suc n, t')) × Becomes t t' h (change r)
update_one h test change t {r} i e only holds keeps quiet =
    let (n, count) = count_rows-pos test h t e holds in
    (
      n,
      update_rows test change t,
      update-Quiet test change t quiet_all i ∙ ap (λ k. some (k, update_rows test change t)) count,
      record {
        indexes = update_rows-satisfies_indexes test change t quiet_all i;
        rows = λ k. row_at-update_rows test change t k keeps ∙ seen k;
      },
    )
  where
    spread : (u : Table) → All (λ s. has_hash h s ≡ true → s ≡ r) u → All (IsQuiet test change) u
    spread [] a = tt
    spread (s ∷ u) a = (λ p. rw (a.0 (only s p)) quiet, spread u a.1)

    other : (k : Text) (s : Row) → equal h k ≡ false → s.hash ≡ k → test s ≡ true → ⊥
    other k s there at p =
        let same : s.hash ≡ h = equal-eq s.hash h (only s p) in
        let here : h ≡ k = sym same ∙ at in ground (arith, equal_self k, ap (λ z. equal z k) here)

    elsewhere :
        (k : Text)
        → equal h k ≡ false
        → (row_at k t ≡ none) ⊎ ((s : Row) × (row_at k t ≡ some s))
        → map_option (λ s. if test s then change s else s) (row_at k t) ≡ row_at k t
    elsewhere k there (inl gone) = rw gone
    elsewhere k there (inr (s, found)) =
        rw found (ground (arith, other k s there (row_at-hash k t {r = s} found)))

    quiet_all : All (IsQuiet test change) t
    quiet_all = spread t (row_at_unique h t i e)

    seen :
        (k : Text)
        → map_option (λ s. if test s then change s else s) (row_at k t)
          ≡ (if equal h k then some (change r) else row_at k t)
    seen k = elim (Bool-cases (equal h k)) [
      | inl here ↦ rw (here, ← equal-eq h k here, e, map_option, holds)
      | inr there ↦ rw there (elsewhere k there (Option-cases (row_at k t)))
    ]

-- A column that was given, was there before, and is there now: the given value, if there is one.
pub data Assigns {A : Type 0} : Option A → Option A → Option A → Type 0 where
  given : {a : A} {old : Option A} → Assigns (some a) old (some a)
  kept : {old : Option A} → Assigns none old old

or_else-Assigns : {A : Type 0} (g old : Option A) → Assigns g old (or_else g old)
or_else-Assigns (some a) old = given
or_else-Assigns none old = kept

-- The columns of a row after UpdateStatus: the hash of the transaction and the gas cost are texts,
-- and what the call cannot set is as it was.
pub record IsUpdated (x : External) (now : ℕ) (s : Status) (extra : StatusExtra) (old new : Row)
    : Type 0 where
  pub status : new.status ≡ s
  pub updated_at : new.updated_at ≡ now
  pub bundle_tx_hash :
      Assigns (map_option x.hash_hex extra.bundle_tx_hash) old.bundle_tx_hash new.bundle_tx_hash
  pub bundle_index : Assigns extra.bundle_index old.bundle_index new.bundle_index
  pub submitted_at : Assigns extra.submitted_at old.submitted_at new.submitted_at
  pub block_number : Assigns extra.block_number old.block_number new.block_number
  pub revert_reason : Assigns extra.revert_reason old.revert_reason new.revert_reason
  pub actual_gas_cost :
      Assigns
        (map_option (int_text 10) extra.actual_gas_cost)
        old.actual_gas_cost
        new.actual_gas_cost
  pub others :
      record new {
        status = old.status;
        updated_at = old.updated_at;
        bundle_tx_hash = old.bundle_tx_hash;
        bundle_index = old.bundle_index;
        submitted_at = old.submitted_at;
        block_number = old.block_number;
        revert_reason = old.revert_reason;
        actual_gas_cost = old.actual_gas_cost;
      }
      ≡ old

module _ (x : External) (now : ℕ) (hash : Bytes) (s : Status) (extra : StatusExtra) where
  abbrev changed : Row → Row
  changed = set_columns x now s extra

  set_columns-KeepsHash : KeepsHash changed
  unfolding set_columns
  set_columns-KeepsHash r = refl

  set_columns-Quiet : (r : Row) → (is_terminal s ≡ false → is_active r ≡ true) → Quiet r (changed r)
  unfolding set_columns
  set_columns-Quiet r h = record {
    hash = refl;
    sender = refl;
    nonce = refl;
    active = λ a. h (ground arith);
  }

  -- The row after a successful call.
  pub update_status_row :
      (t : Table) {r : Row}
      → satisfies_indexes t ≡ true
      → row_at (x.hash_hex hash) t ≡ some r
      → (is_terminal s ≡ false → is_active r ≡ true)
      → (t' : Table) × (update_status x now hash s extra t ≡ (ok tt, t'))
        × Becomes t t' (x.hash_hex hash) (changed r)
  unfolding update_status
  update_status_row t {r} i e h =
      let (n, t', done, becomes) =
        update_one (x.hash_hex hash) (has_hash (x.hash_hex hash)) changed t {r = r} i e (λ u p. p)
          (holds e) set_columns-KeepsHash (set_columns-Quiet r h) in
      (t', rw (done, update_status), becomes)
    where
      holds : row_at (x.hash_hex hash) t ≡ some r → has_hash (x.hash_hex hash) r ≡ true
      holds e = rw (row_at-hash (x.hash_hex hash) t {r = r} e) (equal_self (x.hash_hex hash))

  -- In a table that satisfies the unique indexes, for an operation in it, whose row is live if
  -- the new status is, UpdateStatus succeeds: the row has the new status and the time of the
  -- call, the hash of the transaction (as its text), the place in the bundle, the time of the
  -- submission, the block, the revert reason and the gas cost (as decimal text) are each the
  -- value given or, where none is given, as they were, its other columns and every other row are
  -- as they were, and the indexes hold.
  pub update_status_found :
      (t : Table) {r : Row}
      → satisfies_indexes t ≡ true
      → row_at (x.hash_hex hash) t ≡ some r
      → (is_terminal s ≡ false → is_active r ≡ true)
      → (t' : Table) × (r' : Row) × (update_status x now hash s extra t ≡ (ok tt, t'))
        × Becomes t t' (x.hash_hex hash) r'
        × IsUpdated x now s extra r r'
  unfolding set_columns
  update_status_found t {r} i e h =
      let (t', done, becomes) = update_status_row t {r = r} i e h in
      (
        t',
        set_columns x now s extra r,
        done,
        becomes,
        record {
          status = refl;
          updated_at = refl;
          bundle_tx_hash = or_else-Assigns (map_option x.hash_hex extra.bundle_tx_hash) _;
          bundle_index = or_else-Assigns extra.bundle_index _;
          submitted_at = or_else-Assigns extra.submitted_at _;
          block_number = or_else-Assigns extra.block_number _;
          revert_reason = or_else-Assigns extra.revert_reason _;
          actual_gas_cost = or_else-Assigns (map_option (int_text 10) extra.actual_gas_cost) _;
          others = refl;
        },
      )

  -- Whenever UpdateStatus returns an error, the table is as it was.
  pub update_status_error :
      (t : Table) {e : Text}
      → (update_status x now hash s extra t).0 ≡ err e
      → (update_status x now hash s extra t).1 ≡ t
  unfolding update_status update
  update_status_error t {e} h =
      ground (arith, update_rows_unaffected (has_hash (x.hash_hex hash)) changed t)

  -- In a table that satisfies the unique indexes, for an operation that is not in it,
  -- UpdateStatus returns the not-found error and changes nothing.
  pub update_status_missing :
      (t : Table)
      → satisfies_indexes t ≡ true
      → row_at (x.hash_hex hash) t ≡ none
      → update_status x now hash s extra t ≡ (err not_found, t)
  unfolding update_status update
  update_status_missing t i e =
      let (none_counted, same) =
        update_rows-none (has_hash (x.hash_hex hash)) changed t (none_at (x.hash_hex hash) t e) in
      ground (arith, ap satisfies_indexes same)
