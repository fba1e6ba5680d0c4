-- ===== src/Mempool/Table/Rows.antt =====
-- The row of one hash: what the statements do to it, in a table that satisfies the indexes.
use signet_min_bundler.Prelude.{
  ℕ, suc, ◌≡◌, refl, inl, inr, Bool, true, false, Option, none, some, [], ◌∷◌, arith, if◌then◌else◌,
  Text, equal-eq, equal_comm, any, All, length, select, Bool-cases, map_option,
}
use signet_min_bundler.Mempool.Table.{
  Row, Table, clash, satisfies_indexes, update_rows, count_rows, has_hash, find_row,
}

-- The row of a hash; with the primary key there is at most one.
abbrev pub row_at : Text → Table → Option Row
row_at h = find_row (has_hash h)

abbrev pub KeepsHash : (Row → Row) → Type 0
KeepsHash change = (r : Row) → (change r).hash ≡ r.hash

-- An `UPDATE` changes the row of a hash if its test holds of that row.
pub row_at-update_rows :
    (test : Row → Bool) (change : Row → Row) (t : Table) (h : Text)
    → KeepsHash change
    → row_at h (update_rows test change t)
      ≡ map_option (λ r. if test r then change r else r) (row_at h t)
unfolding find_row update_rows
row_at-update_rows test change [] h k = refl
row_at-update_rows test change (r ∷ t) h k =
    ground (arith, k r, row_at-update_rows test change t h k)

pub row_at-hash : (h : Text) (t : Table) {r : Row} → row_at h t ≡ some r → r.hash ≡ h
unfolding find_row
row_at-hash h [] e = cc
row_at-hash h (s ∷ t) {r} e = ground (arith, row_at-hash h t {r = r}, equal-eq s.hash h)

no_clash :
    (r : Row) (h : Text) (t : Table)
    → any (clash r) t ≡ false
    → r.hash ≡ h
    → All (λ s. has_hash h s ≡ false) t
unfolding clash
no_clash r h [] c e = tt
no_clash r h (s ∷ t) c e =
    (rw (← e) (ground (arith, equal_comm s.hash r.hash)), no_clash r h t (ground arith) e)

none_left :
    (h : Text) (r : Row) (t : Table)
    → All (λ s. has_hash h s ≡ false) t
    → All (λ s. has_hash h s ≡ true → s ≡ r) t
none_left h r [] a = tt
none_left h r (s ∷ t) a = (λ p. cc (a.0), none_left h r t a.1)

-- The row of a hash is the only one.
pub row_at_unique :
    (h : Text) (t : Table) {r : Row}
    → satisfies_indexes t ≡ true
    → row_at h t ≡ some r
    → All (λ s. has_hash h s ≡ true → s ≡ r) t
unfolding satisfies_indexes find_row
row_at_unique h [] i e = tt
row_at_unique h (s ∷ t) {r} i e = elim (Bool-cases (has_hash h s)) [
  | inl here ↦
      (λ _. ground arith, none_left h r t (no_clash s h t (ground arith) (equal-eq s.hash h here)))
  | inr there ↦ (λ p. cc, row_at_unique h t {r = r} (ground arith) (ground arith))
]

pub none_at : (h : Text) (t : Table) → row_at h t ≡ none → All (λ s. has_hash h s ≡ false) t
unfolding find_row
none_at h [] e = tt
none_at h (s ∷ t) e = (ground arith, none_at h t (ground arith))

-- Where the test of an `UPDATE` holds of no row, nothing is affected.
pub update_rows-none :
    (test : Row → Bool) (change : Row → Row) (t : Table)
    → All (λ s. test s ≡ false) t
    → (count_rows test t ≡ 0) × (update_rows test change t ≡ t)
unfolding count_rows update_rows
update_rows-none test change [] a = (refl, refl)
update_rows-none test change (s ∷ t) a = ground (arith, update_rows-none test change t)

-- Where it holds of the row of some hash, something is.
pub count_rows-pos :
    (test : Row → Bool) (h : Text) (t : Table) {r : Row}
    → row_at h t ≡ some r
    → test r ≡ true
    → (n : ℕ) × (count_rows test t ≡ suc n)
unfolding count_rows find_row
count_rows-pos test h [] e p = cc
count_rows-pos test h (s ∷ t) {r} e p = elim (Bool-cases (test s)) [
  | inl here ↦ (length (select test t), rw here)
  | inr there ↦ rw there (count_rows-pos test h t {r = r} (ground arith) p)
]

pub update_rows_unaffected :
    (test : Row → Bool) (change : Row → Row) (t : Table)
    → count_rows test t ≡ 0
    → update_rows test change t ≡ t
unfolding count_rows update_rows
update_rows_unaffected test change [] e = refl
update_rows_unaffected test change (s ∷ t) e = ground (arith, update_rows_unaffected test change t)
