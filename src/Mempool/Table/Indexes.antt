-- ===== src/Mempool/Table/Indexes.antt =====
-- When the statements on the table keep its two unique indexes, and what they do to one row.
use signet_min_bundler.Prelude.{
  ℕ, ◌≡◌, refl, inl, inr, Bool, true, false, ◌&&◌, ◌||◌, some, [], ◌∷◌, ◌++◌, arith, if◌then◌else◌,
  equal, equal_comm, any, All, Bool-cases,
}
use signet_min_bundler.Mempool.Table.{
  Row, Table, is_active, clash, satisfies_indexes, update_rows, count_rows, update,
}

clash_comm : (r s : Row) → clash r s ≡ clash s r
unfolding clash
clash_comm r s =
    ground
      (arith, equal_comm r.hash s.hash, equal_comm r.sender s.sender, equal_comm r.nonce s.nonce)

-- The change of a row by a statement that keeps its keys and does not make it active.
pub record Quiet (r r' : Row) : Type 0 where
  pub hash : r'.hash ≡ r.hash
  pub sender : r'.sender ≡ r.sender
  pub nonce : r'.nonce ≡ r.nonce
  pub active : is_active r' ≡ true → is_active r ≡ true

abbrev pub IsQuiet : (Row → Bool) → (Row → Row) → Row → Type 0
IsQuiet test change r = test r ≡ true → Quiet r (change r)

fewer_active :
    (h a b a' b' c d : Bool)
    → (a' ≡ true → a ≡ true)
    → (b' ≡ true → b ≡ true)
    → (h || a && b && c && d) ≡ false
    → (h || a' && b' && c && d) ≡ false
fewer_active h a b a' b' c d p q e = ground arith

clash-Quiet : {r r' s s' : Row} → Quiet r r' → Quiet s s' → clash r s ≡ false → clash r' s' ≡ false
unfolding clash
clash-Quiet {r} {r'} {s} {s'} qr qs h =
    rw (qr.hash, qr.sender, qr.nonce, qs.hash, qs.sender, qs.nonce)
      (fewer_active (equal r.hash s.hash) (is_active r) (is_active s) (is_active r') (is_active s')
        (equal r.sender s.sender) (equal r.nonce s.nonce) qr.active qs.active h)

Quiet-refl : (r : Row) → Quiet r r
Quiet-refl r = record { hash = refl; sender = refl; nonce = refl; active = λ h. h }

changed-Quiet :
    (test : Row → Bool) (change : Row → Row) (r : Row)
    → IsQuiet test change r
    → Quiet r (if test r then change r else r)
changed-Quiet test change r q = elim (Bool-cases (test r)) [
  | inl e ↦ rw e (q e)
  | inr e ↦ rw e (Quiet-refl r)
]

any-clash-Quiet :
    (test : Row → Bool) (change : Row → Row) {r r' : Row} (t : Table)
    → Quiet r r'
    → All (IsQuiet test change) t
    → any (clash r) t ≡ false
    → any (clash r') (update_rows test change t) ≡ false
unfolding update_rows
any-clash-Quiet test change [] q qs h = refl
any-clash-Quiet test change {r} {r'} (s ∷ t) q qs h = ground (
  arith,
  clash-Quiet {r = r} {r' = r'} q (changed-Quiet test change s qs.0),
  any-clash-Quiet test change t q qs.1,
)

-- A quiet `UPDATE` keeps the indexes.
pub update_rows-satisfies_indexes :
    (test : Row → Bool) (change : Row → Row) (t : Table)
    → All (IsQuiet test change) t
    → satisfies_indexes t ≡ true
    → satisfies_indexes (update_rows test change t) ≡ true
unfolding satisfies_indexes update_rows
update_rows-satisfies_indexes test change [] q h = refl
update_rows-satisfies_indexes test change (r ∷ t) q h = ground (
  arith,
  any-clash-Quiet test change t (changed-Quiet test change r q.0) q.1,
  update_rows-satisfies_indexes test change t q.1,
)

-- So it goes through.
pub update-Quiet :
    (test : Row → Bool) (change : Row → Row) (t : Table)
    → All (IsQuiet test change) t
    → satisfies_indexes t ≡ true
    → update test change t ≡ some (count_rows test t, update_rows test change t)
unfolding update
update-Quiet test change t q h = rw (update_rows-satisfies_indexes test change t q h)

-- An `UPDATE` that goes through leaves a table that satisfies the indexes.
pub update-satisfies_indexes :
    (test : Row → Bool) (change : Row → Row) (t : Table) {n : ℕ} {t' : Table}
    → update test change t ≡ some (n, t')
    → satisfies_indexes t' ≡ true
unfolding update
update-satisfies_indexes test change t h = ground arith

any-append : (p : Row → Bool) (t : Table) (r : Row) → any p (t ++ r ∷ []) ≡ (any p t || p r)
any-append p [] r = ground arith
any-append p (s ∷ t) r = ground (arith, any-append p t r)

-- An `INSERT` keeps the indexes, and fails exactly on a clash.
pub insert_row-satisfies_indexes :
    (r : Row) (t : Table)
    → any (clash r) t ≡ false
    → satisfies_indexes t ≡ true
    → satisfies_indexes (t ++ r ∷ []) ≡ true
unfolding satisfies_indexes
insert_row-satisfies_indexes r [] c h = refl
insert_row-satisfies_indexes r (s ∷ t) c h =
    ground (arith, any-append (clash s) t r, clash_comm r s, insert_row-satisfies_indexes r t)
