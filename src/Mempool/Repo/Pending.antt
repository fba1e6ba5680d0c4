-- ===== src/Mempool/Repo/Pending.antt =====
-- `GetPending`: which operations it returns, and in what order.
use mathlib.Core.List.{Permᴰ}
use mathlib.Core.Path.{subst}
use signet_min_bundler.Prelude.{
  ℕ, zero, suc, ◌≤◌, ◌≡◌, refl, ap, ◌∙◌, inl, inr, Bool, true, false, some, List, [], ◌∷◌, arith,
  equal, equal_self, equal_comm, All, any, select, take, Bool-cases, map,
}
use signet_min_bundler.Go.{ok, ◌>>=◌}
use signet_min_bundler.Go.Results.{>>=-eq-ok}
use signet_min_bundler.External.{External}
use signet_min_bundler.Mempool.Table.{
  pending, Row, Table, clash, satisfies_indexes, has_status, find_row,
}
use signet_min_bundler.Mempool.Table.Rows.{row_at}
use signet_min_bundler.Mempool.Hydrate.{StoredOp, hydrate_op, scan_ops}
use signet_min_bundler.Mempool.Repo.{RowOrder, get_pending}
use signet_min_bundler.Mempool.Repo.Claim.{AllPending, names}

abbrev pub IsSorted : (Row → ℕ) → List Row → Type 0
IsSorted key [] = Unit
IsSorted key (r ∷ rows) = All (λ s. key r ≤ key s) rows × IsSorted key rows

-- What `ORDER BY` documents: the same rows, by increasing key.
pub record RowOrderLaws (o : RowOrder) : Type 0 where
  pub order_by-perm : (key : Row → ℕ) (rows : List Row) → Permᴰ rows (o.order_by key rows)
  pub order_by-IsSorted : (key : Row → ℕ) (rows : List Row) → IsSorted key (o.order_by key rows)

-- The tables that the program makes: the indexes hold, and a hash column is the text of its hash.
pub record IsValid (x : External) (t : Table) : Type 0 where
  pub indexes : satisfies_indexes t ≡ true
  pub canonical : All (λ r. x.hash_hex (x.hex_to_hash r.hash) ≡ r.hash) t

abbrev pub Distinct : List Row → Type 0
Distinct [] = Unit
Distinct (r ∷ rows) = All (λ s. equal r.hash s.hash ≡ false) rows × Distinct rows

module _ (P : Row → Type 0) where
  pub All-perm : {xs ys : List Row} → Permᴰ xs ys → All P xs → All P ys
  All-perm Permᴰ.nil a = a
  All-perm (Permᴰ.cons e p) a = (rw e at (a.0), All-perm p a.1)
  All-perm (Permᴰ.swap e f) a = (rw f at (a.1.0), (rw e at (a.0), a.1.1))
  All-perm (Permᴰ.trans p q) a = All-perm q (All-perm p a)

  All-take : (n : ℕ) (xs : List Row) → All P xs → All P (take n xs)
  All-take zero xs a = tt
  All-take (suc n) [] a = tt
  All-take (suc n) (r ∷ xs) a = (a.0, All-take n xs a.1)

  All-select : (keep : Row → Bool) (xs : List Row) → All P xs → All P (select keep xs)
  All-select keep [] a = tt
  All-select keep (r ∷ xs) a = ground (arith, All-select keep xs)

Distinct-perm : {xs ys : List Row} → Permᴰ xs ys → Distinct xs → Distinct ys
Distinct-perm Permᴰ.nil d = d
Distinct-perm (Permᴰ.cons e p) d = (rw e at (All-perm _ p d.0), Distinct-perm p d.1)
Distinct-perm (Permᴰ.swap {a = a} {b = b} {l = l} e f) d = (
  (
    rw (← f, ← e) (equal_comm b.hash a.hash ∙ d.0.0),
    subst (λ r. All (λ s. equal r.hash s.hash ≡ false) l) f d.1.0,
  ),
  (subst (λ r. All (λ s. equal r.hash s.hash ≡ false) l) e d.0.1, d.1.1),
)
Distinct-perm (Permᴰ.trans p q) d = Distinct-perm q (Distinct-perm p d)

Distinct-take : (n : ℕ) (xs : List Row) → Distinct xs → Distinct (take n xs)
Distinct-take zero xs d = tt
Distinct-take (suc n) [] d = tt
Distinct-take (suc n) (r ∷ xs) d = (All-take _ n xs d.0, Distinct-take n xs d.1)

Distinct-select : (keep : Row → Bool) (xs : List Row) → Distinct xs → Distinct (select keep xs)
Distinct-select keep [] d = tt
Distinct-select keep (r ∷ xs) d = elim (Bool-cases (keep r)) [
  | inl in_it ↦ rw in_it (All-select _ keep xs d.0, Distinct-select keep xs d.1)
  | inr out ↦ rw out (Distinct-select keep xs d.1)
]

different :
    (r : Row) (t : Table) → any (clash r) t ≡ false → All (λ s. equal r.hash s.hash ≡ false) t
unfolding clash
different r [] c = tt
different r (s ∷ t) c = (ground arith, different r t (ground arith))

-- Under the primary key, hashes are distinct and every row is the row of its hash.
pub Distinct-indexes : (t : Table) → satisfies_indexes t ≡ true → Distinct t
unfolding satisfies_indexes
Distinct-indexes [] i = tt
Distinct-indexes (r ∷ t) i = (different r t (ground arith), Distinct-indexes t (ground arith))

found_later :
    (r : Row) (t : Table) (rows : List Row)
    → All (λ s. equal r.hash s.hash ≡ false) rows
    → All (λ s. row_at s.hash t ≡ some s) rows
    → All (λ s. row_at s.hash (r ∷ t) ≡ some s) rows
unfolding find_row
found_later r t [] d a = tt
found_later r t (s ∷ rows) d a = (rw (d.0) a.0, found_later r t rows d.1 a.1)

pub row_at_self : (t : Table) → Distinct t → All (λ s. row_at s.hash t ≡ some s) t
unfolding find_row
row_at_self [] d = tt
row_at_self (r ∷ t) d = (rw (equal_self r.hash), found_later r t t d.0 (row_at_self t d.1))

selected : (keep : Row → Bool) (xs : List Row) → All (λ r. keep r ≡ true) (select keep xs)
selected keep [] = tt
selected keep (r ∷ xs) = ground (arith, selected keep xs)

pub hydrate_op-hash :
    (x : External) (r : Row) {op : StoredOp}
    → hydrate_op x r ≡ ok op
    → (op.hash ≡ x.hex_to_hash r.hash) × (op.received_at ≡ r.received_at)
unfolding hydrate_op
hydrate_op-hash x r h = ground arith

pub scan_ops-cons :
    (x : External) (r : Row) (rows : List Row) {ops : List StoredOp}
    → scan_ops x (r ∷ rows) ≡ ok ops
    → (op : StoredOp) × (rest : List StoredOp) × (hydrate_op x r ≡ ok op)
      × (scan_ops x rows ≡ ok rest)
      × (ops ≡ op ∷ rest)
unfolding scan_ops
scan_ops-cons x r rows {ops} e =
    let (op, h, e') =
      >>=-eq-ok (hydrate_op x r) (λ op. scan_ops x rows >>= λ ops. ok (op ∷ ops)) e in
    let (rest, more, e'') = >>=-eq-ok (scan_ops x rows) (λ ops. ok (op ∷ ops)) e' in
    (op, rest, h, more, cc e'')

is_pending : (r : Row) → has_status pending r ≡ true → r.status ≡ pending
is_pending r h = ground arith

module _ (x : External) (t : Table) where
  -- A row that `GetPending` may return.
  record IsCandidate (r : Row) : Type 0 where
    found : row_at r.hash t ≡ some r
    canonical : x.hash_hex (x.hex_to_hash r.hash) ≡ r.hash
    waits : has_status pending r ≡ true

  names_other :
      (r : Row) (rows : List Row) (ops : List StoredOp)
      → All IsCandidate rows
      → All (λ s. equal r.hash s.hash ≡ false) rows
      → scan_ops x rows ≡ ok ops
      → names x r.hash (map (λ (op : StoredOp). op.hash) ops) ≡ false
  unfolding scan_ops
  names_other r [] [] c d e = refl
  names_other r [] (op ∷ ops) c d e = absurd (ground arith)
  names_other r (s ∷ rows) ops c d e =
      let (op, rest, h, more, same) = scan_ops-cons x s rows e in
      rw (same, (hydrate_op-hash x s {op = op} h).0, c.0.canonical, equal_comm, d.0)
        (names_other r rows rest c.1 d.1 more)

  scan_pending :
      (rows : List Row) (ops : List StoredOp)
      → All IsCandidate rows
      → Distinct rows
      → scan_ops x rows ≡ ok ops
      → AllPending x t (map (λ (op : StoredOp). op.hash) ops)
  unfolding scan_ops
  scan_pending [] [] c d e = tt
  scan_pending [] (op ∷ ops) c d e = absurd (ground arith)
  scan_pending (r ∷ rows) ops c d e =
      let (op, rest, h, more, same) = scan_ops-cons x r rows e in
      let text : x.hash_hex op.hash ≡ r.hash =
        ap x.hash_hex (hydrate_op-hash x r {op = op} h).0 ∙ c.0.canonical in
      rw same (
        (r, rw text (record { found = c.0.found; status = is_pending r c.0.waits })),
        rw text (names_other r rows rest c.1 d.0 more),
        scan_pending rows rest c.1 d.1 more,
      )

  candidates :
      (limit : ℕ) (o : RowOrder)
      → RowOrderLaws o
      → IsValid x t
      → All IsCandidate
          (take limit (o.order_by (λ r. r.received_at) (select (has_status pending) t)))
        × Distinct (take limit (o.order_by (λ r. r.received_at) (select (has_status pending) t)))
  candidates limit o laws v =
      let d = Distinct-indexes t v.indexes in
      let p = laws.order_by-perm (λ r. r.received_at) (select (has_status pending) t) in
      (
        All-take IsCandidate limit (o.order_by (λ r. r.received_at) (select (has_status pending) t))
            (All-perm IsCandidate p (gather t (row_at_self t d) v.canonical)),
        Distinct-take limit (o.order_by (λ r. r.received_at) (select (has_status pending) t))
            (Distinct-perm p (Distinct-select (has_status pending) t d)),
      )
    where
      gather :
          (u : Table)
          → All (λ s. row_at s.hash t ≡ some s) u
          → All (λ r. x.hash_hex (x.hex_to_hash r.hash) ≡ r.hash) u
          → All IsCandidate (select (has_status pending) u)
      gather [] f c = tt
      gather (r ∷ u) f c = elim (Bool-cases (has_status pending r)) [
        | inl waits ↦
            rw waits (record { found = f.0; canonical = c.0; waits = waits }, gather u f.1 c.1)
        | inr busy ↦ rw busy (gather u f.1 c.1)
      ]

  -- On a table that satisfies the unique indexes and whose hash columns are canonical, with an
  -- ORDER BY that sorts, the operations that GetPending returns are different operations, each
  -- with a pending row in the table.
  pub get_pending-AllPending :
      (limit : ℕ) (o : RowOrder) {ops : List StoredOp}
      → RowOrderLaws o
      → IsValid x t
      → get_pending x o limit t ≡ ok ops
      → AllPending x t (map (λ (op : StoredOp). op.hash) ops)
  unfolding get_pending
  get_pending-AllPending limit o {ops} laws v e =
      let (c, d) = candidates limit o laws v in
      scan_pending (take limit (o.order_by (λ r. r.received_at) (select (has_status pending) t)))
        ops c d e
