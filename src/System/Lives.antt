-- ===== src/System/Lives.antt =====
-- What a step of the process may do to one row, and to the table.
use signet_min_bundler.Prelude.{
  ◌≡◌, ◌∙◌, sym, inl, inr, true, Option, some, [], ◌∷◌, arith, Text, equal, All, Bool-cases,
}
use signet_min_bundler.External.{External}
use signet_min_bundler.Mempool.Table.{pending, Row, Table, satisfies_indexes, find_row}
use signet_min_bundler.Mempool.Table.Rows.{row_at, row_at-hash}
use signet_min_bundler.Mempool.Repo.Pending.{IsValid, Distinct-indexes, row_at_self}
use signet_min_bundler.Bundler.Loop.Lifecycle.{Settled, again, sent, dropped, Follows, same, moved}
use signet_min_bundler.System.Status.{status_of, status_at, Moves, stays, submits, drops}

module _ (x : External) where
  -- A hash whose text is the text of its bytes.
  abbrev pub IsText : Text → Type 0
  IsText k = x.hash_hex (x.hex_to_hash k) ≡ k

  -- What a step from `t` leaves.
  pub record Evolves (t u : Table) : Type 0 where
    pub valid : IsValid x u
    pub moves : (k : Text) → Moves (status_at k t) (status_at k u)

  -- The fate of one row.
  pub record Lives (t : Table) (k : Text) (o : Option Row) : Type 0 where
    pub move : Moves (status_at k t) (status_of o)
    pub named : (r : Row) → o ≡ some r → IsText k

  texts :
      (u rows : Table)
      → All (λ s. row_at s.hash u ≡ some s) rows
      → ((k : Text) (r : Row) → row_at k u ≡ some r → IsText k)
      → All (λ s. IsText s.hash) rows
  texts u [] a f = tt
  texts u (s ∷ rows) a f = (f s.hash s a.0, texts u rows a.1 f)

  found_text :
      (k : Text) (u : Table) {r : Row}
      → All (λ s. IsText s.hash) u
      → row_at k u ≡ some r
      → IsText r.hash
  unfolding find_row
  found_text k [] c e = cc
  found_text k (s ∷ u) {r} c e = elim (Bool-cases (equal s.hash k)) [
    | inl here ↦ let same : s ≡ r = ground arith in rw (← same) (c.0)
    | inr there ↦ found_text k u {r = r} c.1 (ground arith)
  ]

module _ (x : External) (t : Table) (v : IsValid x t) where
  pub Lives-Evolves :
      (u : Table)
      → satisfies_indexes u ≡ true
      → ((k : Text) → Lives x t k (row_at k u))
      → Evolves x t u
  Lives-Evolves u i f = record {
    valid = record {
      indexes = i;
      canonical = texts x u u (row_at_self u (Distinct-indexes u i)) (λ k. (f k).named);
    };
    moves = λ k. (f k).move;
  }

  pub was_there : (k : Text) (r : Row) → row_at k t ≡ some r → IsText x k
  was_there k r e = rw (row_at-hash k t {r = r} e) at (found_text x k t {r = r} v.canonical e)

  pub Lives-same : (k : Text) (o : Option Row) → o ≡ row_at k t → Lives x t k o
  Lives-same k o e = record { move = rw e stays; named = λ r f. was_there k r (sym e ∙ f) }

  pub Lives-moved :
      (k : Text) (r : Row) (o : Option Row)
      → row_at k t ≡ some r
      → Moves (some r.status) (status_of o)
      → Lives x t k o
  Lives-moved k r o e m = record { move = rw e m; named = λ _ _. was_there k r e }

  pub Follows-Lives : (k : Text) (o : Option Row) → Follows t k o → Lives x t k o
  Follows-Lives k o (same e) = Lives-same k o e
  Follows-Lives k o (moved {r = r} {r' = r'} f p e s) = Lives-moved k r o f (rw (e, p) (fate s))
    where
      fate : Settled r r' → Moves (some pending) (some r'.status)
      fate (again e h) = rw e stays
      fate (sent e h) = rw e submits
      fate (dropped e h) = rw e drops
