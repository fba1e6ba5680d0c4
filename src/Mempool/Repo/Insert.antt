-- ===== src/Mempool/Repo/Insert.antt =====
-- `Insert`, `Replace` and `GetByHash`.
use signet_min_bundler.Prelude.{
  ℕ, ◌≡◌, ◌≢◌, refl, ap, ◌∙◌, ◌⊎◌, inl, inr, true, false, Option, none, some, [], ◌∷◌, ◌++◌, arith,
  if◌then◌else◌, Bytes, Text, IsArray, equal, equal-eq, equal_self, equal_comm, All, any,
  Bool-cases, to_lower,
}
use signet_min_bundler.Go.{ok, err}
use signet_min_bundler.Hex.{big_to_hex}
use signet_min_bundler.External.{External, ExternalLaws}
use signet_min_bundler.Core.UserOp.{PackedUserOp}
use signet_min_bundler.Mempool.Table.{
  Row, Table, is_active, clash, satisfies_indexes, insert_row, has_hash, find_row,
}
use signet_min_bundler.Mempool.Table.Indexes.{insert_row-satisfies_indexes}
use signet_min_bundler.Mempool.Table.Rows.{row_at, none_at}
use signet_min_bundler.Mempool.Hydrate.{new_row}
use signet_min_bundler.Mempool.Hydrate.Roundtrip.{IsPacked, fresh, hydrate_op-new_row}
use signet_min_bundler.Mempool.Repo.{insert, get_by_hash, duplicate}
use signet_min_bundler.Mempool.Repo.UpdateStatus.{Becomes}

pub row_at-append :
    (k : Text) (t : Table) (r : Row)
    → row_at k (t ++ r ∷ [])
      ≡ elim (row_at k t) [ none ↦ if equal r.hash k then some r else none | some s ↦ some s ]
unfolding find_row
row_at-append k [] r = ground arith
row_at-append k (s ∷ t) r = ground (arith, row_at-append k t r)

-- No live operation of this sender and nonce.
abbrev pub NoLive : Text → Text → Table → Type 0
NoLive sender nonce = All (λ s. is_active s ≡ true → s.sender ≡ sender → s.nonce ≢ nonce)

no_clash-NoLive :
    (r : Row) (t : Table)
    → All (λ s. has_hash r.hash s ≡ false) t
    → NoLive r.sender r.nonce t
    → any (clash r) t ≡ false
unfolding clash
no_clash-NoLive r [] a n = refl
no_clash-NoLive r (s ∷ t) a n = ground (
  arith,
  equal_comm s.hash r.hash,
  n.0,
  equal-eq r.sender s.sender,
  equal-eq r.nonce s.nonce,
  no_clash-NoLive r t a.1 n.1,
)

module _ (x : External) (now : ℕ) (op : PackedUserOp) (hash : Bytes) where
  abbrev sender_column : Text
  sender_column = to_lower (x.address_hex op.sender)

  abbrev nonce_column : Text
  nonce_column = big_to_hex op.nonce

  insert_row_fresh :
      (t : Table)
      → satisfies_indexes t ≡ true
      → row_at (x.hash_hex hash) t ≡ none
      → NoLive sender_column nonce_column t
      → (insert_row (new_row x now op hash) t ≡ some (t ++ new_row x now op hash ∷ []))
        × Becomes t (t ++ new_row x now op hash ∷ []) (x.hash_hex hash) (new_row x now op hash)
  unfolding insert_row new_row
  insert_row_fresh t i gone live =
      let clear =
        no_clash-NoLive (new_row x now op hash) t (none_at (x.hash_hex hash) t gone) live in
      (
        rw clear,
        record {
          indexes = insert_row-satisfies_indexes (new_row x now op hash) t clear i;
          rows = λ k.
              row_at-append k t (new_row x now op hash)
              ∙ seen k (Bool-cases (equal (x.hash_hex hash) k));
        },
      )
    where
      seen :
          (k : Text)
          → (equal (x.hash_hex hash) k ≡ true) ⊎ (equal (x.hash_hex hash) k ≡ false)
          → Path
              (Option Row)
              (elim (row_at k t) [
                | none ↦ if equal (x.hash_hex hash) k then some (new_row x now op hash) else none
                | some s ↦ some s
              ])
              (if equal (x.hash_hex hash) k then some (new_row x now op hash) else row_at k t)
      seen k (inl here) = rw (here, ← equal-eq (x.hash_hex hash) k here, gone) (rw here)
      seen k (inr there) = ground arith

  -- In a table that satisfies the unique indexes, with the laws of the text forms of hashes and
  -- addresses, inserting an operation whose arrays have their lengths, with a new hash and no
  -- live operation of its sender and nonce succeeds: it is a row of its own, the other rows stay,
  -- the indexes hold, and GetByHash then returns every field of the operation as it was given,
  -- with the status pending.
  pub insert_new :
      (laws : ExternalLaws x) (t : Table)
      → IsPacked op
      → IsArray 32 hash
      → satisfies_indexes t ≡ true
      → row_at (x.hash_hex hash) t ≡ none
      → NoLive sender_column nonce_column t
      → (t' : Table) × (insert x now op hash t ≡ (ok tt, t'))
        × Becomes t t' (x.hash_hex hash) (new_row x now op hash)
        × (get_by_hash x hash t' ≡ ok (fresh now op hash))
  unfolding insert get_by_hash
  insert_new laws t p a i gone live =
      let (done, b) = insert_row_fresh t i gone live in
      (
        t ++ new_row x now op hash ∷ [],
        rw (done, insert),
        b,
        rw (b.rows (x.hash_hex hash), equal_self (x.hash_hex hash), get_by_hash)
            (hydrate_op-new_row x laws now op hash p a),
      )

  clash_found :
      (k : Text) (t : Table) {s : Row}
      → row_at k t ≡ some s
      → clash (new_row x now op hash) s ≡ true
      → any (clash (new_row x now op hash)) t ≡ true
  unfolding find_row
  clash_found k [] e c = cc
  clash_found k (r ∷ t) {s} e c = ground (arith, clash_found k t {s = s})

  -- If a live operation of the same sender and nonce is in the table, Insert returns the
  -- duplicate error and changes nothing, whatever the new hash.
  pub insert_live_nonce :
      (t : Table) (k : Text) {s : Row}
      → row_at k t ≡ some s
      → is_active s ≡ true
      → s.sender ≡ sender_column
      → s.nonce ≡ nonce_column
      → insert x now op hash t ≡ (err duplicate, t)
  unfolding insert insert_row
  insert_live_nonce t k {s} e live sender nonce = rw (clash_found k t {s = s} e same, insert)
    where
      same : clash (new_row x now op hash) s ≡ true
      same =
          unfold clash new_row in
          ground (
            arith,
            equal_self sender_column,
            equal_self nonce_column,
            ap (equal sender_column) sender,
            ap (equal nonce_column) nonce,
          )
