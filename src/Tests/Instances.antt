-- ===== src/Tests/Instances.antt =====
-- Concrete functions for what the model takes from outside, with the laws that it asks of them.
use mathlib.Core.List.Permᴰ
use mathlib.Core.List.{Permᴰ}
use signet_min_bundler.Prelude.{
  ℕ, zero, suc, ◌≤◌, ◌≡◌, refl, ap, ◌∙◌, inl, inr, Bool, true, ◌&&◌, Option, List, [], ◌∷◌, arith,
  if◌then◌else◌, leb, ltb, ◌==◌, Bytes, Text, IsByte, IsArray, All, Bool-cases, length, and_true,
}
use signet_min_bundler.Go.{zeros}
use signet_min_bundler.Hex.{bytes_to_hex, decode_hex_parts}
use signet_min_bundler.Hex.Laws.{decode_hex_parts-bytes_to_hex, to_lower-bytes_to_hex}
use signet_min_bundler.External.{External, ExternalLaws}
use signet_min_bundler.Mempool.Table.{Row}
use signet_min_bundler.Mempool.Repo.{RowOrder}
use signet_min_bundler.Mempool.Repo.Pending.{RowOrderLaws, IsSorted, All-perm}

unfoldable pub all_bytes : Bytes → Bool
all_bytes [] = true
all_bytes (b ∷ bs) = ltb b 256 && all_bytes bs

pub all_bytes-All : (b : Bytes) → all_bytes b ≡ true → All IsByte b
unfolding all_bytes
all_bytes-All [] h = tt
all_bytes-All (b ∷ bs) h = ground (arith, all_bytes-All bs)

All-all_bytes : (b : Bytes) → All IsByte b → all_bytes b ≡ true
unfolding all_bytes
All-all_bytes [] h = refl
All-all_bytes (b ∷ bs) h = ground (arith, All-all_bytes bs)

-- The bytes if they are `n` bytes, else zeros.
unfoldable pub resize : ℕ → Bytes → Bytes
resize n b = if length b == n && all_bytes b then b else zeros n

pub zeros-IsArray : (n : ℕ) → IsArray n (zeros n)
zeros-IsArray zero = record { len = refl; bytes = tt }
zeros-IsArray (suc n) =
    let a = zeros-IsArray n in record { len = ap suc a.len; bytes = (omega arith, a.bytes) }

resize-IsArray : (n : ℕ) (b : Bytes) → IsArray n (resize n b)
unfolding resize
resize-IsArray n b = elim (Bool-cases (length b == n && all_bytes b)) [
  | inl fits ↦ rw fits (record {
    len = ground arith;
    bytes = all_bytes-All b (and_true (length b == n) (all_bytes b) fits).1;
  })
  | inr no_fit ↦ rw no_fit (zeros-IsArray n)
]

resize-array : (n : ℕ) (b : Bytes) → IsArray n b → resize n b ≡ b
unfolding resize
resize-array n b a = ground (arith, a.len, All-all_bytes b a.bytes)

unfoldable pub from_hex : ℕ → Text → Bytes
from_hex n s = resize n (decode_hex_parts s).0

abbrev pub sample : External
sample = record {
  hash_hex = bytes_to_hex;
  hex_to_hash = from_hex 32;
  address_hex = bytes_to_hex;
  hex_to_address = from_hex 20;
  keccak256 = resize 32;
}

pub from_hex-bytes_to_hex : (n : ℕ) (b : Bytes) → IsArray n b → from_hex n (bytes_to_hex b) ≡ b
unfolding from_hex
from_hex-bytes_to_hex n b a =
    ap (resize n) (ap (λ (p : Bytes × Option Text). p.0) (decode_hex_parts-bytes_to_hex b a.bytes))
    ∙ resize-array n b a

pub sample_laws : ExternalLaws sample
unfolding from_hex
sample_laws = record {
  hash_roundtrip = from_hex-bytes_to_hex 32;
  address_roundtrip =
      λ a k. ap (from_hex 20) (to_lower-bytes_to_hex a k.bytes) ∙ from_hex-bytes_to_hex 20 a k;
  hex_to_hash-IsArray = λ t. resize-IsArray 32 (decode_hex_parts t).0;
  hex_to_address-IsArray = λ t. resize-IsArray 20 (decode_hex_parts t).0;
  keccak256-IsArray = resize-IsArray 32;
}

-- Insertion sort.
unfoldable pub insert_by : (Row → ℕ) → Row → List Row → List Row
insert_by key r [] = r ∷ []
insert_by key r (s ∷ rows) =
    let rest = insert_by key r rows in if leb (key r) (key s) then r ∷ s ∷ rows else s ∷ rest

unfoldable pub sort_by : (Row → ℕ) → List Row → List Row
sort_by key [] = []
sort_by key (r ∷ rows) = insert_by key r (sort_by key rows)

insert_by-perm :
    (key : Row → ℕ) (r : Row) (rows : List Row) → Permᴰ (r ∷ rows) (insert_by key r rows)
unfolding insert_by
insert_by-perm key r [] = Permᴰ.refl (r ∷ [])
insert_by-perm key r (s ∷ rows) = elim (Bool-cases (leb (key r) (key s))) [
  | inl low ↦ rw low (Permᴰ.refl (r ∷ s ∷ rows))
  | inr high ↦
      rw high (Permᴰ.trans (Permᴰ.swap refl refl) (Permᴰ.cons refl (insert_by-perm key r rows)))
]

sort_by-perm : (key : Row → ℕ) (rows : List Row) → Permᴰ rows (sort_by key rows)
unfolding sort_by
sort_by-perm key [] = Permᴰ.nil
sort_by-perm key (r ∷ rows) =
    Permᴰ.trans (Permᴰ.cons refl (sort_by-perm key rows)) (insert_by-perm key r (sort_by key rows))

raise :
    (key : Row → ℕ) (r s : Row) (rows : List Row)
    → key r ≤ key s
    → All (λ u. key s ≤ key u) rows
    → All (λ u. key r ≤ key u) rows
raise key r s [] h a = tt
raise key r s (u ∷ rows) h a = (omega (arith, a.0), raise key r s rows h a.1)

insert_by-IsSorted :
    (key : Row → ℕ) (r : Row) (rows : List Row)
    → IsSorted key rows
    → IsSorted key (insert_by key r rows)
unfolding insert_by
insert_by-IsSorted key r [] h = (tt, tt)
insert_by-IsSorted key r (s ∷ rows) h = elim (Bool-cases (leb (key r) (key s))) [
  | inl low ↦ rw low ((ground arith, raise key r s rows (ground arith) h.0), h)
  | inr high ↦ rw high (
    All-perm (λ u. key s ≤ key u) (insert_by-perm key r rows) (ground arith, h.0),
    insert_by-IsSorted key r rows h.1,
  )
]

sort_by-IsSorted : (key : Row → ℕ) (rows : List Row) → IsSorted key (sort_by key rows)
unfolding sort_by
sort_by-IsSorted key [] = tt
sort_by-IsSorted key (r ∷ rows) =
    insert_by-IsSorted key r (sort_by key rows) (sort_by-IsSorted key rows)

abbrev pub stable : RowOrder
stable = record { order_by = sort_by }

pub stable_laws : RowOrderLaws stable
stable_laws = record { order_by-perm = sort_by-perm; order_by-IsSorted = sort_by-IsSorted }
