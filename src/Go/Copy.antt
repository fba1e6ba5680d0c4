-- ===== src/Go/Copy.antt =====
-- `copy` into the middle of a buffer, and reading back what was written.
use native.Mathlib.Nat.{zero-add, suc-add}
use signet_min_bundler.Prelude.{
  ℕ, ◌+◌, ◌-◌, ◌≡◌, ap, ◌∙◌, sym, [], ◌∷◌, ◌++◌, arith, Bytes, length, take, drop, replicate, min,
  append_assoc, append-nil, take-append, drop-append, take-length, length-append, length-replicate,
  zero, suc,
}
use signet_min_bundler.Go.{copy_at, sub, zeros}

-- Taking and dropping at a computed length.
pub take-append_of_eq : (n : ℕ) (xs ys : Bytes) → n ≡ length xs → take n (xs ++ ys) ≡ xs
take-append_of_eq n xs ys e = rw e (take-append xs ys)

pub drop-append_of_eq : (n : ℕ) (xs ys : Bytes) → n ≡ length xs → drop n (xs ++ ys) ≡ ys
drop-append_of_eq n xs ys e = rw e (drop-append xs ys)

pub take_of_length : (n : ℕ) (xs : Bytes) → n ≡ length xs → take n xs ≡ xs
take_of_length n xs e = rw e (take-length xs)

-- A copy of exactly the bytes that the slice holds replaces them.
pub copy_at-middle :
    (lo hi : ℕ) (a b c src : Bytes)
    → lo ≡ length a
    → hi ≡ lo + length src
    → length b ≡ length src
    → copy_at (a ++ (b ++ c)) lo hi src ≡ a ++ (src ++ c)
unfolding copy_at
copy_at-middle lo hi a b c src ea eh es = rw (
  take-append_of_eq lo a (b ++ c) ea,
  take_of_length (min (hi - lo) (length src)) src (omega arith),
  sym (append_assoc a b c),
  drop-append_of_eq (lo + min (hi - lo) (length src)) (a ++ b) c (omega (arith, length-append a b)),
)

-- Reading a slice whose place is known.
pub sub-middle :
    (lo hi : ℕ) (a b c : Bytes) → lo ≡ length a → hi ≡ lo + length b → sub (a ++ (b ++ c)) lo hi ≡ b
unfolding sub
sub-middle lo hi a b c ea eh =
    rw (drop-append_of_eq lo a (b ++ c) ea) (take-append_of_eq (hi - lo) b c (omega arith))

pub replicate-add : (m n a : ℕ) → replicate (m + n) a ≡ replicate m a ++ replicate n a
replicate-add zero n a = rw zero-add
replicate-add (suc m) n a = rw suc-add (ap (◌∷◌ a) (replicate-add m n a))

-- A copy to the end of a buffer of zeros.
pub copy_at-right :
    (n k : ℕ) (src : Bytes) → n ≡ k + length src → copy_at (zeros n) k n src ≡ zeros k ++ src
copy_at-right n k src e =
    ap (λ z. copy_at z k n src) split
    ∙ copy_at-middle k n (zeros k) (zeros (length src)) [] src (sym (length-replicate k 0)) e
        (length-replicate (length src) 0)
    ∙ ap (λ z. zeros k ++ z) (append-nil src)
  where
    split : zeros n ≡ zeros k ++ (zeros (length src) ++ [])
    split =
        ap zeros e
        ∙ replicate-add k (length src) 0
        ∙ ap (λ z. zeros k ++ z) (sym (append-nil (zeros (length src))))
