-- ===== src/Go/Regions.antt =====
-- Reading a buffer into which slices were copied, region by region.
use native.Mathlib.Nat.{zero-add, suc-add}
use signet_min_bundler.Prelude.{
  ℕ, zero, suc, ◌+◌, ◌-◌, ◌≤◌, ◌≡◌, refl, sym, ap, ◌∙◌, [], ◌∷◌, ◌++◌, arith, Bytes, length, take,
  drop, min, append_assoc, length-append, length-take, length-drop,
}
use signet_min_bundler.Go.{copy_at, sub, zeros}
use signet_min_bundler.Go.Copy.{take_of_length, sub-middle}

-- A copy of exactly the bytes that the slice holds, in parts.
copy_at-parts :
    (buf : Bytes) (lo hi : ℕ) (src : Bytes)
    → hi ≡ lo + length src
    → copy_at buf lo hi src ≡ take lo buf ++ (src ++ drop hi buf)
unfolding copy_at
copy_at-parts buf lo hi src e =
    let whole : lo + min (hi - lo) (length src) ≡ hi = omega (arith, e) in
    rw (take_of_length (min (hi - lo) (length src)) src (omega (arith, e)), whole)

take-drop-append :
    (lo l n : ℕ) (buf rest : Bytes)
    → l + n ≤ lo
    → lo ≤ length buf
    → take n (drop l (take lo buf ++ rest)) ≡ take n (drop l buf)
take-drop-append lo l zero buf rest h k = refl
take-drop-append zero l (suc n) buf rest h k = absurd (omega (arith, h))
take-drop-append (suc lo) l (suc n) [] rest h k = absurd (omega (arith, k))
take-drop-append (suc lo) zero (suc n) (b ∷ buf) rest h k =
    ap (◌∷◌ b) (take-drop-append lo zero n buf rest (omega (arith, h)) (omega (arith, k)))
take-drop-append (suc lo) (suc l) (suc n) (b ∷ buf) rest h k =
    take-drop-append lo l (suc n) buf rest (omega (arith, h)) (omega (arith, k))

drop-nil : (n : ℕ) → drop {A = ℕ} n [] ≡ []
drop-nil zero = refl
drop-nil (suc n) = refl

drop-drop : (i j : ℕ) (xs : Bytes) → drop i (drop j xs) ≡ drop (j + i) xs
drop-drop i zero xs = rw zero-add
drop-drop i (suc j) [] = drop-nil i ∙ sym (drop-nil (suc j + i))
drop-drop i (suc j) (x ∷ xs) = rw suc-add (drop-drop i j xs)

drop_past : (l : ℕ) (p q : Bytes) → length p ≤ l → drop l (p ++ q) ≡ drop (l - length p) q
drop_past l [] q h = ap (λ k. drop k q) (omega arith)
drop_past zero (x ∷ p) q h = absurd (omega (arith, h))
drop_past (suc l) (x ∷ p) q h =
    drop_past l p q (omega (arith, h)) ∙ ap (λ k. drop k q) {x = l - length p} (omega arith)

module _ (buf : Bytes) (lo hi : ℕ) (src : Bytes) where
  -- The copy fits the slice, and the slice the buffer.
  pub record Fits : Type 0 where
    pub size : hi ≡ lo + length src
    pub inside : hi ≤ length buf

  pub length-copy_at : Fits → length (copy_at buf lo hi src) ≡ length buf
  length-copy_at f =
      rw (copy_at-parts buf lo hi src f.size, length-append, length-append)
        (omega (arith, f.size, f.inside, length-take lo buf, length-drop hi buf))

  -- The region that was written.
  pub sub-copy_at : Fits → sub (copy_at buf lo hi src) lo hi ≡ src
  sub-copy_at f = rw (copy_at-parts buf lo hi src f.size) (
      sub-middle lo hi (take lo buf) src (drop hi buf)
        (omega (arith, f.size, f.inside, length-take lo buf)) f.size)

  -- A region before it, and one after it.
  pub sub-copy_at_before :
      (l h : ℕ) → Fits → l ≤ h → h ≤ lo → sub (copy_at buf lo hi src) l h ≡ sub buf l h
  unfolding sub
  sub-copy_at_before l h f o e = rw (copy_at-parts buf lo hi src f.size) (
      take-drop-append lo l (h - l) buf (src ++ drop hi buf) (omega (arith, o, e))
        (omega (arith, f.size, f.inside)))

  pub sub-copy_at_after : (l h : ℕ) → Fits → hi ≤ l → sub (copy_at buf lo hi src) l h ≡ sub buf l h
  unfolding sub
  sub-copy_at_after l h f e =
      ap (λ z. take (h - l) (drop l z)) (copy_at-parts buf lo hi src f.size)
      ∙ ap (take (h - l)) past
    where
      front : length (take lo buf ++ src) ≡ hi
      front = rw length-append (omega (arith, f.size, f.inside, length-take lo buf))

      past : drop l (take lo buf ++ (src ++ drop hi buf)) ≡ drop l buf
      past =
          ap (drop l) (sym (append_assoc (take lo buf) src (drop hi buf)))
          ∙ drop_past l (take lo buf ++ src) (drop hi buf) (omega (arith, front, e))
          ∙ ap (λ k. drop (l - k) (drop hi buf)) front
          ∙ drop-drop (l - hi) hi buf
          ∙ ap (λ k. drop k buf) (omega (arith, e))

take-zeros : (n m : ℕ) → n ≤ m → take n (zeros m) ≡ zeros n
take-zeros zero m h = refl
take-zeros (suc n) zero h = absurd (omega (arith, h))
take-zeros (suc n) (suc m) h = ap (◌∷◌ 0) (take-zeros n m (omega (arith, h)))

drop-zeros : (n m : ℕ) → drop n (zeros m) ≡ zeros (m - n)
drop-zeros zero m = ap zeros {x = m} (omega arith)
drop-zeros (suc n) zero = ap zeros {x = 0} (omega arith)
drop-zeros (suc n) (suc m) = drop-zeros n m ∙ ap zeros {x = m - n} (omega arith)

-- A region of a fresh buffer.
pub sub-zeros : (n l h : ℕ) → l ≤ h → h ≤ n → sub (zeros n) l h ≡ zeros (h - l)
unfolding sub
sub-zeros n l h o e =
    ap (take (h - l)) (drop-zeros l n) ∙ take-zeros (h - l) (n - l) (omega (arith, o, e))

take-nil : (n : ℕ) → take {A = ℕ} n [] ≡ []
take-nil zero = refl
take-nil (suc n) = refl

take-add : (a b : ℕ) (xs : Bytes) → take (a + b) xs ≡ take a xs ++ take b (drop a xs)
take-add zero b xs = rw zero-add
take-add (suc a) b [] = take-nil (suc a + b) ∙ sym (take-nil b)
take-add (suc a) b (x ∷ xs) = rw suc-add (ap (◌∷◌ x) (take-add a b xs))

-- A region in two.
pub sub-split : (xs : Bytes) (l m h : ℕ) → l ≤ m → m ≤ h → sub xs l h ≡ sub xs l m ++ sub xs m h
unfolding sub
sub-split xs l m h o e =
    ap (λ k. take k (drop l xs)) (omega (arith, o, e))
    ∙ take-add (m - l) (h - m) (drop l xs)
    ∙ ap (λ z. take (m - l) (drop l xs) ++ take (h - m) z)
        (drop-drop (m - l) l xs ∙ ap (λ k. drop k xs) (omega (arith, o)))

-- A copy into a slice that is longer than the source.
pub copy_at_short :
    (buf : Bytes) (lo hi : ℕ) (src : Bytes)
    → lo + length src ≤ hi
    → copy_at buf lo hi src ≡ copy_at buf lo (lo + length src) src
unfolding copy_at
copy_at_short buf lo hi src h =
    let here : min (hi - lo) (length src) ≡ length src = omega (arith, h) in
    let there : min (lo + length src - lo) (length src) ≡ length src = omega arith in
    rw (here, there)
