-- ===== src/Go/Writes.antt =====
-- A run of copies into regions of one buffer that do not overlap.
use signet_min_bundler.Prelude.{
  ℕ, ◌+◌, ◌≤◌, ◌≡◌, refl, ◌∙◌, inl, inr, Bool, true, ◌&&◌, ◌||◌, List, [], ◌∷◌, arith, Bytes,
  length, leb, All, Bool-cases,
}
use signet_min_bundler.Go.{copy_at, sub}
use signet_min_bundler.Go.Regions.{
  Fits, length-copy_at, sub-copy_at, sub-copy_at_before, sub-copy_at_after,
}

-- `copy(buf[lo:hi], src)`
pub record Write : Type 0 where
  pub lo : ℕ
  pub hi : ℕ
  pub src : Bytes

unfoldable pub write_all : List Write → Bytes → Bytes
write_all [] buf = buf
write_all (w ∷ ws) buf = write_all ws (copy_at buf w.lo w.hi w.src)

-- A region is not touched.
unfoldable pub apart : ℕ → ℕ → List Write → Bool
apart l h [] = true
apart l h (w ∷ ws) = (leb h w.lo || leb w.hi l) && apart l h ws

unfoldable pub disjoint : List Write → Bool
disjoint [] = true
disjoint (w ∷ ws) = apart w.lo w.hi ws && disjoint ws

-- A copy of exactly the bytes of the region, inside a buffer of `n` bytes.
pub record IsSized (n : ℕ) (w : Write) : Type 0 where
  pub size : w.hi ≡ w.lo + length w.src
  pub inside : w.hi ≤ n

-- Every region holds what was written.
abbrev pub Holds : Bytes → List Write → Type 0
Holds buf [] = Unit
Holds buf (w ∷ ws) = (sub buf w.lo w.hi ≡ w.src) × Holds buf ws

fits : (n : ℕ) (w : Write) (buf : Bytes) → IsSized n w → length buf ≡ n → Fits buf w.lo w.hi w.src
fits n w buf s e = record { size = s.size; inside = omega (arith, e, s.inside) }

pub length-write_all :
    (n : ℕ) (ws : List Write) (buf : Bytes)
    → All (IsSized n) ws
    → length buf ≡ n
    → length (write_all ws buf) ≡ n
unfolding write_all
length-write_all n [] buf s e = e
length-write_all n (w ∷ ws) buf s e =
    length-write_all n ws (copy_at buf w.lo w.hi w.src) s.1
      (length-copy_at buf w.lo w.hi w.src (fits n w buf s.0 e) ∙ e)

-- A region that no copy touches.
pub sub-write_all :
    (n : ℕ) (ws : List Write) (buf : Bytes) (l h : ℕ)
    → All (IsSized n) ws
    → length buf ≡ n
    → l ≤ h
    → apart l h ws ≡ true
    → sub (write_all ws buf) l h ≡ sub buf l h
unfolding write_all apart
sub-write_all n [] buf l h s e o a = refl
sub-write_all n (w ∷ ws) buf l h s e o a =
    let f = fits n w buf s.0 e in
    sub-write_all n ws (copy_at buf w.lo w.hi w.src) l h s.1
      (length-copy_at buf w.lo w.hi w.src f ∙ e) o (ground arith)
    ∙ elim (Bool-cases (leb h w.lo)) as (λ _. sub (copy_at buf w.lo w.hi w.src) l h ≡ sub buf l h) [
      | inl before ↦ sub-copy_at_before buf w.lo w.hi w.src l h f o (ground arith)
      | inr after ↦ sub-copy_at_after buf w.lo w.hi w.src l h f (ground arith)
    ]

pub write_all-Holds :
    (n : ℕ) (ws : List Write) (buf : Bytes)
    → All (IsSized n) ws
    → length buf ≡ n
    → disjoint ws ≡ true
    → Holds (write_all ws buf) ws
unfolding disjoint write_all
write_all-Holds n [] buf s e d = tt
write_all-Holds n (w ∷ ws) buf s e d =
    let f = fits n w buf s.0 e in
    let e' = length-copy_at buf w.lo w.hi w.src f ∙ e in
    (
      sub-write_all n ws (copy_at buf w.lo w.hi w.src) w.lo w.hi s.1 e' (omega (arith, s.0.size))
            (ground arith)
          ∙ sub-copy_at buf w.lo w.hi w.src f,
      write_all-Holds n ws (copy_at buf w.lo w.hi w.src) s.1 e' (ground arith),
    )
