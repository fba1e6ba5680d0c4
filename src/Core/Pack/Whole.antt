-- ===== src/Core/Pack/Whole.antt =====
-- A packed word is packed again from its halves.
use mathlib.Core.Path.{subst, ap₂}
use signet_min_bundler.Prelude.{
  ℕ, zero, suc, ◌-◌, ◌^◌, ◌<◌, ◌≤◌, ◌≡◌, refl, ap, ◌∙◌, sym, [], ◌∷◌, ◌++◌, arith, Bytes, IsByte,
  IsArray, All, Bool-cases, inl, inr, length, length-drop, length-take, take, drop, replicate,
  take-append-drop, ltb,
}
use native.Mathlib.Nat.{mod-eq_of_lt}
use signet_min_bundler.Go.{ℤ, pos, abs, sub}
use signet_min_bundler.Hex.{set_bytes}
use signet_min_bundler.Hex.Digits.{to_digits, to_digits_bounded, of_digits-lt}
use signet_min_bundler.Hex.Unique.{of_digits_injective}
use signet_min_bundler.Core.Pack.{into128, pack_big_ints}
use signet_min_bundler.Core.Pack.Halves.{
  kept, into128-kept, length-into128, set_bytes-into128, All-drop,
}

pub All-take : (n : ℕ) (bs : Bytes) → All IsByte bs → All IsByte (take n bs)
All-take zero bs h = tt
All-take (suc n) [] h = tt
All-take (suc n) (b ∷ bs) h = (h.0, All-take n bs h.1)

All-zeros-append : (k : ℕ) (bs : Bytes) → All IsByte bs → All IsByte (replicate k 0 ++ bs)
All-zeros-append zero bs h = h
All-zeros-append (suc k) bs h = (omega arith, All-zeros-append k bs h)

All-kept : (n : ℕ) → All IsByte (kept n)
unfolding kept
All-kept n =
    let vb = to_digits 256 n in
    let bounded = to_digits_bounded 256 (omega arith) n in
    elim (Bool-cases (ltb 16 (length vb))) [
      | inl long ↦ rw long (All-drop (length vb - 16) vb bounded)
      | inr short ↦ rw short bounded
    ]

All-into128 : (v : ℤ) → All IsByte (into128 v)
All-into128 v =
    rw (into128-kept v)
      (All-zeros-append (16 - length (kept (abs v))) (kept (abs v)) (All-kept (abs v)))

-- 16 bytes are what into128 writes of their number.
into128-set_bytes : (b : Bytes) → length b ≡ 16 → All IsByte b → into128 (pos (set_bytes b)) ≡ b
into128-set_bytes b l h =
    of_digits_injective 256 (into128 (pos (set_bytes b))) b
      (length-into128 (pos (set_bytes b)) ∙ sym l) (All-into128 (pos (set_bytes b))) h
      (unfold set_bytes in
        set_bytes-into128 (pos (set_bytes b)) ∙ mod-eq_of_lt (fits l (of_digits-lt 256 b h)))
  where
    fits : {n k : ℕ} → k ≡ 16 → n < 256 ^ k → n < 256 ^ 16
    fits {n = n} e h = subst (λ k. n < 256 ^ k) e h

-- A word of 32 bytes is packed again from the numbers in its halves.
pub pack_big_ints-sub :
    (b : Bytes)
    → IsArray 32 b
    → pack_big_ints (pos (set_bytes (sub b 0 16))) (pos (set_bytes (sub b 16 32))) ≡ b
unfolding pack_big_ints sub
pack_big_ints-sub b a =
    let front =
      into128-set_bytes (take 16 b) (omega (arith, length-take 16 b, a.len))
        (All-take 16 b a.bytes) in
    let rest = drop 16 b in
    let back =
      into128-set_bytes (take 16 rest) (omega (arith, length-take 16 rest, length-drop 16 b, a.len))
        (All-take 16 rest (All-drop 16 b a.bytes)) in
    ap₂ (λ p q. p ++ q) front (back ∙ all_of 16 rest (omega (arith, length-drop 16 b, a.len)))
    ∙ take-append-drop 16 b
  where
    all_of : (n : ℕ) (bs : Bytes) → length bs ≤ n → take n bs ≡ bs
    all_of zero [] h = refl
    all_of zero (b ∷ bs) h = absurd (omega (arith, h))
    all_of (suc n) [] h = refl
    all_of (suc n) (b ∷ bs) h = ap (λ z. b ∷ z) (all_of n bs (omega (arith, h)))
