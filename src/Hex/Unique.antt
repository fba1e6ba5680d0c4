-- ===== src/Hex/Unique.antt =====
-- Digit strings of one length, and the numbers that they write.
use mathlib.Core.Path.{ap₂}
use native.Mathlib.Nat.{mul-add-mod_self_right, mod-eq_of_lt, eq_of_mul-eq-mul_right}
use signet_min_bundler.Prelude.{
  ℕ, ◌*◌, ◌<◌, ◌%◌, ◌^◌, ◌≡◌, refl, sym, ap, ◌∙◌, List, [], ◌∷◌, arith, length, All,
}
use signet_min_bundler.Hex.Digits.{of_digits, value_from, of_digits-append, of_digits-lt}

module _ (b : ℕ) where
  -- What follows the first digit is the number modulo a power of the base.
  mod_power :
      (d : ℕ) (ds : List ℕ)
      → All (λ d. d < b) ds
      → of_digits b (d ∷ ds) % b ^ length ds ≡ of_digits b ds
  mod_power d ds h =
      rw (of_digits-append b (d ∷ []) ds, mul-add-mod_self_right)
        (mod-eq_of_lt (of_digits-lt b ds h))

  -- Two digit strings of one length that write the same number are the same.
  pub of_digits_injective :
      (xs ys : List ℕ)
      → length xs ≡ length ys
      → All (λ d. d < b) xs
      → All (λ d. d < b) ys
      → of_digits b xs ≡ of_digits b ys
      → xs ≡ ys
  unfolding of_digits
  of_digits_injective [] [] l h k e = refl
  of_digits_injective [] (y ∷ ys) l h k e = absurd (omega (arith, l))
  of_digits_injective (x ∷ xs) [] l h k e = absurd (omega (arith, l))
  of_digits_injective (x ∷ xs) (y ∷ ys) l h k e =
      let same : length xs ≡ length ys = omega (arith, l) in
      let rest : of_digits b xs ≡ of_digits b ys =
        sym (mod_power x xs h.1)
        ∙ ap (λ n. n % b ^ length xs) e
        ∙ ap (λ n. of_digits b (y ∷ ys) % b ^ n) same
        ∙ mod_power y ys k.1 in
      let first : of_digits b (x ∷ []) * b ^ length ys ≡ of_digits b (y ∷ []) * b ^ length ys =
        omega (
          arith,
          e,
          rest,
          of_digits-append b (x ∷ []) xs,
          of_digits-append b (y ∷ []) ys,
          ap (λ n. of_digits b (x ∷ []) * b ^ n) same,
        ) in
      ap₂ (λ z zs. z ∷ zs)
        (digit x y (
          eq_of_mul-eq-mul_right (b ^ length ys) (omega (arith, of_digits-lt b ys k.1))
            (of_digits b (x ∷ [])) (of_digits b (y ∷ [])) first))
        (of_digits_injective xs ys same h.1 k.1 rest)
    where
      digit : (x y : ℕ) → of_digits b (x ∷ []) ≡ of_digits b (y ∷ []) → x ≡ y
      digit x y e = unfold of_digits value_from in omega (arith, e)
