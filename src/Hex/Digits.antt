-- ===== src/Hex/Digits.antt =====
-- Positional notation: the digits of a number in a base, the most significant first.
use native.Mathlib.Nat.{div-add-mod, div-lt_iff_lt-mul, mod-lt, mul-le-mul_right, pow-suc, pow-zero}
use signet_min_bundler.Prelude.{
  ℕ, zero, suc, ◌+◌, ◌*◌, ◌/◌, ◌%◌, ◌^◌, ◌<◌, ◌≤◌, ◌≡◌, ◌≢◌, refl, ap, ◌∙◌, inl, inr, List, [], ◌∷◌,
  ◌++◌, arith, ◌==◌, if◌then◌else◌, Bool-cases, length, All,
}

-- With `fuel`, the digits of `n` in front of `acc`.
unfoldable pub digits_onto : ℕ → ℕ → ℕ → List ℕ → List ℕ
digits_onto zero b n acc = acc
digits_onto (suc fuel) b n acc =
    let more = digits_onto fuel b (n / b) ((n % b) ∷ acc) in if n == 0 then acc else more

-- No digit for 0. `n` is fuel enough: the quotient falls at each round.
unfoldable pub to_digits : ℕ → ℕ → List ℕ
unfolding digits_onto
to_digits b n = digits_onto n b n []

unfoldable pub value_from : ℕ → ℕ → List ℕ → ℕ
value_from b acc [] = acc
value_from b acc (d ∷ ds) = value_from b (acc * b + d) ds

unfoldable pub of_digits : ℕ → List ℕ → ℕ
unfolding value_from
of_digits b ds = value_from b 0 ds

div-lt : (n b : ℕ) → 1 < b → n ≢ 0 → n / b < n
div-lt n b h p = grind (arith, div-add-mod n b)

module _ (b : ℕ) (big : 1 < b) where
  value_from-digits_onto :
      (fuel n : ℕ) (acc : List ℕ)
      → n ≤ fuel
      → value_from b 0 (digits_onto fuel b n acc) ≡ value_from b n acc
  unfolding digits_onto value_from
  value_from-digits_onto zero n acc h = ap (λ k. value_from b k acc) (omega arith)
  value_from-digits_onto (suc fuel) n acc h = elim (Bool-cases (n == 0)) [
    | inl e ↦ rw e (ap (λ k. value_from b k acc) (ground arith))
    | inr e ↦ rw e (
        value_from-digits_onto fuel (n / b) ((n % b) ∷ acc) (ground (arith, div-lt n b big))
        ∙ ap (λ k. value_from b k acc) (grind (arith, div-add-mod n b)))
  ]

  pub of_digits-to_digits : (n : ℕ) → of_digits b (to_digits b n) ≡ n
  unfolding of_digits to_digits
  of_digits-to_digits n = value_from-digits_onto n n [] (omega arith)

-- Every digit is below the base, and a number below `b ^ k` has at most `k` digits.
module _ (b : ℕ) (big : 1 < b) where
  digits_onto_bounded :
      (fuel n : ℕ) (acc : List ℕ)
      → All (λ d. d < b) acc
      → All (λ d. d < b) (digits_onto fuel b n acc)
  unfolding digits_onto
  digits_onto_bounded zero n acc h = h
  digits_onto_bounded (suc fuel) n acc h = elim (Bool-cases (n == 0)) [
    | inl e ↦ rw e h
    | inr e ↦ rw e (digits_onto_bounded fuel (n / b) ((n % b) ∷ acc) (mod-lt n (omega arith), h))
  ]

  pub to_digits_bounded : (n : ℕ) → All (λ d. d < b) (to_digits b n)
  unfolding to_digits
  to_digits_bounded n = digits_onto_bounded n n [] tt

  length-digits_onto :
      (k fuel n : ℕ) (acc : List ℕ) → n < b ^ k → length (digits_onto fuel b n acc) ≤ k + length acc
  unfolding digits_onto
  length-digits_onto k zero n acc h = omega arith
  length-digits_onto zero (suc fuel) n acc h = ground (arith, pow-zero b)
  length-digits_onto (suc k) (suc fuel) n acc h = elim (Bool-cases (n == 0)) [
    | inl e ↦ rw e (omega arith)
    | inr e ↦ rw e (
        omega (
          arith,
          length-digits_onto k fuel (n / b) ((n % b) ∷ acc)
              ((div-lt_iff_lt-mul {y = b ^ k} (omega arith)).1 (rw (← pow-suc b k) h)),
        ))
  ]

  pub length-to_digits-le : (k n : ℕ) → n < b ^ k → length (to_digits b n) ≤ k
  unfolding to_digits
  length-to_digits-le k n h = omega (arith, length-digits_onto k n n [] h)

-- The digits after a prefix are the number modulo a power of the base.
module _ (b : ℕ) where
  pub value_from-acc :
      (acc : ℕ) (ds : List ℕ) → value_from b acc ds ≡ acc * b ^ length ds + value_from b 0 ds
  unfolding value_from
  value_from-acc acc [] = rw pow-zero (omega arith)
  value_from-acc acc (d ∷ ds) =
      rw (pow-suc, value_from-acc (acc * b + d) ds, value_from-acc (0 * b + d) ds) (omega arith)

  pub of_digits-lt : (ds : List ℕ) → All (λ d. d < b) ds → of_digits b ds < b ^ length ds
  unfolding of_digits
  of_digits-lt [] h = rw pow-zero (omega arith)
  of_digits-lt (d ∷ ds) h =
      rw (value_from-acc (0 * b + d) ds, pow-suc)
        (grind (arith, of_digits-lt ds h.1, mul-le-mul_right (b ^ length ds) h.0))

  value_from-append :
      (acc : ℕ) (xs ys : List ℕ)
      → value_from b acc (xs ++ ys) ≡ value_from b (value_from b acc xs) ys
  unfolding value_from
  value_from-append acc [] ys = refl
  value_from-append acc (x ∷ xs) ys = value_from-append (acc * b + x) xs ys

  pub of_digits-append :
      (xs ys : List ℕ) → of_digits b (xs ++ ys) ≡ of_digits b xs * b ^ length ys + of_digits b ys
  unfolding of_digits value_from
  of_digits-append xs ys = value_from-append 0 xs ys ∙ value_from-acc (value_from b 0 xs) ys
