-- ===== src/Core/Pack/Halves.antt =====
-- What the halves of a packed word read back as.
use native.Mathlib.Nat.{mul-add-mod_self_right, mod-eq_of_lt, pow-le-pow_right}
use signet_min_bundler.Prelude.{
  ℕ, zero, suc, ◌-◌, ◌%◌, ◌^◌, ◌<◌, ◌≤◌, ◌≡◌, refl, ap, ◌∙◌, sym, inl, inr, Bool-cases, true, [],
  ◌∷◌, ◌++◌, arith, Bytes, IsByte, All, length, length-append, length-drop, length-replicate, take,
  drop, replicate, take-append-drop, append-nil, ltb, if◌then◌else◌,
}
use signet_min_bundler.Go.{ℤ, abs, sub}
use signet_min_bundler.Go.Copy.{copy_at-right, sub-middle}
use signet_min_bundler.Hex.{set_bytes}
use signet_min_bundler.Hex.Digits.{
  of_digits, to_digits, of_digits-to_digits, to_digits_bounded, of_digits-append, of_digits-lt,
}
use signet_min_bundler.Hex.Laws.{value_from-zeros}
use signet_min_bundler.Core.Pack.{into128, pack_big_ints}

pub All-drop : (n : ℕ) (bs : Bytes) → All IsByte bs → All IsByte (drop n bs)
All-drop zero bs h = h
All-drop (suc n) [] h = h
All-drop (suc n) (b ∷ bs) h = All-drop n bs h.1

-- The digits kept by a drop hold the number modulo a power.
set_bytes-drop :
    (k : ℕ) (bs : Bytes)
    → All IsByte bs
    → set_bytes (drop k bs) ≡ set_bytes bs % 256 ^ length (drop k bs)
unfolding set_bytes
set_bytes-drop k bs h =
    let whole : of_digits 256 bs ≡ of_digits 256 (take k bs ++ drop k bs) =
      ap (of_digits 256) (sym (take-append-drop k bs)) in
    rw (
      whole,
      of_digits-append 256 (take k bs) (drop k bs),
      mul-add-mod_self_right,
      mod-eq_of_lt (of_digits-lt 256 (drop k bs) (All-drop k bs h)),
    )

unfoldable pub kept : ℕ → Bytes
kept n = let vb = to_digits 256 n in if ltb 16 (length vb) then drop (length vb - 16) vb else vb

length-kept-le : (n : ℕ) → length (kept n) ≤ 16
unfolding kept
length-kept-le n = ground (arith, length-drop (length (to_digits 256 n) - 16) (to_digits 256 n))

set_bytes-kept : (n : ℕ) → set_bytes (kept n) ≡ n % 256 ^ 16
unfolding kept
set_bytes-kept n = elim (Bool-cases (ltb 16 (length vb))) [
  | inl long ↦ rw long (
      set_bytes-drop (length vb - 16) vb bounded
      ∙ ap (λ k. set_bytes vb % 256 ^ k) (sixteen long)
      ∙ ap (λ k. k % 256 ^ 16) value)
  | inr short ↦ rw short (
      value
      ∙ sym (
          mod-eq_of_lt
            (fits (pow-le-pow_right (omega arith) {i = length vb} {j = 16} (ground arith)))))
]
  where
    vb : Bytes
    vb = to_digits 256 n

    bounded : All IsByte vb
    bounded = to_digits_bounded 256 (omega arith) n

    sixteen : ltb 16 (length vb) ≡ true → length (drop (length vb - 16) vb) ≡ 16
    sixteen long = ground (arith, length-drop (length vb - 16) vb)

    value : set_bytes vb ≡ n
    value = unfold set_bytes in of_digits-to_digits 256 (omega arith) n

    fits : 256 ^ length vb ≤ 256 ^ 16 → n < 256 ^ 16
    fits h = unfold set_bytes in omega (arith, value, of_digits-lt 256 vb bounded)

pub into128-kept : (v : ℤ) → into128 v ≡ replicate (16 - length (kept (abs v))) 0 ++ kept (abs v)
unfolding into128 kept
into128-kept v = copy_at-right 16 _ _ (omega (arith, length-kept-le (abs v)))

pub length-into128 : (v : ℤ) → length (into128 v) ≡ 16
length-into128 v =
    rw (into128-kept v, length-append)
      (omega
        (arith, length-replicate {A = ℕ} (16 - length (kept (abs v))) 0, length-kept-le (abs v)))

pub set_bytes-into128 : (v : ℤ) → set_bytes (into128 v) ≡ abs v % 256 ^ 16
unfolding set_bytes of_digits
set_bytes-into128 v =
    ap set_bytes (into128-kept v)
    ∙ value_from-zeros (16 - length (kept (abs v))) (kept (abs v))
    ∙ set_bytes-kept (abs v)

-- PackBigInts makes 32 bytes, and each 16-byte half holds the low 128 bits of its number's
-- magnitude: the sign and the higher bits are dropped.
pub pack_big_ints_halves :
    (hi lo : ℤ)
    → (length (pack_big_ints hi lo) ≡ 32)
      × (set_bytes (sub (pack_big_ints hi lo) 0 16) ≡ abs hi % 2 ^ 128)
      × (set_bytes (sub (pack_big_ints hi lo) 16 32) ≡ abs lo % 2 ^ 128)
unfolding pack_big_ints
pack_big_ints_halves hi lo = (
  rw length-append (omega (arith, length-into128 hi, length-into128 lo)),
  ap set_bytes
        (sub-middle 0 16 [] (into128 hi) (into128 lo) refl (omega (arith, length-into128 hi)))
      ∙ set_bytes-into128 hi,
  ap set_bytes (
        ap (λ z. sub (into128 hi ++ z) 16 32) (sym (append-nil (into128 lo)))
        ∙ sub-middle 16 32 (into128 hi) (into128 lo) [] (omega (arith, length-into128 hi))
            (omega (arith, length-into128 lo)))
      ∙ set_bytes-into128 lo,
)
