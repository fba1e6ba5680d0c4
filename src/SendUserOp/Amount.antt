-- ===== src/SendUserOp/Amount.antt =====
-- What `parseValue` of cmd/send-userop/main.go reads of whole amounts.
use signet_min_bundler.Prelude.{
  ℕ, ◌+◌, ◌-◌, ◌≤◌, ◌<◌, ◌≡◌, refl, ap, ◌∙◌, inl, inr, false, Bool-cases, none, List, [], ◌∷◌, ◌++◌,
  ◌==◌, map, arith, Text, codes, All, length, length-append, has_prefix, lower, to_lower,
  append-nil,
}
use signet_min_bundler.Go.{ok, pos}
use signet_min_bundler.Go.Copy.{take-append_of_eq}
use signet_min_bundler.Hex.{digit_char, int_text, nat_text}
use signet_min_bundler.Hex.Digits.{to_digits, to_digits_bounded}
use signet_min_bundler.Hex.Laws.{parse_int-int_text}
use signet_min_bundler.Prover.Prove.{cut_at_dot}
use signet_min_bundler.SendUserOp.Parse.{
  is_blank, trim_left, reverse_onto, trim_space, trim_suffix, value_of, parse_value,
}

abbrev pub IsDecimal : ℕ → Type 0
IsDecimal c = (48 ≤ c) × (c ≤ 57)

-- No blank, and no upper-case letter.
abbrev IsPlain : ℕ → Type 0
IsPlain c = (is_blank c ≡ false) × (lower c ≡ c)

IsDecimal-IsPlain : (c : ℕ) → IsDecimal c → IsPlain c
IsDecimal-IsPlain c h = (ground (arith, h), ground (arith, h))

digit_char-IsDecimal : (d : ℕ) → d < 10 → IsDecimal (digit_char d)
unfolding digit_char
digit_char-IsDecimal d h = (ground (arith, h), ground (arith, h))

map-IsDecimal : (ds : List ℕ) → All (λ d. d < 10) ds → All IsDecimal (map digit_char ds)
map-IsDecimal [] h = tt
map-IsDecimal (d ∷ ds) h = (digit_char-IsDecimal d h.0, map-IsDecimal ds h.1)

int_text-IsDecimal : (n : ℕ) → All IsDecimal (int_text 10 (pos n))
unfolding int_text nat_text
int_text-IsDecimal n = elim (Bool-cases (n == 0)) [
  | inl e ↦ rw e ((omega arith, omega arith), tt)
  | inr e ↦ rw e (map-IsDecimal (to_digits 10 n) (to_digits_bounded 10 (omega arith) n))
]

All-IsPlain : (s : Text) → All IsDecimal s → All IsPlain s
All-IsPlain [] h = tt
All-IsPlain (c ∷ s) h = (IsDecimal-IsPlain c h.0, All-IsPlain s h.1)

All-onto : (s acc : Text) → All IsPlain s → All IsPlain acc → All IsPlain (reverse_onto s acc)
unfolding reverse_onto
All-onto [] acc h k = k
All-onto (c ∷ s) acc h k = All-onto s (c ∷ acc) h.1 (h.0, k)

reverse_onto-reverse_onto :
    (s acc more : Text) → reverse_onto (reverse_onto s acc) more ≡ reverse_onto acc (s ++ more)
unfolding reverse_onto
reverse_onto-reverse_onto [] acc more = refl
reverse_onto-reverse_onto (c ∷ s) acc more = reverse_onto-reverse_onto s (c ∷ acc) more

reverse_onto-append :
    (s z acc : Text) → reverse_onto (s ++ z) acc ≡ reverse_onto z (reverse_onto s acc)
unfolding reverse_onto
reverse_onto-append [] z acc = refl
reverse_onto-append (c ∷ s) z acc = reverse_onto-append s z (c ∷ acc)

trim_left-plain : (s : Text) → All IsPlain s → trim_left s ≡ s
unfolding trim_left
trim_left-plain [] h = refl
trim_left-plain (c ∷ s) h = rw h.0.0 refl

trim_space-plain : (s : Text) → All IsPlain s → trim_space s ≡ s
unfolding trim_space reverse_onto
trim_space-plain s h =
    rw
      (
        trim_left-plain s h,
        trim_left-plain (reverse_onto s []) (All-onto s [] h tt),
        reverse_onto-reverse_onto s [] [],
      )
      (append-nil s)

to_lower-plain : (s : Text) → All IsPlain s → to_lower s ≡ s
to_lower-plain [] h = refl
to_lower-plain (c ∷ s) h = rw (h.0.1, to_lower-plain s h.1) refl

abbrev unit : Text
unit = codes "eth"

trim_suffix-unit : (s : Text) → trim_suffix (s ++ unit) unit ≡ s
unfolding trim_suffix
trim_suffix-unit s =
    rw (reverse_onto-append s unit [], reverse_onto, length-append s unit)
      (take-append_of_eq (length s + 3 - 3) s unit (omega arith))

append-IsPlain : (s : Text) → All IsPlain s → All IsPlain (s ++ unit)
append-IsPlain [] h = ((refl, refl), ((refl, refl), ((refl, refl), tt)))
append-IsPlain (c ∷ s) h = (h.0, append-IsPlain s h.1)

-- The last character of a text of digits is no letter.
last_digit :
    (s acc : Text)
    → All IsDecimal s
    → All IsDecimal acc
    → has_prefix (reverse_onto s acc) (b'h' ∷ b't' ∷ b'e' ∷ []) ≡ false
unfolding reverse_onto
last_digit [] [] h k = refl
last_digit [] (a ∷ acc) h k = ground (arith, k.0)
last_digit (c ∷ s) acc h k = last_digit s (c ∷ acc) h.1 (h.0, k)

trim_suffix-none : (s : Text) → All IsDecimal s → trim_suffix s unit ≡ s
unfolding trim_suffix reverse_onto
trim_suffix-none s h = rw (last_digit s [] h tt) refl

no_hex : (s : Text) → All IsDecimal s → has_prefix s (codes "0x") ≡ false
no_hex [] h = refl
no_hex (c ∷ []) h = ground arith
no_hex (c ∷ d ∷ s) h = ground (arith, h.1.0)

no_dot : (s : Text) → All IsDecimal s → cut_at_dot s ≡ none
unfolding cut_at_dot
no_dot [] h = refl
no_dot (c ∷ s) h = ground (arith, no_dot s h.1, h.0)

value_of-int_text : (n : ℕ) → value_of (int_text 10 (pos n)) ≡ ok (pos n)
unfolding value_of
value_of-int_text n =
    let h = int_text-IsDecimal n in
    rw
      (
        no_hex (int_text 10 (pos n)) h,
        no_dot (int_text 10 (pos n)) h,
        parse_int-int_text 10 (omega arith) (omega arith) (pos n),
      )
      refl

-- The amount that is read, when cutting the unit off leaves a text of digits.
read_amount :
    (s : Text) (n : ℕ)
    → All IsPlain s
    → trim_suffix s unit ≡ int_text 10 (pos n)
    → parse_value s ≡ ok (pos n)
unfolding parse_value
read_amount s n h e =
    ap (λ z. value_of (trim_space (trim_suffix (to_lower z) unit))) (trim_space-plain s h)
    ∙ ap (λ z. value_of (trim_space (trim_suffix z unit))) (to_lower-plain s h)
    ∙ ap (λ z. value_of (trim_space z)) e
    ∙ ap value_of (trim_space-plain (int_text 10 (pos n)) (All-IsPlain _ (int_text-IsDecimal n)))
    ∙ value_of-int_text n

-- parseValue reads the decimal text of a number as that many wei, and the same text with the unit
-- eth behind it as that many wei too.
pub parse_value-int_text :
    (n : ℕ)
    → (parse_value (int_text 10 (pos n)) ≡ ok (pos n))
      × (parse_value (int_text 10 (pos n) ++ codes "eth") ≡ ok (pos n))
parse_value-int_text n =
    let s = int_text 10 (pos n) in
    let h = int_text-IsDecimal n in
    (
      read_amount s n (All-IsPlain s h) (trim_suffix-none s h),
      read_amount (s ++ unit) n (append-IsPlain s (All-IsPlain s h)) (trim_suffix-unit s),
    )
