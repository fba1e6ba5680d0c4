-- ===== src/Hex/Laws.antt =====
-- The conversions of internal/core/pack.go undo each other.
use signet_min_bundler.Prelude.{
  ℕ, zero, suc, ◌+◌, ◌-◌, ◌/◌, ◌%◌, ◌<◌, ◌≤◌, ◌^◌, ◌≡◌, ◌≢◌, refl, sym, ◌==◌, ap, ◌∙◌, none, some,
  List, [], ◌∷◌, ◌++◌, map, arith, Bytes, Text, IsByte, lower, to_lower, length, length-append,
  length-replicate, replicate, All, inl, inr, Bool-cases,
}
use signet_min_bundler.Go.{ok, ℤ, pos, negsuc, abs}
use signet_min_bundler.Hex.Digits.{
  to_digits, of_digits, value_from, of_digits-to_digits, to_digits_bounded, length-to_digits-le,
}
use signet_min_bundler.Hex.{
  digit_char, digit_value, hex_encode, hex_decode, trim_prefix, decode_hex_parts, decode_hex,
  bytes_to_hex, int_text, big_to_hex, digit_values, parse_nat, parse_int, hex_to_big_int, big_bytes,
  set_bytes, pad_left32,
}

digit_value-digit_char :
    (base d : ℕ) → base ≤ 16 → d < base → digit_value base (digit_char d) ≡ some d
unfolding digit_value digit_char
digit_value-digit_char base d h k = ground arith

pub hex_decode-hex_encode : (bs : Bytes) → All IsByte bs → hex_decode (hex_encode bs) ≡ (bs, none)
unfolding hex_encode hex_decode
hex_decode-hex_encode [] h = refl
hex_decode-hex_encode (b ∷ bs) h = ground (
  arith,
  digit_value-digit_char 16 (b / 16),
  digit_value-digit_char 16 (b % 16),
  hex_decode-hex_encode bs,
)

pub decode_hex_parts-bytes_to_hex :
    (bs : Bytes) → All IsByte bs → decode_hex_parts (bytes_to_hex bs) ≡ (bs, none)
unfolding decode_hex_parts bytes_to_hex trim_prefix
decode_hex_parts-bytes_to_hex [] h = refl
decode_hex_parts-bytes_to_hex (b ∷ bs) h = rw (hex_decode-hex_encode (b ∷ bs) h)

-- Decoding the hexadecimal text of bytes gives the bytes.
pub decode_hex-bytes_to_hex : (bs : Bytes) → All IsByte bs → decode_hex (bytes_to_hex bs) ≡ ok bs
unfolding decode_hex
decode_hex-bytes_to_hex bs h = rw (decode_hex_parts-bytes_to_hex bs h)

lower-digit_char : (d : ℕ) → d < 16 → lower (digit_char d) ≡ digit_char d
unfolding digit_char
lower-digit_char d h = ground arith

to_lower-hex_encode : (b : Bytes) → All IsByte b → to_lower (hex_encode b) ≡ hex_encode b
unfolding hex_encode
to_lower-hex_encode [] h = refl
to_lower-hex_encode (b ∷ bs) h =
    ground (arith, lower-digit_char (b / 16), lower-digit_char (b % 16), to_lower-hex_encode bs)

pub to_lower-bytes_to_hex : (b : Bytes) → All IsByte b → to_lower (bytes_to_hex b) ≡ bytes_to_hex b
unfolding bytes_to_hex
to_lower-bytes_to_hex [] h = refl
to_lower-bytes_to_hex (b ∷ bs) h =
    ap (λ (s : Text). b'0' ∷ b'x' ∷ s) (to_lower-hex_encode (b ∷ bs) h)

digit_values-map :
    (base : ℕ) (ds : List ℕ)
    → base ≤ 16
    → All (λ d. d < base) ds
    → digit_values base (map digit_char ds) ≡ some ds
unfolding digit_values
digit_values-map base [] h k = refl
digit_values-map base (d ∷ ds) h k =
    ground (arith, digit_value-digit_char base d, digit_values-map base ds)

-- A digit's character is no sign.
first_digit : (d : ℕ) → d < 16 → (digit_char d ≢ b'-') × (digit_char d ≢ b'+')
unfolding digit_char
first_digit d h = (ground arith, ground arith)

module _ (base : ℕ) (high : base ≤ 16) where
  parse_nat-map :
      (ds : List ℕ)
      → ds ≢ []
      → All (λ d. d < base) ds
      → parse_nat base (map digit_char ds) ≡ some (of_digits base ds)
  unfolding parse_nat
  parse_nat-map [] h k = absurd (h refl)
  parse_nat-map (d ∷ ds) h k = rw (digit_values-map base (d ∷ ds) high k, parse_nat)

  parse_int-map :
      (ds : List ℕ)
      → ds ≢ []
      → All (λ d. d < base) ds
      → parse_int base (map digit_char ds) ≡ some (pos (of_digits base ds))
  unfolding parse_int
  parse_int-map [] h k = absurd (h refl)
  parse_int-map (d ∷ ds) h k = ground (arith, parse_nat-map (d ∷ ds) h k, first_digit d)

module _ (base : ℕ) (low : 1 < base) (high : base ≤ 16) where
  to_digits-ne-nil : (n : ℕ) → n ≢ 0 → to_digits base n ≢ []
  unfolding of_digits
  to_digits-ne-nil n h e = h (sym (of_digits-to_digits base low n) ∙ ap (of_digits base) e)

  parse_int-zero : parse_int base (b'0' ∷ []) ≡ some (pos 0)
  unfolding parse_int digit_values of_digits
  parse_int-zero = ground arith

  -- Reading the text of an integer, in any base from 2 to 16, gives the integer.
  pub parse_int-int_text : (v : ℤ) → parse_int base (int_text base v) ≡ some v
  unfolding int_text
  parse_int-int_text (pos n) = elim (Bool-cases (n == 0)) [
    | inl e ↦ rw e (ground (arith, parse_int-zero))
    | inr e ↦ rw e (
        parse_int-map base high (to_digits base n) (to_digits-ne-nil n (ground arith))
          (to_digits_bounded base low n)
        ∙ ap (λ k. some (pos k)) (of_digits-to_digits base low n))
  ]
  parse_int-int_text (negsuc n) =
      unfold parse_int in
      rw
        (
          parse_nat-map base high (to_digits base (n + 1)) (to_digits-ne-nil (n + 1) (omega arith))
              (to_digits_bounded base low (n + 1)),
          of_digits-to_digits base low (n + 1),
          parse_int,
        )
        (ground arith)

-- Reading the hexadecimal text of an integer gives the integer, negative ones included.
pub hex_to_big_int-big_to_hex : (v : ℤ) → hex_to_big_int (big_to_hex v) ≡ ok v
unfolding hex_to_big_int big_to_hex
hex_to_big_int-big_to_hex (pos n) = elim (Bool-cases (n == 0)) [
  | inl e ↦ rw e (ground (arith, parse_int-zero 16 (omega arith) (omega arith)))
  | inr e ↦ rw (e, parse_int-int_text 16 (omega arith) (omega arith) (pos n), hex_to_big_int)
]
hex_to_big_int-big_to_hex (negsuc n) =
    rw (parse_int-int_text 16 (omega arith) (omega arith) (negsuc n), hex_to_big_int)

pub value_from-zeros :
    (k : ℕ) (b : Bytes) → value_from 256 0 (replicate k 0 ++ b) ≡ value_from 256 0 b
unfolding value_from
value_from-zeros zero b = refl
value_from-zeros (suc k) b = value_from-zeros k b

-- Padding a byte string of at most 32 bytes makes 32 bytes.
pub length-pad_left32 : (b : Bytes) → length b ≤ 32 → length (pad_left32 b) ≡ 32
unfolding pad_left32
length-pad_left32 b h = ground (
  arith,
  length-append (replicate (32 - length b) 0) b,
  length-replicate {A = ℕ} (32 - length b) 0,
)

-- Padding keeps the value of the bytes.
pub set_bytes-pad_left32 : (b : Bytes) → set_bytes (pad_left32 b) ≡ set_bytes b
unfolding set_bytes pad_left32 of_digits
set_bytes-pad_left32 b = ground (arith, value_from-zeros (32 - length b) b)

-- The word of a number below 2^256 has 32 bytes.
pub length-word : (v : ℤ) → abs v < 256 ^ 32 → length (pad_left32 (big_bytes v)) ≡ 32
unfolding big_bytes
length-word v h =
    length-pad_left32 (to_digits 256 (abs v)) (length-to_digits-le 256 (omega arith) 32 (abs v) h)

-- The bytes of an integer, padded by PadLeft32, read back as its magnitude.
pub set_bytes-word : (v : ℤ) → set_bytes (pad_left32 (big_bytes v)) ≡ abs v
unfolding set_bytes big_bytes
set_bytes-word v =
    set_bytes-pad_left32 (to_digits 256 (abs v)) ∙ of_digits-to_digits 256 (omega arith) (abs v)
