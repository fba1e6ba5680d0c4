-- ===== src/Hex.antt =====
-- internal/core/pack.go: the conversions between bytes, integers and hexadecimal text, over the
-- standard library's encoding/hex and math/big, of which the functions used here are written out.
pub mod Digits
pub mod Laws
pub mod Unique
use signet_min_bundler.Prelude.{
  ℕ, ◌+◌, ◌-◌, ◌*◌, ◌/◌, ◌%◌, Bool, true, false, ◌&&◌, ◌||◌, Option, none, some, List, [], ◌∷◌,
  ◌++◌, map, leb, ltb, ◌==◌, if◌then◌else◌, Bytes, Text, codes, length, has_prefix, drop,
}
use signet_min_bundler.Go.{Result, ok, err, ℤ, pos, negsuc, abs, zeros}
use Digits.{to_digits, of_digits}

-- The character of a digit below 16, in lower case.
unfoldable pub digit_char : ℕ → ℕ
digit_char d = if ltb d 10 then d + b'0' else d - 10 + b'a'

-- The value of a digit's character, of either case; `none` if it is no digit of the base.
unfoldable pub digit_value : ℕ → ℕ → Option ℕ
digit_value base c =
    let v : Option ℕ =
      if leb b'0' c && leb c b'9'
      then some (c - b'0')
      else if leb b'a' c && leb c b'z'
      then some (c - b'a' + 10)
      else if leb b'A' c && leb c b'Z'
      then some (c - b'A' + 10)
      else none in
    elim v [ none ↦ none | some d ↦ if ltb d base then some d else none ]

-- `hex.EncodeToString`
unfoldable pub hex_encode : Bytes → Text
unfolding digit_char
hex_encode [] = []
hex_encode (b ∷ bs) = digit_char (b / 16) ∷ digit_char (b % 16) ∷ hex_encode bs

abbrev pub odd_length : Text
odd_length = codes "encoding/hex: odd length hex string"

abbrev pub invalid_byte : Text
invalid_byte = codes "encoding/hex: invalid byte"

-- `hex.DecodeString`: the bytes decoded before the first error, and that error.
unfoldable pub hex_decode : Text → Bytes × Option Text
unfolding digit_value
hex_decode [] = ([], none)
hex_decode (c ∷ []) = elim (digit_value 16 c) [
  | none ↦ ([], some invalid_byte)
  | some _ ↦ ([], some odd_length)
]
hex_decode (c ∷ d ∷ s) = elim (digit_value 16 c) [
  | none ↦ ([], some invalid_byte)
  | some hi ↦ elim (digit_value 16 d) [
    | none ↦ ([], some invalid_byte)
    | some lo ↦ let (bs, e) = hex_decode s in ((hi * 16 + lo) ∷ bs, e)
  ]
]

abbrev pub hex_prefix : Text
hex_prefix = codes "0x"

-- `strings.TrimPrefix(s, "0x")`
unfoldable pub trim_prefix : Text → Text
trim_prefix s = if has_prefix s hex_prefix then drop 2 s else s

-- `DecodeHex`, with the bytes that it returns beside an error.
unfoldable pub decode_hex_parts : Text → Bytes × Option Text
unfolding trim_prefix hex_decode
decode_hex_parts s = elim (trim_prefix s) [ [] ↦ ([], none) | c ∷ r ↦ hex_decode (c ∷ r) ]

abbrev as_result : Bytes × Option Text → Result Bytes
as_result (bs, none) = ok bs
as_result (bs, some e) = err e

unfoldable pub decode_hex : Text → Result Bytes
decode_hex s = as_result (decode_hex_parts s)

-- `BytesToHex`
unfoldable pub bytes_to_hex : Bytes → Text
unfolding hex_encode
bytes_to_hex [] = hex_prefix
bytes_to_hex (b ∷ bs) = hex_prefix ++ hex_encode (b ∷ bs)

-- `Text(base)` of a number that is not 0.
unfoldable pub nat_text : ℕ → ℕ → Text
unfolding digit_char
nat_text base n = map digit_char (to_digits base n)

-- `v.Text(base)`
unfoldable pub int_text : ℕ → ℤ → Text
unfolding nat_text
int_text base (pos n) = if n == 0 then b'0' ∷ [] else nat_text base n
int_text base (negsuc n) = b'-' ∷ nat_text base (n + 1)

-- `BigToHex`, whose argument is never nil here.
unfoldable pub big_to_hex : ℤ → Text
big_to_hex (pos n) = if n == 0 then codes "0x0" else hex_prefix ++ int_text 16 (pos n)
big_to_hex (negsuc n) = hex_prefix ++ int_text 16 (negsuc n)

unfoldable pub digit_values : ℕ → Text → Option (List ℕ)
unfolding digit_value
digit_values base [] = some []
digit_values base (c ∷ s) = elim (digit_value base c) [
  | none ↦ none
  | some d ↦ elim (digit_values base s) [ none ↦ none | some ds ↦ some (d ∷ ds) ]
]

-- The digits of `SetString`: at least one, all of the base.
unfoldable pub parse_nat : ℕ → Text → Option ℕ
unfolding digit_values
parse_nat base [] = none
parse_nat base (c ∷ s) = elim (digit_values base (c ∷ s)) [
  | none ↦ none
  | some ds ↦ some (of_digits base ds)
]

abbrev pub negate : ℕ → ℤ
negate n = if n == 0 then pos 0 else negsuc (n - 1)

-- `SetString(s, base)`, with its optional sign.
unfoldable pub parse_int : ℕ → Text → Option ℤ
unfolding parse_nat
parse_int base [] = none
parse_int base (c ∷ s) =
    if c == b'-'
    then elim (parse_nat base s) [ none ↦ none | some n ↦ some (negate n) ]
    else elim (parse_nat base (if c == b'+' then s else c ∷ s)) [
      | none ↦ none
      | some n ↦ some (pos n)
    ]

abbrev pub invalid_integer : Text
invalid_integer = codes "invalid hex integer"

-- `HexToBigInt`. (The error's text quotes the argument too.)
pub hex_to_big_int : Text → Result ℤ
unfolding trim_prefix
hex_to_big_int s = elim (parse_int 16 (trim_prefix s)) [
  | none ↦ err invalid_integer
  | some v ↦ ok v
]

-- `v.Bytes()`: the magnitude, most significant byte first, with no leading zero.
unfoldable pub big_bytes : ℤ → Bytes
big_bytes v = to_digits 256 (abs v)

-- `new(big.Int).SetBytes(b)`
unfoldable pub set_bytes : Bytes → ℕ
set_bytes b = of_digits 256 b

-- `PadLeft32`
unfoldable pub pad_left32 : Bytes → Bytes
pad_left32 b = if leb 32 (length b) then b else zeros (32 - length b) ++ b
