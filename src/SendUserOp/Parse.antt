-- ===== src/SendUserOp/Parse.antt =====
-- cmd/send-userop/main.go: the readers of the flags.
use signet_min_bundler.Prelude.{
  ℕ, ◌-◌, ◌^◌, Bool, ◌||◌, Option, none, some, [], ◌∷◌, ◌++◌, if◌then◌else◌, ◌==◌, ltb, replicate,
  Bytes, Text, codes, length, take, has_prefix, to_lower,
}
use signet_min_bundler.Go.{Result, ok, err, ◌>>=◌, ℤ, scale, add_int}
use signet_min_bundler.Hex.{trim_prefix, decode_hex, parse_int}
use signet_min_bundler.Prover.Prove.{cut_at_dot}

-- The blanks of ASCII that `strings.TrimSpace` cuts off.
abbrev pub is_blank : ℕ → Bool
is_blank c = c == 32 || c == 9 || c == 10 || c == 11 || c == 12 || c == 13

unfoldable pub trim_left : Text → Text
trim_left [] = []
trim_left (c ∷ s) = if is_blank c then trim_left s else c ∷ s

unfoldable pub reverse_onto : Text → Text → Text
reverse_onto [] acc = acc
reverse_onto (c ∷ s) acc = reverse_onto s (c ∷ acc)

-- `strings.TrimSpace`
unfoldable pub trim_space : Text → Text
unfolding trim_left reverse_onto
trim_space s = reverse_onto (trim_left (reverse_onto (trim_left s) [])) []

-- `strings.TrimSuffix(s, suffix)`
unfoldable pub trim_suffix : Text → Text → Text
unfolding reverse_onto
trim_suffix s suffix =
    if has_prefix (reverse_onto s []) (reverse_onto suffix [])
    then take (length s - length suffix) s
    else s

-- An integer of `SetString`, or the error.
abbrev pub integer : Text → Option ℤ → Result ℤ
integer message none = err message
integer message (some n) = ok n

-- The fraction, cut or filled to 18 digits.
unfoldable pub frac_digits : Text → Text
frac_digits frac =
    if ltb 18 (length frac) then take 18 frac else frac ++ replicate (18 - length frac) b'0'

-- An amount of ETH in wei, from the digits on both sides of its point.
unfoldable pub eth_value : Text → Text → Result ℤ
unfolding frac_digits
eth_value whole_digits frac = do
  whole ← integer (codes "invalid decimal") (parse_int 10 whole_digits)
  frac_wei ← integer (codes "invalid decimal fraction") (parse_int 10 (frac_digits frac))
  ok (add_int (scale whole (10 ^ 18)) frac_wei)

abbrev pub expected_wei : Text
expected_wei = codes "expected decimal wei, decimal ETH (e.g. 0.01 or 0.01eth), or 0x-prefixed hex"

-- `parseValue` of the text without blanks and without its unit.
unfoldable pub value_of : Text → Result ℤ
unfolding eth_value
value_of s =
    if has_prefix s (codes "0x")
    then integer (codes "invalid hex integer") (parse_int 16 (trim_prefix s))
    else elim (cut_at_dot s) as (λ _. Result ℤ) [
      | some (whole, frac) ↦ eth_value whole frac
      | none ↦ integer expected_wei (parse_int 10 s)
    ]

-- `parseValue`
unfoldable pub parse_value : Text → Result ℤ
unfolding trim_space trim_suffix value_of
parse_value s = value_of (trim_space (trim_suffix (to_lower (trim_space s)) (codes "eth")))

-- `parseBigHex`, and `hexToBigInt`, which is the same. (The error's text quotes the argument too.)
unfoldable pub parse_big_hex : Text → Result ℤ
parse_big_hex s = integer (codes "invalid hex integer") (parse_int 16 (trim_prefix s))

-- `parseAddress`. (The error's text quotes the length too.)
unfoldable pub parse_address : Text → Result Bytes
parse_address s = do
  b ← decode_hex s
  if length b == 20 then ok b else err (codes "expected 20 bytes")
