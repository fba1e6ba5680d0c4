-- ===== src/Prover/Toml.antt =====
-- internal/prover/prover.go: the circuit's inputs as text.
use signet_min_bundler.Prelude.{
  ℕ, zero, suc, ◌-◌, ◌/◌, ◌%◌, ◌^◌, List, [], ◌∷◌, ◌++◌, map, replicate, leb, if◌then◌else◌, Bytes,
  Text, codes, length,
}
use signet_min_bundler.Go.{Result, ok, panic, ◌>>=◌, pos}
use signet_min_bundler.Hex.{int_text}

-- `%d`, and `Text(10)`
abbrev pub decimal : ℕ → Text
decimal n = int_text 10 (pos n)

-- The loop of `splitBigIntToLimbs` on a number that is not negative: the low bits of `n`, and then
-- those of what remains.
unfoldable pub limbs_of : ℕ → ℕ → ℕ → List ℕ
limbs_of n chunk_bits zero = []
limbs_of n chunk_bits (suc num_chunks) =
    n % 2 ^ chunk_bits ∷ limbs_of (n / 2 ^ chunk_bits) chunk_bits num_chunks

-- `splitBigIntToLimbs`
unfoldable pub split_big_int_to_limbs : ℕ → ℕ → ℕ → List Text
unfolding limbs_of
split_big_int_to_limbs n chunk_bits num_chunks = map decimal (limbs_of n chunk_bits num_chunks)

-- `strings.Join(parts, ", ")`
unfoldable pub join : List Text → Text
join [] = []
join (p ∷ []) = p
join (p ∷ q ∷ parts) = p ++ (codes ", " ++ join (q ∷ parts))

-- `joinInts`
unfoldable pub join_ints : List ℕ → Text
unfolding join
join_ints vals = join (map decimal vals)

abbrev pub quoted : Text → Text
quoted v = b'"' ∷ v ++ b'"' ∷ []

-- `joinQuoted`
unfoldable pub join_quoted : List Text → Text
unfolding join
join_quoted vals = join (map quoted vals)

-- `make([]int, maxLen)` with the bytes of `value` stored into it: an index out of range panics.
unfoldable pub storage_of : Bytes → ℕ → Result (List ℕ)
storage_of value max_len =
    if leb (length value) max_len then ok (value ++ replicate (max_len - length value) 0) else panic

abbrev pub newline : Text
newline = 10 ∷ []

-- The lines of `writeBoundedVec`.
unfoldable pub vec_lines : Text → Bytes → List ℕ → Text
unfolding join_ints
vec_lines name value storage =
    (b'[' ∷ name ++ (codes "]" ++ newline))
    ++ ((codes "storage = [" ++ (join_ints storage ++ (codes "]" ++ newline)))
        ++ (codes "len = " ++ (decimal (length value) ++ (newline ++ newline))))

-- `writeBoundedVec`, as what it appends.
unfoldable pub write_bounded_vec : Text → Bytes → ℕ → Result Text
unfolding storage_of vec_lines
write_bounded_vec name value max_len = do
  storage ← storage_of value max_len
  ok (vec_lines name value storage)

-- `BoundedVecMaxLen`
abbrev pub bounded_vec_max_len : ℕ
bounded_vec_max_len = 128

-- `proverData`
pub record ProverData : Type 0 where
  pub data_storage : List ℕ
  pub data_len : ℕ
  pub base64_decode_offset : ℕ
  pub modulus_limbs : List Text
  pub redc_limbs : List Text
  pub sig_limbs : List Text
  pub iss : Text
  pub sub : Text
  pub exp : ℕ
  pub aud : Text
  pub azp : Text
  pub session_pub : List ℕ

-- `name = [values]` and a line's end.
abbrev pub list_line : Text → Text → Text
list_line name values = name ++ (codes " = [" ++ (values ++ (codes "]" ++ newline)))

abbrev pub number_line : Text → ℕ → Text
number_line name n = name ++ (codes " = " ++ (decimal n ++ newline))

-- The part of the file before the bounded vectors.
unfoldable pub toml_head : ProverData → Text
unfolding join_ints join_quoted
toml_head d =
    number_line (codes "base64_decode_offset") d.base64_decode_offset
    ++ (number_line (codes "expected_exp") d.exp
        ++ (list_line (codes "redc_params_limbs") (join_quoted d.redc_limbs)
            ++ (list_line (codes "signature_limbs") (join_quoted d.sig_limbs)
                ++ (list_line (codes "pubkey_modulus_limbs") (join_quoted d.modulus_limbs)
                    ++ (list_line (codes "_session_pub") (join_ints d.session_pub)
                        ++ (newline
                            ++ (codes "[data]"
                                ++ (newline
                                    ++ (list_line (codes "storage") (join_ints d.data_storage)
                                        ++ (number_line (codes "len") d.data_len
                                            ++ newline))))))))))

-- The text that `writeProverToml` writes to the file.
unfoldable pub write_prover_toml : ProverData → Result Text
unfolding write_bounded_vec toml_head
write_prover_toml d = do
  iss ← write_bounded_vec (codes "expected_iss") d.iss bounded_vec_max_len
  sub ← write_bounded_vec (codes "expected_sub") d.sub bounded_vec_max_len
  aud ← write_bounded_vec (codes "expected_aud") d.aud bounded_vec_max_len
  azp ← write_bounded_vec (codes "expected_azp") d.azp bounded_vec_max_len
  ok (toml_head d ++ (iss ++ (sub ++ (aud ++ azp))))
