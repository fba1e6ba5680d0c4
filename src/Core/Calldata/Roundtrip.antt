-- ===== src/Core/Calldata/Roundtrip.antt =====
-- The calldata that `BuildExecuteCalldata` makes decodes to what it was made of.
use signet_min_bundler.Prelude.{
  ℕ, ◌+◌, ◌*◌, ◌/◌, ◌^◌, ◌<◌, ◌≤◌, ◌≡◌, refl, ap, ◌∙◌, false, [], ◌∷◌, ◌++◌, ltb, arith, Bytes,
  IsArray, codes, equal_self, length, length-replicate, length-take,
}
use signet_min_bundler.Go.{ok, ℤ, pos, abs, int64_of, add64, slice, zeros, sub, copy_at}
use signet_min_bundler.Go.Copy.{copy_at-right}
use signet_min_bundler.Go.Regions.{
  Fits, length-copy_at, sub-copy_at, sub-copy_at_before, sub-copy_at_after, sub-zeros, sub-split,
  copy_at_short,
}
use signet_min_bundler.Hex.{set_bytes, big_bytes, pad_left32}
use signet_min_bundler.Hex.Digits.{of_digits, value_from}
use signet_min_bundler.Hex.Laws.{length-word, set_bytes-word}
use signet_min_bundler.External.{External, ExternalLaws}
use signet_min_bundler.Core.Calldata.{
  execute_selector, read_inner, decode_signet_execute, length_word, build_execute_calldata,
}

module _ (x : External) (to : Bytes) (value : ℤ) (data_bytes : Bytes) (laws : ExternalLaws x)
    (address : IsArray 20 to) (fits : abs value < 256 ^ 32)
    (short : length data_bytes < 2 ^ 62) where
  abbrev padded : ℕ
  padded = (length data_bytes + 31) / 32 * 32

  abbrev size : ℕ
  size = 132 + (length data_bytes + 31) / 32 * 32

  enough : 132 + length data_bytes ≤ 4 + 32 + 32 + 32 + 32 + (length data_bytes + 31) / 32 * 32
  enough = omega arith

  length-selector : length (execute_selector x) ≡ 4
  unfolding execute_selector sub
  length-selector =
      length-take 4 (x.keccak256 (codes "execute(address,uint256,bytes)"))
      ∙ omega (arith, (laws.keccak256-IsArray (codes "execute(address,uint256,bytes)")).len)

  length-value : length (pad_left32 (big_bytes value)) ≡ 32
  length-value = length-word value fits

  length-length_word : length (length_word (length data_bytes)) ≡ 32
  unfolding length_word
  length-length_word = length-word (pos (length data_bytes)) (omega (arith, short))

  set_bytes-length_word : set_bytes (length_word (length data_bytes)) ≡ length data_bytes
  unfolding length_word
  set_bytes-length_word = set_bytes-word (pos (length data_bytes))

  -- The buffer, copy by copy.
  abbrev b0 : Bytes
  b0 = zeros (4 + 32 + 32 + 32 + 32 + (length data_bytes + 31) / 32 * 32)

  b1 : Bytes
  b1 = copy_at b0 0 4 (execute_selector x)

  b2 : Bytes
  b2 = copy_at b1 16 36 to

  b3 : Bytes
  b3 = copy_at b2 36 68 (pad_left32 (big_bytes value))

  b4 : Bytes
  b4 = copy_at b3 99 100 (96 ∷ [])

  b5 : Bytes
  b5 = copy_at b4 100 132 (length_word (length data_bytes))

  b6 : Bytes
  b6 = copy_at b5 132 (132 + length data_bytes) data_bytes

  build_parts : build_execute_calldata x to value data_bytes ≡ b6
  unfolding build_execute_calldata b6 b5 b4 b3 b2 b1
  build_parts =
      copy_at_short b5 132 (4 + 32 + 32 + 32 + 32 + (length data_bytes + 31) / 32 * 32) data_bytes
        enough

  length-b0 : 132 + length data_bytes ≤ length b0
  length-b0 = rw length-replicate enough

  f1 : Fits b0 0 4 (execute_selector x)
  f1 = record { size = omega (arith, length-selector); inside = omega (arith, length-b0) }

  length-b1 : 132 + length data_bytes ≤ length b1
  unfolding b1
  length-b1 = rw (length-copy_at b0 0 4 (execute_selector x) f1) length-b0

  f2 : Fits b1 16 36 to
  f2 = record { size = omega (arith, address.len); inside = omega (arith, length-b1) }

  length-b2 : 132 + length data_bytes ≤ length b2
  unfolding b2
  length-b2 = rw (length-copy_at b1 16 36 to f2) length-b1

  f3 : Fits b2 36 68 (pad_left32 (big_bytes value))
  f3 = record { size = omega (arith, length-value); inside = omega (arith, length-b2) }

  length-b3 : 132 + length data_bytes ≤ length b3
  unfolding b3
  length-b3 = rw (length-copy_at b2 36 68 (pad_left32 (big_bytes value)) f3) length-b2

  f4 : Fits b3 99 100 (96 ∷ [])
  f4 = record { size = omega arith; inside = omega (arith, length-b3) }

  length-b4 : 132 + length data_bytes ≤ length b4
  unfolding b4
  length-b4 = rw (length-copy_at b3 99 100 (96 ∷ []) f4) length-b3

  f5 : Fits b4 100 132 (length_word (length data_bytes))
  f5 = record { size = omega (arith, length-length_word); inside = omega (arith, length-b4) }

  length-b5 : 132 + length data_bytes ≤ length b5
  unfolding b5
  length-b5 = rw (length-copy_at b4 100 132 (length_word (length data_bytes)) f5) length-b4

  f6 : Fits b5 132 (132 + length data_bytes) data_bytes
  f6 = record { size = refl; inside = length-b5 }

  -- The regions before the last two words are those of the fourth copy.
  sub-b6 : (l h : ℕ) → l ≤ h → h ≤ 100 → sub b6 l h ≡ sub b4 l h
  unfolding b6 b5
  sub-b6 l h o e =
      sub-copy_at_before b5 132 (132 + length data_bytes) data_bytes l h f6 o (omega (arith, e))
      ∙ sub-copy_at_before b4 100 132 (length_word (length data_bytes)) l h f5 o e

  read_selector : sub b6 0 4 ≡ execute_selector x
  unfolding b4 b3 b2 b1
  read_selector =
      sub-b6 0 4 (omega arith) (omega arith)
      ∙ sub-copy_at_before b3 99 100 (96 ∷ []) 0 4 f4 (omega arith) (omega arith)
      ∙ sub-copy_at_before b2 36 68 (pad_left32 (big_bytes value)) 0 4 f3 (omega arith)
          (omega arith)
      ∙ sub-copy_at_before b1 16 36 to 0 4 f2 (omega arith) (omega arith)
      ∙ sub-copy_at b0 0 4 (execute_selector x) f1

  read_target : sub b6 16 36 ≡ to
  unfolding b4 b3 b2
  read_target =
      sub-b6 16 36 (omega arith) (omega arith)
      ∙ sub-copy_at_before b3 99 100 (96 ∷ []) 16 36 f4 (omega arith) (omega arith)
      ∙ sub-copy_at_before b2 36 68 (pad_left32 (big_bytes value)) 16 36 f3 (omega arith)
          (omega arith)
      ∙ sub-copy_at b1 16 36 to f2

  read_value : sub b6 36 68 ≡ pad_left32 (big_bytes value)
  unfolding b4 b3
  read_value =
      sub-b6 36 68 (omega arith) (omega arith)
      ∙ sub-copy_at_before b3 99 100 (96 ∷ []) 36 68 f4 (omega arith) (omega arith)
      ∙ sub-copy_at b2 36 68 (pad_left32 (big_bytes value)) f3

  untouched : sub b3 68 99 ≡ zeros 31
  unfolding b3 b2 b1
  untouched =
      sub-copy_at_after b2 36 68 (pad_left32 (big_bytes value)) 68 99 f3 (omega arith)
      ∙ sub-copy_at_after b1 16 36 to 68 99 f2 (omega arith)
      ∙ sub-copy_at_after b0 0 4 (execute_selector x) 68 99 f1 (omega arith)
      ∙ sub-zeros (4 + 32 + 32 + 32 + 32 + (length data_bytes + 31) / 32 * 32) 68 99 (omega arith)
          (omega arith)

  read_offset : sub b6 68 100 ≡ zeros 31 ++ (96 ∷ [])
  unfolding b4
  read_offset =
      sub-b6 68 100 (omega arith) (omega arith)
      ∙ sub-split b4 68 99 100 (omega arith) (omega arith)
      ∙ ap (λ z. z ++ sub b4 99 100)
          (sub-copy_at_before b3 99 100 (96 ∷ []) 68 99 f4 (omega arith) (omega arith) ∙ untouched)
      ∙ ap (λ z. zeros 31 ++ z) (sub-copy_at b3 99 100 (96 ∷ []) f4)

  read_length : sub b6 100 132 ≡ length_word (length data_bytes)
  unfolding b6 b5
  read_length =
      sub-copy_at_before b5 132 (132 + length data_bytes) data_bytes 100 132 f6 (omega arith)
        (omega arith)
      ∙ sub-copy_at b4 100 132 (length_word (length data_bytes)) f5

  read_data : sub b6 132 (132 + length data_bytes) ≡ data_bytes
  unfolding b6
  read_data = sub-copy_at b5 132 (132 + length data_bytes) data_bytes f6

  length-b6 : 132 + length data_bytes ≤ length b6
  unfolding b6
  length-b6 = rw (length-copy_at b5 132 (132 + length data_bytes) data_bytes f6) length-b5

  offset_is : set_bytes (zeros 31 ++ (96 ∷ [])) ≡ 96
  unfolding set_bytes of_digits value_from
  offset_is = refl

  slice-sub :
      (xs : Bytes) (l h : ℕ) → l ≤ h → h ≤ length xs → slice xs (pos l) (pos h) ≡ ok (sub xs l h)
  unfolding sub
  slice-sub xs l h o e = ground arith

  room : ltb (length b6) 132 ≡ false
  room = ground (arith, length-b6)

  whole : ltb (length b6) (132 + length data_bytes) ≡ false
  whole = ground (arith, length-b6)

  int64_small : int64_of (length data_bytes) ≡ pos (length data_bytes)
  int64_small = ground (arith, short)

  add64_small : add64 (pos 132) (pos (length data_bytes)) ≡ pos (132 + length data_bytes)
  add64_small = ground (arith, short)

  read_inner-b6 : read_inner b6 (pos 100) ≡ ok data_bytes
  unfolding read_inner
  read_inner-b6 =
      rw
        (
          room,
          slice-sub b6 100 132 (omega arith) (omega (arith, length-b6)),
          read_length,
          set_bytes-length_word,
          int64_small,
          add64_small,
        )
        (rw (
          whole,
          slice-sub b6 132 (132 + length data_bytes) (omega arith) length-b6,
          read_data,
          copy_at-right (length data_bytes) 0 data_bytes (omega arith),
        ))

  decode-b6 : decode_signet_execute x b6 ≡ ok (to, pos (abs value), data_bytes)
  unfolding decode_signet_execute
  decode-b6 = rw (
    long,
    read_selector,
    equal_self (execute_selector x),
    read_offset,
    offset_is,
    read_inner-b6,
    read_target,
    read_value,
    set_bytes-word value,
  )
    where
      long : ltb (length b6) 100 ≡ false
      long = ground (arith, length-b6)

  -- Calldata built for a 20-byte target, a value below 2^256 and less than 2^62 bytes of data
  -- decodes to the target, the magnitude of the value and the data, byte for byte, without a
  -- panic; Keccak-256 is only asked for 32 bytes.
  pub decode_signet_execute-build_execute_calldata :
      decode_signet_execute x (build_execute_calldata x to value data_bytes)
      ≡ ok (to, pos (abs value), data_bytes)
  decode_signet_execute-build_execute_calldata =
      ap (decode_signet_execute x) build_parts ∙ decode-b6
