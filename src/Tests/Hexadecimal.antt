-- ===== src/Tests/Hexadecimal.antt =====
-- The theorems on the conversions, at concrete inputs.
use signet_min_bundler.Prelude.{◌≡◌, ◌+◌, ◌%◌, ◌^◌, arith, length, some}
use signet_min_bundler.Go.{pos, negsuc, abs, sub}
use signet_min_bundler.Hex.{parse_int, int_text, set_bytes}
use signet_min_bundler.Hex.Laws.{parse_int-int_text}
use signet_min_bundler.Core.Pack.{pack_big_ints}
use signet_min_bundler.Core.Pack.Halves.{pack_big_ints_halves}

parse_int-int_text_example : parse_int 10 (int_text 10 (pos 12345)) ≡ some (pos 12345)
parse_int-int_text_example = parse_int-int_text 10 (omega arith) (omega arith) (pos 12345)

pack_big_ints_halves_example :
    (length (pack_big_ints (pos (2 ^ 128 + 7)) (negsuc 4)) ≡ 32)
    × (set_bytes (sub (pack_big_ints (pos (2 ^ 128 + 7)) (negsuc 4)) 0 16)
        ≡ abs (pos (2 ^ 128 + 7)) % 2 ^ 128)
    × (set_bytes (sub (pack_big_ints (pos (2 ^ 128 + 7)) (negsuc 4)) 16 32)
        ≡ abs (negsuc 4) % 2 ^ 128)
pack_big_ints_halves_example = pack_big_ints_halves (pos (2 ^ 128 + 7)) (negsuc 4)
