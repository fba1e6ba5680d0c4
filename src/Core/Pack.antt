-- ===== src/Core/Pack.antt =====
-- internal/core/pack.go: two numbers in one 32-byte word, each in a 16-byte half.
pub mod Halves
pub mod Whole
use signet_min_bundler.Prelude.{
  ℕ, ◌-◌, ◌/◌, ◌%◌, ◌^◌, List, [], ◌∷◌, ◌++◌, Bytes, length, drop, ltb, if◌then◌else◌,
}
use signet_min_bundler.Go.{ℤ, copy_at, zeros}
use signet_min_bundler.Hex.{big_bytes}

-- `into128`, on a half that holds zeros.
unfoldable pub into128 : ℤ → Bytes
unfolding big_bytes
into128 v =
    let vb = big_bytes v in
    let kept = if ltb 16 (length vb) then drop (length vb - 16) vb else vb in
    copy_at (zeros 16) (16 - length kept) 16 kept

-- `PackBigInts`
unfoldable pub pack_big_ints : ℤ → ℤ → Bytes
unfolding into128
pack_big_ints hi lo = into128 hi ++ into128 lo

-- `binary.BigEndian.PutUint64`
unfoldable pub put_uint64 : ℕ → Bytes
put_uint64 n =
    (n / 2 ^ 56 % 256)
    ∷ (n / 2 ^ 48 % 256)
    ∷ (n / 2 ^ 40 % 256)
    ∷ (n / 2 ^ 32 % 256)
    ∷ (n / 2 ^ 24 % 256)
    ∷ (n / 2 ^ 16 % 256)
    ∷ (n / 2 ^ 8 % 256)
    ∷ (n % 256)
    ∷ []

-- `PackUint128s`
unfoldable pub pack_uint128s : ℕ → ℕ → Bytes
unfolding put_uint64
pack_uint128s hi lo = zeros 8 ++ (put_uint64 hi ++ (zeros 8 ++ put_uint64 lo))
