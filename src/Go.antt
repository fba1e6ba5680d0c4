-- ===== src/Go.antt =====
-- Values and operations of Go that the source computes with: results, `int` as a 64-bit word,
-- `big.Int` as an unbounded integer, slices with their bounds checks, `copy`.
pub mod Copy
pub mod Regions
pub mod Results
pub mod Writes
use signet_min_bundler.Prelude.{
  ℕ, zero, suc, ◌+◌, ◌-◌, ◌*◌, ◌==◌, ◌^◌, ◌%◌, ◌<◌, ◌≤◌, min, ◌≡◌, refl, Bool, true, false, ◌&&◌,
  List, [], ◌∷◌, ◌++◌, arith, ltb, leb, if◌then◌else◌, Bytes, Text, length, take, drop, replicate,
}

-- A call returns a value, returns an error (its text), or panics.
pub data Result {ℓ} (A : Type ℓ) : Type ℓ where
  ok : A → Result A
  err : Text → Result A
  panic : Result A

-- What a call of an interface answers: a value, or an error's text.
pub data Answer {ℓ} (A : Type ℓ) : Type ℓ where
  answer : A → Answer A
  failure : Text → Answer A

infixl 5 ◌>>=◌ ◌>>◌
abbrev pub ◌>>=◌ {ℓ κ} : {A : Type ℓ} {B : Type κ} → Result A → (A → Result B) → Result B
panic >>= next = panic
err text >>= next = err text
ok v >>= next = next v

abbrev pub ◌>>◌ {ℓ} : {A : Type ℓ} → Result (Unit {0}) → Result A → Result A
check >> rest = check >>= λ _. rest

-- `if !b { return e }`
abbrev pub guard : Bool → Text → Result (Unit {0})
guard false text = err text
guard true text = ok tt

-- `fmt.Errorf("context: %w", err)`; `context` comes with its colon and blank.
abbrev pub wrap {ℓ} : {A : Type ℓ} → Text → Result A → Result A
wrap context (ok a) = ok a
wrap context (err e) = err (context ++ e)
wrap context panic = panic

-- `big.Int`, and `int` as the integer that the 64-bit word stands for.
-- `negsuc n` is -(n + 1).
pub data ℤ : Type 0 where
  pos : ℕ → ℤ
  negsuc : ℕ → ℤ

-- `a - b` of two numbers.
abbrev pub sub_ℕ : ℕ → ℕ → ℤ
sub_ℕ a b = if leb b a then pos (a - b) else negsuc (b - a - 1)

abbrev pub word : ℕ
word = 2 ^ 64

abbrev pub half_word : ℕ
half_word = 2 ^ 63

-- `v.Uint64()` of a `big.Int` that is not negative: its low 64 bits.
abbrev pub uint64_of : ℕ → ℕ
uint64_of n = n % word

-- The two's complement reading of the low 64 bits. `v.Int64()` of a `big.Int` that is not negative.
abbrev pub int64_of : ℕ → ℤ
int64_of n = let low = n % word in if ltb low half_word then pos low else negsuc (word - low - 1)

-- The 64-bit word of an `int`.
abbrev pub bits_of : ℤ → ℕ
bits_of (pos n) = n % word
bits_of (negsuc n) = word - 1 - n % word

-- `a + b` on `int`, which wraps.
abbrev pub add64 : ℤ → ℤ → ℤ
add64 a b = int64_of (bits_of a + bits_of b)

-- `a < b`
abbrev pub lt_int : ℤ → ℤ → Bool
lt_int (pos a) (pos b) = ltb a b
lt_int (pos a) (negsuc b) = false
lt_int (negsuc a) (pos b) = true
lt_int (negsuc a) (negsuc b) = ltb b a

-- The magnitude of a `big.Int`, which `Bytes()` writes.
abbrev pub abs : ℤ → ℕ
abs (pos n) = n
abs (negsuc n) = suc n

-- `data[lo:hi]`. It panics unless 0 ≤ lo ≤ hi ≤ len(data). (Go allows `hi` up to the capacity; the
-- source compares `hi` with the length first, or `hi` is then below `lo`.)
abbrev pub slice : Bytes → ℤ → ℤ → Result Bytes
slice xs (pos lo) (pos hi) =
    if leb lo hi && leb hi (length xs) then ok (take (hi - lo) (drop lo xs)) else panic
slice xs _ _ = panic

-- `make([]byte, n)`, and what it panics on.
abbrev pub make_len : ℤ → Result ℕ
make_len (pos n) = ok n
make_len (negsuc n) = panic

-- The bytes of `make([]byte, n)`.
abbrev pub zeros : ℕ → Bytes
zeros n = replicate n 0

-- `data[lo:hi]` at bounds that the source has checked.
unfoldable pub sub : Bytes → ℕ → ℕ → Bytes
sub xs lo hi = take (hi - lo) (drop lo xs)

-- `copy(buf[lo:hi], src)`, for lo ≤ hi ≤ len(buf): as many bytes as both sides have.
unfoldable pub copy_at : Bytes → ℕ → ℕ → Bytes → Bytes
copy_at buf lo hi src =
    let n = min (hi - lo) (length src) in take lo buf ++ (take n src ++ drop (lo + n) buf)

-- `a.Mul(a, b)` for a factor that is not negative, and `a.Add(a, b)`, on `big.Int`.
abbrev pub scale : ℤ → ℕ → ℤ
scale (pos n) k = pos (n * k)
scale (negsuc n) k = if k == 0 then pos 0 else negsuc ((n + 1) * k - 1)

abbrev pub add_int : ℤ → ℤ → ℤ
add_int (pos a) (pos b) = pos (a + b)
add_int (pos a) (negsuc b) = sub_ℕ a (b + 1)
add_int (negsuc a) (pos b) = sub_ℕ b (a + 1)
add_int (negsuc a) (negsuc b) = negsuc (a + b + 1)
