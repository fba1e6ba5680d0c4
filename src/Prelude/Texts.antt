-- ===== src/Prelude/Texts.antt =====
-- Go strings and byte slices: lists of bytes, with the tests that the source makes on them.
use Prim.Native.Nat.{ℕ, ◌+◌, ◌<◌}
use Prim.Native.Char.{code}
use Prim.Native.String.{String}
use mathlib.Core.Bool.{Bool, true, false, ◌&&◌, ◌||◌}
use mathlib.Core.Path.{◌≡◌, refl}
use mathlib.Core.List.{List, [], ◌∷◌, map}
use native.Mathlib.Omega.{arith}
use signet_min_bundler.Prelude.Tests.{◌==◌, leb, if◌then◌else◌}
use signet_min_bundler.Prelude.Lists.{length, All}

abbrev pub Bytes : Type 0
Bytes = List ℕ

abbrev pub Text : Type 0
Text = List ℕ

-- The code points of a text literal: its bytes, for the ASCII literals of the source.
abbrev pub codes : String → Text
codes String.[] = []
codes (String.◌∷◌ c s) = code c ∷ codes s

abbrev pub IsByte : ℕ → Type 0
IsByte b = b < 256

-- `[n]byte`: a fixed number of bytes.
pub record IsArray (n : ℕ) (b : Bytes) : Type 0 where
  pub len : length b ≡ n
  pub bytes : All IsByte b

-- `bytes.Equal`, and `==` on strings and on byte arrays.
abbrev pub equal : Bytes → Bytes → Bool
equal [] [] = true
equal [] (y ∷ ys) = false
equal (x ∷ xs) [] = false
equal (x ∷ xs) (y ∷ ys) = x == y && equal xs ys

-- `strings.HasPrefix s p`
abbrev pub has_prefix : Text → Text → Bool
has_prefix s [] = true
has_prefix [] (y ∷ ys) = false
has_prefix (x ∷ xs) (y ∷ ys) = x == y && has_prefix xs ys

-- `strings.Contains s p`
abbrev pub contains : Text → Text → Bool
contains [] p = has_prefix [] p
contains (x ∷ xs) p = has_prefix (x ∷ xs) p || contains xs p

abbrev pub lower : ℕ → ℕ
lower c = if leb b'A' c && leb c b'Z' then c + 32 else c

-- `strings.ToLower`, on ASCII.
abbrev pub to_lower : Text → Text
to_lower = map lower

pub equal-eq : (xs ys : Bytes) → equal xs ys ≡ true → xs ≡ ys
equal-eq [] [] h = refl
equal-eq [] (y ∷ ys) h = cc
equal-eq (x ∷ xs) [] h = cc
equal-eq (x ∷ xs) (y ∷ ys) h = ground (arith, equal-eq xs ys)

pub equal_self : (xs : Bytes) → equal xs xs ≡ true
equal_self [] = refl
equal_self (x ∷ xs) = ground (arith, equal_self xs)

pub equal_comm : (xs ys : Bytes) → equal xs ys ≡ equal ys xs
equal_comm [] [] = refl
equal_comm [] (y ∷ ys) = refl
equal_comm (x ∷ xs) [] = refl
equal_comm (x ∷ xs) (y ∷ ys) = ground (arith, equal_comm xs ys)
