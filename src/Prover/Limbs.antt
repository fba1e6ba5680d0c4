-- ===== src/Prover/Limbs.antt =====
-- The limbs of a number, put together again.
use native.Mathlib.Nat.{mod-add-div, div-lt_iff_lt-mul, mod-lt, pow-suc, pow-zero}
use signet_min_bundler.Prelude.{
  ℕ, zero, suc, ◌+◌, ◌*◌, ◌/◌, ◌%◌, ◌^◌, ◌<◌, ◌≡◌, refl, ap, ◌∙◌, List, [], ◌∷◌, All, arith, length,
}
use signet_min_bundler.Prover.Toml.{limbs_of}

-- The number that little-endian limbs in base `b` stand for.
unfoldable pub of_limbs : ℕ → List ℕ → ℕ
of_limbs b [] = 0
of_limbs b (l ∷ ls) = l + b * of_limbs b ls

base_pos : (c : ℕ) → 0 < 2 ^ c
base_pos zero = omega arith
base_pos (suc c) = rw pow-suc (omega (arith, base_pos c))

pub record IsSplit (n chunk_bits num_chunks : ℕ) (limbs : List ℕ) : Type 0 where
  pub count : length limbs ≡ num_chunks
  pub bounded : All (λ l. l < 2 ^ chunk_bits) limbs
  pub whole : of_limbs (2 ^ chunk_bits) limbs ≡ n

-- A number below 2^(chunk_bits * num_chunks), written (2^chunk_bits)^num_chunks, is split into
-- num_chunks limbs, each below 2^chunk_bits, from which it is put together again.
pub limbs_of-IsSplit :
    (n chunk_bits num_chunks : ℕ)
    → n < (2 ^ chunk_bits) ^ num_chunks
    → IsSplit n chunk_bits num_chunks (limbs_of n chunk_bits num_chunks)
unfolding limbs_of of_limbs
limbs_of-IsSplit n chunk_bits zero h = record {
  count = refl;
  bounded = tt;
  whole = omega (arith, h, pow-zero (2 ^ chunk_bits));
}
limbs_of-IsSplit n chunk_bits (suc num_chunks) h =
    let small : n / 2 ^ chunk_bits < (2 ^ chunk_bits) ^ num_chunks =
      (div-lt_iff_lt-mul {y = (2 ^ chunk_bits) ^ num_chunks} (base_pos chunk_bits)).1
        (rw (← pow-suc (2 ^ chunk_bits) num_chunks) h) in
    let rest = limbs_of-IsSplit (n / 2 ^ chunk_bits) chunk_bits num_chunks small in
    record {
      count = ap suc rest.count;
      bounded = (mod-lt n (base_pos chunk_bits), rest.bounded);
      whole =
          ap (λ m. n % 2 ^ chunk_bits + 2 ^ chunk_bits * m) rest.whole
          ∙ mod-add-div n (2 ^ chunk_bits);
    }
