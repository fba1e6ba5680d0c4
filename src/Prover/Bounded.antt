-- ===== src/Prover/Bounded.antt =====
-- The claims that fit the circuit's bounded vectors.
use signet_min_bundler.Prelude.{
  replicate, ◌-◌, ◌≤◌, ◌<◌, ◌≡◌, refl, ◌⊎◌, inl, inr, arith, leb, Bytes, Text, length, Bool-cases,
  ◌++◌, codes,
}
use signet_min_bundler.Go.{ok, panic}
use signet_min_bundler.Prover.Toml.{
  ProverData, bounded_vec_max_len, storage_of, vec_lines, write_bounded_vec, write_prover_toml,
  toml_head,
}

-- Whether the four claims fit.
pub record HasShortClaims (d : ProverData) : Type 0 where
  pub iss : length d.iss ≤ 128
  pub sub : length d.sub ≤ 128
  pub aud : length d.aud ≤ 128
  pub azp : length d.azp ≤ 128

write_bounded_vec-cases :
    (name value : Bytes)
    → ((length value ≤ 128)
        × ((text : Text) × (write_bounded_vec name value bounded_vec_max_len ≡ ok text)))
      ⊎ ((128 < length value) × (write_bounded_vec name value bounded_vec_max_len ≡ panic))
unfolding write_bounded_vec storage_of
write_bounded_vec-cases name value = elim (Bool-cases (leb (length value) 128)) [
  | inl fits ↦ inl (
    ground arith,
    (vec_lines name value (value ++ replicate (128 - length value) 0), rw fits refl),
  )
  | inr long ↦ inr (ground arith, rw long refl)
]

-- The text of the prover's input file is made exactly if the issuer, the subject, the audience
-- and the authorized party have at most 128 bytes each; otherwise the writing panics, and no
-- error is returned.
pub write_prover_toml-cases :
    (d : ProverData)
    → (HasShortClaims d × ((text : Text) × (write_prover_toml d ≡ ok text)))
      ⊎ ((HasShortClaims d → ⊥) × (write_prover_toml d ≡ panic))
unfolding write_prover_toml
write_prover_toml-cases d = elim (write_bounded_vec-cases (codes "expected_iss") d.iss) [
  | inr (long, p) ↦ inr (λ h. absurd (omega (arith, long, h.iss)), rw p refl)
  | inl (iss, (t1, e1)) ↦ elim (write_bounded_vec-cases (codes "expected_sub") d.sub) [
    | inr (long, p) ↦ inr (λ h. absurd (omega (arith, long, h.sub)), rw (e1, p) refl)
    | inl (sub, (t2, e2)) ↦ elim (write_bounded_vec-cases (codes "expected_aud") d.aud) [
      | inr (long, p) ↦ inr (λ h. absurd (omega (arith, long, h.aud)), rw (e1, e2, p) refl)
      | inl (aud, (t3, e3)) ↦ elim (write_bounded_vec-cases (codes "expected_azp") d.azp) [
        | inr (long, p) ↦ inr (λ h. absurd (omega (arith, long, h.azp)), rw (e1, e2, e3, p) refl)
        | inl (azp, (t4, e4)) ↦ inl (
          record { iss = iss; sub = sub; aud = aud; azp = azp },
          (toml_head d ++ (t1 ++ (t2 ++ (t3 ++ t4))), rw (e1, e2, e3, e4) refl),
        )
      ]
    ]
  ]
]
