-- ===== src/SendUserOp/Signature.antt =====
-- The signature that `frostSign` of cmd/send-userop/main.go makes.
use signet_min_bundler.Prelude.{
  ◌≡◌, refl, inl, inr, not, ◌||◌, List, [], ◌∷◌, ◌==◌, arith, Bytes, Text, codes, length,
  length-take, length-drop, drop, All, Bool-cases,
}
use signet_min_bundler.Go.{ok, ◌>>=◌, wrap, Answer, answer, failure, zeros, sub}
use signet_min_bundler.Go.Results.{>>=-eq-ok, wrap-eq-ok}
use signet_min_bundler.Go.Writes.{
  Write, IsSized, write_all, apart, disjoint, length-write_all, write_all-Holds,
}
use signet_min_bundler.Hex.{decode_hex}
use signet_min_bundler.SendUserOp.Sign.{Frost, answer_of, odd_bit, signature_of, frost_sign}

-- The layout of a signature of a point and a scalar.
pub record HoldsSignature (sig r_enc z_enc : Bytes) : Type 0 where
  pub r_len : length r_enc ≡ 33
  pub len : length sig ≡ 65
  pub r_x : sub sig 0 32 ≡ sub r_enc 1 33
  pub z : sub sig 32 64 ≡ z_enc
  pub parity : sub sig 64 65 ≡ odd_bit r_enc ∷ []

signature_writes : Bytes → Bytes → List Write
signature_writes r_enc z_enc =
    record { lo = 0; hi = 32; src = sub r_enc 1 33 }
    ∷ record { lo = 32; hi = 64; src = z_enc }
    ∷ record { lo = 64; hi = 65; src = odd_bit r_enc ∷ [] }
    ∷ []

signature_writes-IsSized :
    (r_enc z_enc : Bytes)
    → length r_enc ≡ 33
    → length z_enc ≡ 32
    → All (IsSized 65) (signature_writes r_enc z_enc)
unfolding signature_writes sub
signature_writes-IsSized r_enc z_enc h k = (
  record {
    size = omega (arith, length-take 32 (drop 1 r_enc), length-drop 1 r_enc, h);
    inside = omega arith;
  },
  (
    record { size = omega (arith, k); inside = omega arith },
    (record { size = refl; inside = omega arith }, tt),
  ),
)

signature_of-HoldsSignature :
    (r_enc z_enc : Bytes) {sig : Bytes}
    → signature_of r_enc z_enc ≡ ok sig
    → HoldsSignature sig r_enc z_enc
unfolding signature_of signature_writes write_all
signature_of-HoldsSignature r_enc z_enc {sig} e =
    elim (Bool-cases (not (length r_enc == 33) || not (length z_enc == 32))) [
      | inl bad ↦ absurd (ground (arith, bad, e))
      | inr good ↦
          let sized =
            signature_writes-IsSized r_enc z_enc (ground (arith, good)) (ground (arith, good)) in
          let whole : write_all (signature_writes r_enc z_enc) (zeros 65) ≡ sig =
            bytes_of (rw good at e) in
          let parts =
            write_all-Holds 65 (signature_writes r_enc z_enc) (zeros 65) sized refl
              (unfold disjoint apart in refl) in
          rw (← whole) (record {
            r_len = ground (arith, good);
            len = length-write_all 65 (signature_writes r_enc z_enc) (zeros 65) sized refl;
            r_x = parts.0;
            z = parts.1.0;
            parity = parts.1.1.0;
          })
    ]
  where
    bytes_of : {a b : Bytes} → ok a ≡ ok b → a ≡ b
    bytes_of e = cc

-- Signed: the library signed the message with the 32 bytes of the key, and the signature has what
-- it gave.
pub record IsSigned (frost : Frost) (priv_key_hex : Text) (message sig : Bytes) : Type 0 where
  pub priv_key : Bytes
  pub r_enc : Bytes
  pub z_enc : Bytes
  pub decoded : decode_hex priv_key_hex ≡ ok priv_key
  pub key_len : length priv_key ≡ 32
  pub made : frost.sign priv_key message ≡ answer (r_enc, z_enc)
  pub layout : HoldsSignature sig r_enc z_enc

-- If frostSign gives a signature: the text of the key decodes to 32 bytes, the FROST library
-- signed the message with them, and the signature is 65 bytes: the encoded point without its
-- first byte, then the 32 bytes of the scalar, then 1 if that first byte is 3 and 0 otherwise.
pub frost_sign-IsSigned :
    (frost : Frost) (priv_key_hex : Text) (message : Bytes) {sig : Bytes}
    → frost_sign frost priv_key_hex message ≡ ok sig
    → IsSigned frost priv_key_hex message sig
unfolding frost_sign
frost_sign-IsSigned frost priv_key_hex message {sig} e =
    let (key, d, rest) =
      >>=-eq-ok (wrap (codes "decode private key: ") (decode_hex priv_key_hex)) _ e in
    elim (Bool-cases (not (length key == 32))) [
      | inl bad ↦ absurd (ground (arith, bad, rest))
      | inr good ↦
          answered key (wrap-eq-ok (codes "decode private key: ") _ d) (ground (arith, good))
            (frost.sign key message) refl (rw good at rest)
    ]
  where
    answered :
        (key : Bytes)
        → decode_hex priv_key_hex ≡ ok key
        → length key ≡ 32
        → (a : Answer (Bytes × Bytes)) → frost.sign key message ≡ a
        → (answer_of a >>= λ p. signature_of p.0 p.1) ≡ ok sig
        → IsSigned frost priv_key_hex message sig
    answered key d l (failure m) s e = cc
    answered key d l (answer (r_enc, z_enc)) s e = record {
      priv_key = key;
      r_enc = r_enc;
      z_enc = z_enc;
      decoded = d;
      key_len = l;
      made = s;
      layout = signature_of-HoldsSignature r_enc z_enc e;
    }
