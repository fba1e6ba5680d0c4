-- ===== src/Tests/Signatures.antt =====
-- The signature of the command that sends operations, over a group of two elements.
use mathlib.Core.Path.{subst}
use signet_min_bundler.Prelude.{
  codes, ◌≡◌, refl, sym, inl, inr, Bool, true, false, not, ◌&&◌, ◌==◌, ◌%◌, some, if◌then◌else◌, [],
  ◌∷◌, ◌++◌, Bytes, Text,
}
use signet_min_bundler.Go.{Answer, failure, Result, ok, answer, zeros, copy_at, sub}
use signet_min_bundler.Hex.{decode_hex, decode_hex_parts, hex_decode, trim_prefix, bytes_to_hex}
use signet_min_bundler.Core.Crypto.{first_byte}
use signet_min_bundler.Core.Crypto.Reference.{os2ip, challenge}
use signet_min_bundler.SendUserOp.Sign.{Frost, derive_public_key, frost_sign}
use signet_min_bundler.SendUserOp.Verify.{Group, verify_frost_sig}
use signet_min_bundler.SendUserOp.Schnorr.{IsCompressed, Codec, GroupLaws, IsSignatureBy, FrostLaws}
use signet_min_bundler.SendUserOp.Verified.{verify_frost_sig-frost_sign}

-- The group of two elements, which Booleans encode, and its signatures.
abbrev parity_of : Bytes → Bool
parity_of b = os2ip b % 2 == 1

abbrev flip : Bool → Bool → Bool
flip true b = not b
flip false b = b

abbrev toggles : Group Bool Bool
toggles = record {
  decode_scalar = λ b. some (parity_of b);
  decode_point = λ b. some (first_byte b == 3);
  base_times = λ z. z;
  times = λ p c. p && c;
  add_points = flip;
  same_point = λ p q. not (flip p q);
}

abbrev toggle_codec : Codec Bool Bool
toggle_codec = record {
  is_identity = λ p. not p;
  encode_point = λ p. (if p then 3 else 2) ∷ zeros 32;
  encode_scalar = λ s. zeros 31 ++ (if s then 1 else 0) ∷ [];
  scalar_of = λ n. n % 2 == 1;
  add_scalars = flip;
  mul_scalars = λ s c. s && c;
}

scalar_back : (s : Bool) → toggles.decode_scalar (toggle_codec.encode_scalar s) ≡ some s
unfolding os2ip
scalar_back true = refl
scalar_back false = refl

toggle_laws : GroupLaws toggles toggle_codec
toggle_laws = record {
  length_point = λ p h. refl;
  compressed = prefix;
  point_back = back;
  scalar_back = scalar_back;
  scalar_read = λ b l h. refl;
  linear = λ k s c. refl;
  same_self = same;
}
  where
    prefix : (p : Bool) → not p ≡ false → IsCompressed (toggle_codec.encode_point p)
    prefix true h = inr refl
    prefix false h = inl refl

    back : (p : Bool) → not p ≡ false → toggles.decode_point (toggle_codec.encode_point p) ≡ some p
    back true h = refl
    back false h = refl

    same : (p : Bool) → not (flip p p) ≡ true
    same true = refl
    same false = refl

abbrev nines : Bytes → Bytes
nines b = 9 ∷ zeros 31

abbrev toggle_sign : Bytes → Bytes → Bytes × Bytes
toggle_sign priv_key message =
    let s = parity_of priv_key in
    let r = toggle_codec.encode_point true in
    let c = challenge nines r (toggle_codec.encode_point s) message % 2 == 1 in
    (r, toggle_codec.encode_scalar (flip true (s && c)))

abbrev public_of : Bool → Answer Bytes
public_of true = answer (toggle_codec.encode_point true)
public_of false = failure (codes "identity")

abbrev toggle_frost : Frost
toggle_frost = record {
  public_key = λ k. public_of (parity_of k);
  sign = λ k m. answer (toggle_sign k m);
}

toggle_frost_laws : FrostLaws toggles toggle_codec nines toggle_frost
toggle_frost_laws = record {
  derives =
      λ k p e. let (real, same) = derived (parity_of k) p e in (parity_of k, refl, real, same);
  signs = λ k m r z e. (
    parity_of k,
    refl,
    subst (λ p. IsSignatureBy toggles toggle_codec nines (parity_of k) m p.0 p.1) (made e)
        (record { nonce = true; nonzero = refl; r = refl; z = refl }),
  );
}
  where
    public : {p q : Bytes} → answer p ≡ answer q → p ≡ q
    public e = cc

    derived :
        (s : Bool) (p : Bytes)
        → public_of s ≡ answer p
        → (not s ≡ false) × (p ≡ toggle_codec.encode_point s)
    derived true p e = (refl, sym (public e))
    derived false p e = cc

    made : {p q : Bytes × Bytes} → answer p ≡ answer q → p ≡ q
    made e = cc

abbrev odd_key : Text
odd_key = bytes_to_hex (zeros 31 ++ 1 ∷ [])

abbrev made_signature : Result Bytes → Bytes
made_signature (ok sig) = sig
made_signature _ = []

toggled :
    frost_sign toggle_frost odd_key (7 ∷ [])
    ≡ ok (made_signature (frost_sign toggle_frost odd_key (7 ∷ [])))
unfolding frost_sign decode_hex decode_hex_parts hex_decode trim_prefix bytes_to_hex copy_at sub
toggled = refl

toggle_key : derive_public_key toggle_frost odd_key ≡ ok (3 ∷ zeros 32)
unfolding derive_public_key decode_hex decode_hex_parts hex_decode trim_prefix bytes_to_hex os2ip
toggle_key = refl

verify_frost_sig-frost_sign_example :
    verify_frost_sig toggles nines
      (made_signature (frost_sign toggle_frost odd_key (7 ∷ [])))
      (7 ∷ [])
      (3 ∷ zeros 32)
    ≡ true
verify_frost_sig-frost_sign_example =
    verify_frost_sig-frost_sign toggles toggle_codec toggle_laws nines toggle_frost
      toggle_frost_laws odd_key (7 ∷ [])
      {sig = made_signature (frost_sign toggle_frost odd_key (7 ∷ []))} {pub_key = 3 ∷ zeros 32}
      toggle_key toggled
