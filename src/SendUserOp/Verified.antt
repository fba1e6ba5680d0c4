-- ===== src/SendUserOp/Verified.antt =====
-- The signatures that `frostSign` of cmd/send-userop/main.go makes, in `verifyFrostSig`.
use mathlib.Core.Path.{subst}
use signet_min_bundler.Prelude.{
  false, ℕ, ◌<◌, ◌++◌, some, true, [], ◌∷◌, ◌==◌, if◌then◌else◌, Bytes, Text, length, take, drop,
  ◌≡◌, refl, ap, ◌∙◌, sym, arith, inl, inr, append-nil,
}
use signet_min_bundler.Go.{ok, pos, Answer, answer, failure, zeros, sub, copy_at}
use signet_min_bundler.Go.Copy.{copy_at-middle, take_of_length}
use signet_min_bundler.Hex.{decode_hex, pad_left32, big_bytes}
use signet_min_bundler.Hex.Laws.{set_bytes-word, length-word}
use signet_min_bundler.Core.Crypto.{first_byte, frost_challenge}
use signet_min_bundler.Core.Crypto.Reference.{
  os2ip, os2ip-set_bytes, secp256k1_order, challenge, challenge_lt, frost_challenge-challenge,
}
use signet_min_bundler.SendUserOp.Sign.{Frost, answer_of, odd_bit, derive_public_key, frost_sign}
use signet_min_bundler.SendUserOp.Signature.{HoldsSignature, frost_sign-IsSigned}
use signet_min_bundler.SendUserOp.Schnorr.{IsCompressed, Codec, GroupLaws, IsSignatureBy, FrostLaws}
use signet_min_bundler.SendUserOp.Verify.{Group, r_compressed, check_equation, verify_frost_sig}

first_byte-take : (l : Bytes) (c : ℕ) → take 1 l ≡ c ∷ [] → first_byte l ≡ c
first_byte-take [] c e = cc
first_byte-take (b ∷ l) c e = cc

-- The prefix of an encoded point, from its parity.
prefix_back :
    (v b : ℕ) (r : Bytes)
    → IsCompressed (b ∷ r)
    → v ≡ odd_bit (b ∷ r)
    → (if v == 0 then 2 else 3) ≡ b
prefix_back v b r (inl even) e = ground (arith, e, even)
prefix_back v b r (inr odd) e = ground (arith, e, odd)

with_prefix :
    (p : ℕ) (src : Bytes)
    → length src ≡ 32
    → copy_at (copy_at (zeros 33) 0 1 (p ∷ [])) 1 33 src ≡ p ∷ src
with_prefix p src l =
    let started : copy_at (zeros 33) 0 1 (p ∷ []) ≡ p ∷ zeros 32 = unfold copy_at in refl in
    ap (λ z. copy_at z 1 33 src) started
    ∙ copy_at-middle 1 33 (p ∷ []) (zeros 32) [] src refl (omega (arith, l)) (sym l)
    ∙ append-nil (p ∷ src)

-- The point is put together again from a signature.
r_compressed-HoldsSignature :
    (sig r_enc z_enc : Bytes)
    → length r_enc ≡ 33
    → IsCompressed r_enc
    → HoldsSignature sig r_enc z_enc
    → r_compressed sig ≡ r_enc
unfolding r_compressed
r_compressed-HoldsSignature sig [] z_enc l p h = absurd (omega (arith, l))
r_compressed-HoldsSignature sig (b ∷ r) z_enc l p h =
    let rest : sub sig 0 32 ≡ r = h.r_x ∙ (unfold sub in take_of_length 32 r (omega (arith, l))) in
    let v : first_byte (drop 64 sig) ≡ odd_bit (b ∷ r) =
      first_byte-take (drop 64 sig) (odd_bit (b ∷ r)) (unfold sub in h.parity) in
    ap
      (λ z.
        copy_at (copy_at (zeros 33) 0 1 ((if first_byte (drop 64 sig) == 0 then 2 else 3) ∷ [])) 1
          33 z)
      rest
    ∙ with_prefix (if first_byte (drop 64 sig) == 0 then 2 else 3) r (omega (arith, l))
    ∙ ap (λ n. n ∷ r) (prefix_back (first_byte (drop 64 sig)) b r p v)

module _ {Scalar Point : Type 0} (g : Group Scalar Point) (e : Codec Scalar Point)
    (laws : GroupLaws g e) (sha256 : Bytes → Bytes) where
  -- The challenge, from its 32 bytes.
  challenge_read :
      (r_enc pk_enc message : Bytes)
      → g.decode_scalar
          (pad_left32 (big_bytes (pos (frost_challenge sha256 (r_enc ++ (pk_enc ++ message))))))
        ≡ some (e.scalar_of (challenge sha256 r_enc pk_enc message))
  challenge_read r_enc pk_enc message =
      let c = challenge sha256 r_enc pk_enc message in
      ap (λ n. g.decode_scalar (pad_left32 (big_bytes (pos n))))
        (frost_challenge-challenge sha256 r_enc pk_enc message)
      ∙ scalar_read-word c (challenge_lt sha256 r_enc pk_enc message)
    where
      scalar_read-word :
          (n : ℕ)
          → n < secp256k1_order
          → g.decode_scalar (pad_left32 (big_bytes (pos n))) ≡ some (e.scalar_of n)
      scalar_read-word n h =
          let value : os2ip (pad_left32 (big_bytes (pos n))) ≡ n =
            os2ip-set_bytes (pad_left32 (big_bytes (pos n))) ∙ set_bytes-word (pos n) in
          laws.scalar_read (pad_left32 (big_bytes (pos n))) (length-word (pos n) (omega (arith, h)))
            (omega (arith, h, value))
          ∙ ap (λ k. some (e.scalar_of k)) value

  -- A signature by the RFC satisfies the equation.
  check_equation-IsSignatureBy :
      (s : Scalar) (message r_enc z_enc : Bytes)
      → e.is_identity (g.base_times s) ≡ false
      → IsSignatureBy g e sha256 s message r_enc z_enc
      → check_equation g sha256 r_enc z_enc (e.encode_point (g.base_times s)) message ≡ true
  unfolding check_equation
  check_equation-IsSignatureBy s message r_enc z_enc real signed =
      let c = e.scalar_of (challenge sha256 r_enc (e.encode_point (g.base_times s)) message) in
      rw
        (
          ap g.decode_scalar signed.z
              ∙ laws.scalar_back (e.add_scalars signed.nonce (e.mul_scalars s c)),
          ap g.decode_point signed.r ∙ laws.point_back (g.base_times signed.nonce) signed.nonzero,
          laws.point_back (g.base_times s) real,
          challenge_read r_enc (e.encode_point (g.base_times s)) message,
          laws.linear signed.nonce s c,
        )
        (laws.same_self (g.add_points (g.base_times signed.nonce) (g.times (g.base_times s) c)))

  module _ (frost : Frost) (frost_laws : FrostLaws g e sha256 frost) where
    -- The key that derives the public key is the one that signs.
    derived_by :
        (priv_key_hex : Text) (priv_key pub_key : Bytes) (s : Scalar)
        → decode_hex priv_key_hex ≡ ok priv_key
        → g.decode_scalar priv_key ≡ some s
        → derive_public_key frost priv_key_hex ≡ ok pub_key
        → (e.is_identity (g.base_times s) ≡ false) × (pub_key ≡ e.encode_point (g.base_times s))
    unfolding derive_public_key
    derived_by priv_key_hex priv_key pub_key s d k h =
        let made = answer_of-eq-ok (frost.public_key priv_key) (rw d at h) in
        let (s', k', real, named) = frost_laws.derives priv_key pub_key made in
        let same = one (sym k' ∙ k) in
        (
          subst (λ z. e.is_identity (g.base_times z) ≡ false) same real,
          named ∙ ap (λ z. e.encode_point (g.base_times z)) same,
        )
      where
        one : {a b : Scalar} → some a ≡ some b → a ≡ b
        one h = cc

        answer_of-eq-ok : (a : Answer Bytes) → answer_of a ≡ ok pub_key → a ≡ answer pub_key
        answer_of-eq-ok (answer b) h = cc
        answer_of-eq-ok (failure m) h = cc

    -- If the encodings of scalars and of points other than the identity read back, scalars act
    -- linearly on points, and the FROST library derives public keys other than the identity and
    -- signs by RFC 9591 with one signer (R is the point of a nonce k and not the identity, and z
    -- = k + s·c for the RFC's challenge c of R, the public key and the message), then
    -- verifyFrostSig accepts whatever frostSign returns, for the public key that derivePublicKey
    -- gives of the same private key.
    pub verify_frost_sig-frost_sign :
        (priv_key_hex : Text) (message : Bytes) {sig pub_key : Bytes}
        → derive_public_key frost priv_key_hex ≡ ok pub_key
        → frost_sign frost priv_key_hex message ≡ ok sig
        → verify_frost_sig g sha256 sig message pub_key ≡ true
    unfolding verify_frost_sig
    verify_frost_sig-frost_sign priv_key_hex message {sig} {pub_key} derives signs =
        let i = frost_sign-IsSigned frost priv_key_hex message signs in
        let (s, k, signed) = frost_laws.signs i.priv_key message i.r_enc i.z_enc i.made in
        let (real, pk) = derived_by priv_key_hex i.priv_key pub_key s i.decoded k derives in
        let prefix =
          subst IsCompressed (sym signed.r)
            (laws.compressed (g.base_times signed.nonce) signed.nonzero) in
        let point =
          r_compressed-HoldsSignature sig i.r_enc i.z_enc i.layout.r_len prefix i.layout in
        rw (pk, i.layout.len, laws.length_point (g.base_times s) real, point, i.layout.z)
          (check_equation-IsSignatureBy s message i.r_enc i.z_enc real signed)
