-- ===== src/SendUserOp/Schnorr.antt =====
-- What cmd/send-userop/main.go relies on in the FROST library (github.com/bytemare/frost and its
-- group, not in the repository): the encodings of secp256k1, and signatures by RFC 9591 with one
-- signer.
use signet_min_bundler.Prelude.{◌<◌, ◌≡◌, ◌⊎◌, true, false, Bool, some, Bytes, length, ℕ}
use signet_min_bundler.Go.{answer}
use signet_min_bundler.Core.Crypto.{first_byte}
use signet_min_bundler.Core.Crypto.Reference.{os2ip, secp256k1_order, challenge}
use signet_min_bundler.SendUserOp.Sign.{Frost}
use signet_min_bundler.SendUserOp.Verify.{Group}

-- An encoded point: its first byte is the parity of its y.
abbrev pub IsCompressed : Bytes → Type 0
IsCompressed r = (first_byte r ≡ 2) ⊎ (first_byte r ≡ 3)

-- The operations behind the library's encodings and signatures.
pub record Codec (Scalar Point : Type 0) : Type 0 where
  pub is_identity : Point → Bool
  pub encode_point : Point → Bytes
  pub encode_scalar : Scalar → Bytes
  pub scalar_of : ℕ → Scalar
  pub add_scalars : Scalar → Scalar → Scalar
  pub mul_scalars : Scalar → Scalar → Scalar

module _ {Scalar Point : Type 0} (g : Group Scalar Point) (e : Codec Scalar Point) where
  -- The encodings of scalars, and of points other than the identity, read back, a scalar below the
  -- order is read from its 32 bytes, and scalars act on points.
  pub record GroupLaws : Type 0 where
    pub length_point : (p : Point) → e.is_identity p ≡ false → length (e.encode_point p) ≡ 33
    pub compressed : (p : Point) → e.is_identity p ≡ false → IsCompressed (e.encode_point p)
    pub point_back :
        (p : Point) → e.is_identity p ≡ false → g.decode_point (e.encode_point p) ≡ some p
    pub scalar_back : (s : Scalar) → g.decode_scalar (e.encode_scalar s) ≡ some s
    pub scalar_read :
        (b : Bytes)
        → length b ≡ 32
        → os2ip b < secp256k1_order
        → g.decode_scalar b ≡ some (e.scalar_of (os2ip b))
    pub linear :
        (k s c : Scalar)
        → g.base_times (e.add_scalars k (e.mul_scalars s c))
          ≡ g.add_points (g.base_times k) (g.times (g.base_times s) c)
    pub same_self : (p : Point) → g.same_point p p ≡ true

  module _ (sha256 : Bytes → Bytes) where
    -- A signature by RFC 9591 for the secret s: R is the point of a nonce k and not the
    -- identity, and z = k + s·c for the challenge c of R, the public key and the message.
    pub record IsSignatureBy (s : Scalar) (message r_enc z_enc : Bytes) : Type 0 where
      pub nonce : Scalar
      pub nonzero : e.is_identity (g.base_times nonce) ≡ false
      pub r : r_enc ≡ e.encode_point (g.base_times nonce)
      pub z :
          z_enc
          ≡ e.encode_scalar (
              e.add_scalars nonce (
                e.mul_scalars s
                  (e.scalar_of (challenge sha256 r_enc (e.encode_point (g.base_times s)) message))))

    -- The library derives the public key of a private one, which is not the identity, and signs by
    -- the RFC.
    pub record FrostLaws (frost : Frost) : Type 0 where
      pub derives :
          (priv_key pub_key : Bytes)
          → frost.public_key priv_key ≡ answer pub_key
          → (s : Scalar) × (g.decode_scalar priv_key ≡ some s)
            × (e.is_identity (g.base_times s) ≡ false)
            × (pub_key ≡ e.encode_point (g.base_times s))
      pub signs :
          (priv_key message r_enc z_enc : Bytes)
          → frost.sign priv_key message ≡ answer (r_enc, z_enc)
          → (s : Scalar) × (g.decode_scalar priv_key ≡ some s) × IsSignatureBy s message r_enc z_enc
