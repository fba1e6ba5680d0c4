-- ===== src/SendUserOp/Verify.antt =====
-- cmd/send-userop/main.go: `verifyFrostSig`, the command's own check of a signature. The group
-- secp256k1 is an argument; an error of a decoding is `none`.
use signet_min_bundler.Prelude.{
  Bool, false, not, ◌||◌, Option, none, some, [], ◌∷◌, ◌++◌, if◌then◌else◌, ◌==◌, Bytes, length,
  drop,
}
use signet_min_bundler.Go.{pos, zeros, sub, copy_at}
use signet_min_bundler.Hex.{big_bytes, pad_left32}
use signet_min_bundler.Core.Crypto.{first_byte, frost_challenge}

-- `frost.Secp256k1.Group()`
pub record Group (Scalar Point : Type 0) : Type 0 where
  pub decode_scalar : Bytes → Option Scalar
  pub decode_point : Bytes → Option Point
  pub base_times : Scalar → Point
  pub times : Point → Scalar → Point
  pub add_points : Point → Point → Point
  pub same_point : Point → Point → Bool

-- `rCompressed`
unfoldable pub r_compressed : Bytes → Bytes
r_compressed sig =
    let prefix = if first_byte (drop 64 sig) == 0 then 2 else 3 in
    copy_at (copy_at (zeros 33) 0 1 (prefix ∷ [])) 1 33 (sub sig 0 32)

-- A test of what was decoded; false if it was not.
abbrev pub decodes {ℓ} : {A : Type ℓ} → Option A → (A → Bool) → Bool
decodes none test = false
decodes (some a) test = test a

module _ {Scalar Point : Type 0} (g : Group Scalar Point) (sha256 : Bytes → Bytes) where
  -- z·G = R + c·PK, on the encodings.
  unfoldable pub check_equation : Bytes → Bytes → Bytes → Bytes → Bool
  check_equation r_enc z_enc pub_key message =
      let c = frost_challenge sha256 (r_enc ++ (pub_key ++ message)) in
      decodes (g.decode_scalar z_enc) (λ z. decodes (g.decode_point r_enc) (λ r.
        decodes (g.decode_point pub_key) (λ pk.
          decodes (g.decode_scalar (pad_left32 (big_bytes (pos c))))
            (λ c. g.same_point (g.base_times z) (g.add_points r (g.times pk c))))))

  -- `verifyFrostSig`
  unfoldable pub verify_frost_sig : Bytes → Bytes → Bytes → Bool
  unfolding check_equation r_compressed
  verify_frost_sig sig message pub_key =
      if not (length sig == 65) || not (length pub_key == 33)
      then false
      else check_equation (r_compressed sig) (sub sig 32 64) pub_key message
