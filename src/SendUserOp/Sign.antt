-- ===== src/SendUserOp/Sign.antt =====
-- cmd/send-userop/main.go: the hash that is signed, and the signature's bytes. The FROST library,
-- which signs with the key as its only share, is an argument.
use signet_min_bundler.Prelude.{
  ℕ, not, ◌||◌, [], ◌∷◌, if◌then◌else◌, ◌==◌, Bytes, Text, codes, length,
}
use signet_min_bundler.Go.{
  Result, ok, err, ◌>>=◌, wrap, Answer, answer, failure, ℤ, zeros, sub, copy_at,
}
use signet_min_bundler.Hex.{decode_hex, big_bytes, pad_left32}
use signet_min_bundler.External.{External}
use signet_min_bundler.Core.UserOp.{PackedUserOp}

-- `computeUserOpHash`
unfoldable pub compute_user_op_hash : External → PackedUserOp → ℤ → Bytes → Bytes
compute_user_op_hash x op chain_id entry_point =
    let i1 = copy_at (zeros 256) 12 32 op.sender in
    let i2 = copy_at i1 32 64 (pad_left32 (big_bytes op.nonce)) in
    let i3 = copy_at i2 64 96 (x.keccak256 op.init_code) in
    let i4 = copy_at i3 96 128 (x.keccak256 op.call_data) in
    let i5 = copy_at i4 128 160 op.account_gas_limits in
    let i6 = copy_at i5 160 192 (pad_left32 (big_bytes op.pre_verification_gas)) in
    let i7 = copy_at i6 192 224 op.gas_fees in
    let inner = copy_at i7 224 256 (x.keccak256 op.paymaster_and_data) in
    let o1 = copy_at (zeros 96) 0 32 (x.keccak256 inner) in
    let o2 = copy_at o1 44 64 entry_point in
    x.keccak256 (copy_at o2 64 96 (pad_left32 (big_bytes chain_id)))

-- The FROST library: the public key of a private one, and the two encoded parts of a signature of
-- a message; an error comes with its context.
pub record Frost : Type 0 where
  pub public_key : Bytes → Answer Bytes
  pub sign : Bytes → Bytes → Answer (Bytes × Bytes)

abbrev pub answer_of {ℓ} : {A : Type ℓ} → Answer A → Result A
answer_of (answer a) = ok a
answer_of (failure e) = err e

-- `derivePublicKey`
unfoldable pub derive_public_key : Frost → Text → Result Bytes
derive_public_key frost priv_key_hex = do
  priv_key ← decode_hex priv_key_hex
  answer_of (frost.public_key priv_key)

-- The parity of a point, from its encoding: the first byte is 3 when its y is odd.
abbrev pub odd_bit : Bytes → ℕ
odd_bit [] = 0
odd_bit (b ∷ bs) = if b == 3 then 1 else 0

-- The 65 bytes of a signature: R.x, z, and the parity of R.y.
unfoldable pub signature_of : Bytes → Bytes → Result Bytes
signature_of r_enc z_enc =
    if not (length r_enc == 33) || not (length z_enc == 32)
    then err (codes "unexpected signature encoding lengths")
    else ok (
        copy_at (copy_at (copy_at (zeros 65) 0 32 (sub r_enc 1 33)) 32 64 z_enc) 64 65
          (odd_bit r_enc ∷ []))

-- `frostSign`; its check of the signature is only printed. (The error's text gives the length too.)
unfoldable pub frost_sign : Frost → Text → Bytes → Result Bytes
unfolding signature_of
frost_sign frost priv_key_hex message = do
  priv_key ← wrap (codes "decode private key: ") (decode_hex priv_key_hex)
  if not (length priv_key == 32)
      then err (codes "private key must be 32 bytes")
      else (do (r_enc, z_enc) ← answer_of (frost.sign priv_key message); signature_of r_enc z_enc)
