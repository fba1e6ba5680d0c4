-- ===== src/Mempool/Hydrate/Roundtrip.antt =====
-- A row made from an operation hydrates to that operation.
use signet_min_bundler.Prelude.{ℕ, ◌≡◌, ap, Option, none, Bytes, Text, IsByte, IsArray, All}
use signet_min_bundler.Go.{ok}
use signet_min_bundler.Hex.{bytes_to_hex}
use signet_min_bundler.Hex.Laws.{decode_hex_parts-bytes_to_hex, hex_to_big_int-big_to_hex}
use signet_min_bundler.External.{External, ExternalLaws}
use signet_min_bundler.Core.UserOp.{PackedUserOp}
use signet_min_bundler.Mempool.Table.{pending}
use signet_min_bundler.Mempool.Hydrate.{StoredOp, new_row, hydrate_op, decoded}

-- The shape of Go's struct, which the lists of the model do not enforce.
pub record IsPacked (op : PackedUserOp) : Type 0 where
  pub sender : IsArray 20 op.sender
  pub init_code : All IsByte op.init_code
  pub call_data : All IsByte op.call_data
  pub account_gas_limits : IsArray 32 op.account_gas_limits
  pub gas_fees : IsArray 32 op.gas_fees
  pub paymaster_and_data : All IsByte op.paymaster_and_data
  pub signature : All IsByte op.signature

-- The stored form of an operation received at `now`.
unfoldable pub fresh : ℕ → PackedUserOp → Bytes → StoredOp
fresh now op hash = record {
  op = op;
  hash = hash;
  status = pending;
  bundle_tx_hash = none;
  bundle_index = none;
  submitted_at = none;
  block_number = none;
  revert_reason = none;
  actual_gas_cost = none;
  received_at = now;
  updated_at = now;
}

decoded-bytes_to_hex : (b : Bytes) → All IsByte b → decoded (bytes_to_hex b) ≡ b
decoded-bytes_to_hex b h = ap (λ (p : Bytes × Option Text). p.0) (decode_hex_parts-bytes_to_hex b h)

-- A row made of an operation with arrays of the right lengths hydrates to that operation, under
-- the laws of the text forms of hashes and addresses, every field as it was written.
pub hydrate_op-new_row :
    (x : External) (laws : ExternalLaws x) (now : ℕ) (op : PackedUserOp) (hash : Bytes)
    → IsPacked op
    → IsArray 32 hash
    → hydrate_op x (new_row x now op hash) ≡ ok (fresh now op hash)
unfolding hydrate_op new_row fresh
hydrate_op-new_row x laws now op hash p h = rw (
  hex_to_big_int-big_to_hex op.nonce,
  hex_to_big_int-big_to_hex op.pre_verification_gas,
  decoded-bytes_to_hex op.init_code p.init_code,
  decoded-bytes_to_hex op.call_data p.call_data,
  decoded-bytes_to_hex op.account_gas_limits p.account_gas_limits.bytes,
  decoded-bytes_to_hex op.gas_fees p.gas_fees.bytes,
  decoded-bytes_to_hex op.paymaster_and_data p.paymaster_and_data,
  decoded-bytes_to_hex op.signature p.signature,
  p.account_gas_limits.len,
  p.gas_fees.len,
  laws.address_roundtrip op.sender p.sender,
  laws.hash_roundtrip hash h,
)
