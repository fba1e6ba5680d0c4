-- ===== src/Mempool/Hydrate.antt =====
-- internal/mempool/db.go: a packed operation as a row, and `hydrateOp`, which reads it back.
pub mod Roundtrip
use signet_min_bundler.Prelude.{
  ℕ, Option, none, some, List, [], ◌∷◌, ◌==◌, if◌then◌else◌, Bytes, Text, codes, length, to_lower,
  map_option,
}
use signet_min_bundler.Go.{Result, ok, err, panic, ◌>>=◌, wrap, ℤ, zeros}
use signet_min_bundler.Hex.{
  big_to_hex, bytes_to_hex, hex_to_big_int, decode_hex_parts, parse_int, int_text,
}
use signet_min_bundler.External.{External}
use signet_min_bundler.Core.UserOp.{PackedUserOp}
use signet_min_bundler.Mempool.Table.{Status, pending, Row}

-- `StoredOp`, and the fields of `StatusExtra` among it.
pub record StoredOp : Type 0 where
  pub op : PackedUserOp
  pub open op use *
  pub hash : Bytes
  pub status : Status
  pub bundle_tx_hash : Option Bytes
  pub bundle_index : Option ℕ
  pub submitted_at : Option ℕ
  pub block_number : Option ℕ
  pub revert_reason : Option Text
  pub actual_gas_cost : Option ℤ
  pub received_at : ℕ
  pub updated_at : ℕ

-- `StatusExtra`; a nil pointer is `none`.
pub record StatusExtra : Type 0 where
  pub bundle_tx_hash : Option Bytes
  pub bundle_index : Option ℕ
  pub submitted_at : Option ℕ
  pub block_number : Option ℕ
  pub revert_reason : Option Text
  pub actual_gas_cost : Option ℤ

-- The values of the `INSERT` of `Insert` and of `Replace`.
unfoldable pub new_row : External → ℕ → PackedUserOp → Bytes → Row
new_row x now op hash = record {
  hash = x.hash_hex hash;
  sender = to_lower (x.address_hex op.sender);
  nonce = big_to_hex op.nonce;
  init_code = bytes_to_hex op.init_code;
  call_data = bytes_to_hex op.call_data;
  account_gas_limits = bytes_to_hex op.account_gas_limits;
  pre_verification_gas = big_to_hex op.pre_verification_gas;
  gas_fees = bytes_to_hex op.gas_fees;
  paymaster_and_data = bytes_to_hex op.paymaster_and_data;
  signature = bytes_to_hex op.signature;
  status = pending;
  bundle_tx_hash = none;
  bundle_index = none;
  submitted_at = none;
  block_number = none;
  revert_reason = none;
  actual_gas_cost = none;
  received_at = now;
  updated_at = now;
}

-- `b, _ = core.DecodeHex(s)`, the error ignored.
abbrev pub decoded : Text → Bytes
decoded s = (decode_hex_parts s).0

-- A `[32]byte` into which 32 bytes are copied, and nothing else.
abbrev pub fixed32 : Bytes → Bytes
fixed32 b = if length b == 32 then b else zeros 32

-- `SetString(s, 10)`, kept if it succeeds.
abbrev pub parse_cost : Option Text → Option ℤ
parse_cost none = none
parse_cost (some s) = parse_int 10 s

unfoldable pub hydrate_op : External → Row → Result StoredOp
hydrate_op x r = do
  nonce ← wrap (codes "parse nonce: ") (hex_to_big_int r.nonce)
  pvg ← wrap (codes "parse preVerificationGas: ") (hex_to_big_int r.pre_verification_gas)
  ok (record {
    op = record {
      sender = x.hex_to_address r.sender;
      nonce = nonce;
      init_code = decoded r.init_code;
      call_data = decoded r.call_data;
      account_gas_limits = fixed32 (decoded r.account_gas_limits);
      pre_verification_gas = pvg;
      gas_fees = fixed32 (decoded r.gas_fees);
      paymaster_and_data = decoded r.paymaster_and_data;
      signature = decoded r.signature;
    };
    hash = x.hex_to_hash r.hash;
    status = r.status;
    bundle_tx_hash = map_option x.hex_to_hash r.bundle_tx_hash;
    bundle_index = r.bundle_index;
    submitted_at = r.submitted_at;
    block_number = r.block_number;
    revert_reason = r.revert_reason;
    actual_gas_cost = parse_cost r.actual_gas_cost;
    received_at = r.received_at;
    updated_at = r.updated_at;
  })

-- `scanOps`: the first row that does not parse is the error of the whole query.
unfoldable pub scan_ops : External → List Row → Result (List StoredOp)
scan_ops x [] = ok []
scan_ops x (r ∷ rows) = do op ← hydrate_op x r; ops ← scan_ops x rows; ok (op ∷ ops)
