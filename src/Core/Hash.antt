-- ===== src/Core/Hash.antt =====
-- internal/core/hash.go: the hash of an operation.
pub mod Layout
pub mod Injective
use signet_min_bundler.Prelude.{ℕ, Bytes}
use signet_min_bundler.Go.{pos, copy_at, zeros}
use signet_min_bundler.Hex.{big_bytes, pad_left32}
use signet_min_bundler.External.{External}
use signet_min_bundler.Core.UserOp.{PackedUserOp}

-- The inner encoding of `ComputeUserOpHash`.
unfoldable pub inner_encoding : External → PackedUserOp → Bytes
inner_encoding x op =
    let b1 = copy_at (zeros 256) 12 32 op.sender in
    let b2 = copy_at b1 32 64 (pad_left32 (big_bytes op.nonce)) in
    let b3 = copy_at b2 64 96 (x.keccak256 op.init_code) in
    let b4 = copy_at b3 96 128 (x.keccak256 op.call_data) in
    let b5 = copy_at b4 128 160 op.account_gas_limits in
    let b6 = copy_at b5 160 192 (pad_left32 (big_bytes op.pre_verification_gas)) in
    let b7 = copy_at b6 192 224 op.gas_fees in
    copy_at b7 224 256 (x.keccak256 op.paymaster_and_data)

-- The outer encoding.
unfoldable pub outer_encoding : Bytes → Bytes → ℕ → Bytes
outer_encoding inner_hash entry_point chain_id =
    let b1 = copy_at (zeros 96) 0 32 inner_hash in
    let b2 = copy_at b1 44 64 entry_point in
    copy_at b2 64 96 (pad_left32 (big_bytes (pos chain_id)))

-- `ComputeUserOpHash`
unfoldable pub compute_user_op_hash : External → PackedUserOp → Bytes → ℕ → Bytes
unfolding inner_encoding outer_encoding
compute_user_op_hash x op entry_point chain_id =
    x.keccak256 (outer_encoding (x.keccak256 (inner_encoding x op)) entry_point chain_id)
