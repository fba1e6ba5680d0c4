-- ===== src/Core/Hash/Layout.antt =====
-- Where the encoding under the hash of an operation holds its fields.
use signet_min_bundler.Prelude.{
  ℕ, ◌^◌, ◌<◌, ◌≤◌, ◌≡◌, refl, ap, ◌∙◌, arith, Bytes, IsArray, length, length-replicate,
}
use signet_min_bundler.Go.{abs, copy_at, zeros, sub}
use signet_min_bundler.Go.Regions.{Fits, length-copy_at, sub-copy_at, sub-copy_at_before}
use signet_min_bundler.Hex.{big_bytes, pad_left32}
use signet_min_bundler.Hex.Laws.{length-word}
use signet_min_bundler.External.{External, ExternalLaws}
use signet_min_bundler.Core.UserOp.{PackedUserOp}
use signet_min_bundler.Core.Hash.{inner_encoding}

-- The sizes of Go's arrays and of a uint256.
pub record IsEncodable (op : PackedUserOp) : Type 0 where
  pub sender : IsArray 20 op.sender
  pub nonce : abs op.nonce < 256 ^ 32
  pub account_gas_limits : IsArray 32 op.account_gas_limits
  pub pre_verification_gas : abs op.pre_verification_gas < 256 ^ 32
  pub gas_fees : IsArray 32 op.gas_fees

module _ (x : External) (laws : ExternalLaws x) (op : PackedUserOp) (h : IsEncodable op) where
  abbrev b0 : Bytes
  b0 = zeros 256

  length-b0 : 256 ≤ length b0
  length-b0 = rw length-replicate (omega arith)

  b1 : Bytes
  b1 = copy_at b0 12 32 op.sender

  f1 : Fits b0 12 32 op.sender
  f1 = record { size = omega (arith, h.sender.len); inside = omega (arith, length-b0) }

  length-b1 : 256 ≤ length b1
  unfolding b1
  length-b1 = rw (length-copy_at b0 12 32 op.sender f1) length-b0

  b2 : Bytes
  b2 = copy_at b1 32 64 (pad_left32 (big_bytes op.nonce))

  f2 : Fits b1 32 64 (pad_left32 (big_bytes op.nonce))
  f2 = record {
    size = omega (arith, length-word op.nonce h.nonce);
    inside = omega (arith, length-b1);
  }

  length-b2 : 256 ≤ length b2
  unfolding b2
  length-b2 = rw (length-copy_at b1 32 64 (pad_left32 (big_bytes op.nonce)) f2) length-b1

  b3 : Bytes
  b3 = copy_at b2 64 96 (x.keccak256 op.init_code)

  f3 : Fits b2 64 96 (x.keccak256 op.init_code)
  f3 = record {
    size = omega (arith, (laws.keccak256-IsArray op.init_code).len);
    inside = omega (arith, length-b2);
  }

  length-b3 : 256 ≤ length b3
  unfolding b3
  length-b3 = rw (length-copy_at b2 64 96 (x.keccak256 op.init_code) f3) length-b2

  b4 : Bytes
  b4 = copy_at b3 96 128 (x.keccak256 op.call_data)

  f4 : Fits b3 96 128 (x.keccak256 op.call_data)
  f4 = record {
    size = omega (arith, (laws.keccak256-IsArray op.call_data).len);
    inside = omega (arith, length-b3);
  }

  length-b4 : 256 ≤ length b4
  unfolding b4
  length-b4 = rw (length-copy_at b3 96 128 (x.keccak256 op.call_data) f4) length-b3

  b5 : Bytes
  b5 = copy_at b4 128 160 op.account_gas_limits

  f5 : Fits b4 128 160 op.account_gas_limits
  f5 = record { size = omega (arith, h.account_gas_limits.len); inside = omega (arith, length-b4) }

  length-b5 : 256 ≤ length b5
  unfolding b5
  length-b5 = rw (length-copy_at b4 128 160 op.account_gas_limits f5) length-b4

  b6 : Bytes
  b6 = copy_at b5 160 192 (pad_left32 (big_bytes op.pre_verification_gas))

  f6 : Fits b5 160 192 (pad_left32 (big_bytes op.pre_verification_gas))
  f6 = record {
    size = omega (arith, length-word op.pre_verification_gas h.pre_verification_gas);
    inside = omega (arith, length-b5);
  }

  length-b6 : 256 ≤ length b6
  unfolding b6
  length-b6 =
      rw (length-copy_at b5 160 192 (pad_left32 (big_bytes op.pre_verification_gas)) f6) length-b5

  b7 : Bytes
  b7 = copy_at b6 192 224 op.gas_fees

  f7 : Fits b6 192 224 op.gas_fees
  f7 = record { size = omega (arith, h.gas_fees.len); inside = omega (arith, length-b6) }

  length-b7 : 256 ≤ length b7
  unfolding b7
  length-b7 = rw (length-copy_at b6 192 224 op.gas_fees f7) length-b6

  b8 : Bytes
  b8 = copy_at b7 224 256 (x.keccak256 op.paymaster_and_data)

  f8 : Fits b7 224 256 (x.keccak256 op.paymaster_and_data)
  f8 = record {
    size = omega (arith, (laws.keccak256-IsArray op.paymaster_and_data).len);
    inside = omega (arith, length-b7);
  }

  inner_parts : inner_encoding x op ≡ b8
  unfolding inner_encoding b1 b2 b3 b4 b5 b6 b7 b8
  inner_parts = refl

  keep8 : (l k : ℕ) → l ≤ k → k ≤ 224 → sub b8 l k ≡ sub b7 l k
  unfolding b8
  keep8 l k o e = sub-copy_at_before b7 224 256 (x.keccak256 op.paymaster_and_data) l k f8 o e

  keep7 : (l k : ℕ) → l ≤ k → k ≤ 192 → sub b8 l k ≡ sub b6 l k
  unfolding b7
  keep7 l k o e =
      keep8 l k o (omega (arith, e)) ∙ sub-copy_at_before b6 192 224 op.gas_fees l k f7 o e

  keep6 : (l k : ℕ) → l ≤ k → k ≤ 160 → sub b8 l k ≡ sub b5 l k
  unfolding b6
  keep6 l k o e =
      keep7 l k o (omega (arith, e))
      ∙ sub-copy_at_before b5 160 192 (pad_left32 (big_bytes op.pre_verification_gas)) l k f6 o e

  keep5 : (l k : ℕ) → l ≤ k → k ≤ 128 → sub b8 l k ≡ sub b4 l k
  unfolding b5
  keep5 l k o e =
      keep6 l k o (omega (arith, e))
      ∙ sub-copy_at_before b4 128 160 op.account_gas_limits l k f5 o e

  keep4 : (l k : ℕ) → l ≤ k → k ≤ 96 → sub b8 l k ≡ sub b3 l k
  unfolding b4
  keep4 l k o e =
      keep5 l k o (omega (arith, e))
      ∙ sub-copy_at_before b3 96 128 (x.keccak256 op.call_data) l k f4 o e

  keep3 : (l k : ℕ) → l ≤ k → k ≤ 64 → sub b8 l k ≡ sub b2 l k
  unfolding b3
  keep3 l k o e =
      keep4 l k o (omega (arith, e))
      ∙ sub-copy_at_before b2 64 96 (x.keccak256 op.init_code) l k f3 o e

  keep2 : (l k : ℕ) → l ≤ k → k ≤ 32 → sub b8 l k ≡ sub b1 l k
  unfolding b2
  keep2 l k o e =
      keep3 l k o (omega (arith, e))
      ∙ sub-copy_at_before b1 32 64 (pad_left32 (big_bytes op.nonce)) l k f2 o e

  pub read_sender : sub (inner_encoding x op) 12 32 ≡ op.sender
  unfolding b1
  read_sender =
      ap (λ b. sub b 12 32) inner_parts
      ∙ keep2 12 32 (omega arith) (omega arith)
      ∙ sub-copy_at b0 12 32 op.sender f1

  pub read_nonce : sub (inner_encoding x op) 32 64 ≡ pad_left32 (big_bytes op.nonce)
  unfolding b2
  read_nonce =
      ap (λ b. sub b 32 64) inner_parts
      ∙ keep3 32 64 (omega arith) (omega arith)
      ∙ sub-copy_at b1 32 64 (pad_left32 (big_bytes op.nonce)) f2

  pub read_init_code : sub (inner_encoding x op) 64 96 ≡ x.keccak256 op.init_code
  unfolding b3
  read_init_code =
      ap (λ b. sub b 64 96) inner_parts
      ∙ keep4 64 96 (omega arith) (omega arith)
      ∙ sub-copy_at b2 64 96 (x.keccak256 op.init_code) f3

  pub read_call_data : sub (inner_encoding x op) 96 128 ≡ x.keccak256 op.call_data
  unfolding b4
  read_call_data =
      ap (λ b. sub b 96 128) inner_parts
      ∙ keep5 96 128 (omega arith) (omega arith)
      ∙ sub-copy_at b3 96 128 (x.keccak256 op.call_data) f4

  pub read_account_gas_limits : sub (inner_encoding x op) 128 160 ≡ op.account_gas_limits
  unfolding b5
  read_account_gas_limits =
      ap (λ b. sub b 128 160) inner_parts
      ∙ keep6 128 160 (omega arith) (omega arith)
      ∙ sub-copy_at b4 128 160 op.account_gas_limits f5

  pub read_pre_verification_gas :
      sub (inner_encoding x op) 160 192 ≡ pad_left32 (big_bytes op.pre_verification_gas)
  unfolding b6
  read_pre_verification_gas =
      ap (λ b. sub b 160 192) inner_parts
      ∙ keep7 160 192 (omega arith) (omega arith)
      ∙ sub-copy_at b5 160 192 (pad_left32 (big_bytes op.pre_verification_gas)) f6

  pub read_gas_fees : sub (inner_encoding x op) 192 224 ≡ op.gas_fees
  unfolding b7
  read_gas_fees =
      ap (λ b. sub b 192 224) inner_parts
      ∙ keep8 192 224 (omega arith) (omega arith)
      ∙ sub-copy_at b6 192 224 op.gas_fees f7

  pub read_paymaster_and_data :
      sub (inner_encoding x op) 224 256 ≡ x.keccak256 op.paymaster_and_data
  unfolding b8
  read_paymaster_and_data =
      ap (λ b. sub b 224 256) inner_parts
      ∙ sub-copy_at b7 224 256 (x.keccak256 op.paymaster_and_data) f8
