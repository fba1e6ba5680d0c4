-- ===== src/Core/Hash/Injective.antt =====
-- What the encoding under the hash of an operation determines.
use signet_min_bundler.Prelude.{◌≡◌, sym, ap, ◌∙◌}
use signet_min_bundler.Go.{abs, sub}
use signet_min_bundler.Hex.{set_bytes}
use signet_min_bundler.Hex.Laws.{set_bytes-word}
use signet_min_bundler.External.{External, ExternalLaws}
use signet_min_bundler.Core.UserOp.{PackedUserOp}
use signet_min_bundler.Core.Hash.{inner_encoding}
use signet_min_bundler.Core.Hash.Layout.{
  IsEncodable, read_sender, read_nonce, read_init_code, read_call_data, read_account_gas_limits,
  read_pre_verification_gas, read_gas_fees, read_paymaster_and_data,
}

-- The fields that the hash covers agree, the dynamic ones up to their own hashes.
pub record IsSameOp (x : External) (op other : PackedUserOp) : Type 0 where
  pub sender : op.sender ≡ other.sender
  pub nonce : abs op.nonce ≡ abs other.nonce
  pub init_code : x.keccak256 op.init_code ≡ x.keccak256 other.init_code
  pub call_data : x.keccak256 op.call_data ≡ x.keccak256 other.call_data
  pub account_gas_limits : op.account_gas_limits ≡ other.account_gas_limits
  pub pre_verification_gas : abs op.pre_verification_gas ≡ abs other.pre_verification_gas
  pub gas_fees : op.gas_fees ≡ other.gas_fees
  pub paymaster_and_data : x.keccak256 op.paymaster_and_data ≡ x.keccak256 other.paymaster_and_data

module _ (x : External) (laws : ExternalLaws x) where
  -- Two operations with arrays of the right lengths and numbers below 2^256 whose encodings under
  -- the hash are equal agree in every field that the hash covers: the static ones by their value
  -- (a number by its magnitude), the dynamic ones by their own Keccak-256.
  pub inner_encoding_injective :
      (op other : PackedUserOp)
      → IsEncodable op
      → IsEncodable other
      → inner_encoding x op ≡ inner_encoding x other
      → IsSameOp x op other
  inner_encoding_injective op other h k e = record {
    sender = sym (read_sender x laws op h) ∙ ap (λ b. sub b 12 32) e ∙ read_sender x laws other k;
    nonce =
        sym (set_bytes-word op.nonce)
        ∙ ap set_bytes
            (sym (read_nonce x laws op h) ∙ ap (λ b. sub b 32 64) e ∙ read_nonce x laws other k)
        ∙ set_bytes-word other.nonce;
    pre_verification_gas =
        sym (set_bytes-word op.pre_verification_gas)
        ∙ ap set_bytes (
            sym (read_pre_verification_gas x laws op h)
            ∙ ap (λ b. sub b 160 192) e
            ∙ read_pre_verification_gas x laws other k)
        ∙ set_bytes-word other.pre_verification_gas;
    init_code =
        sym (read_init_code x laws op h) ∙ ap (λ b. sub b 64 96) e ∙ read_init_code x laws other k;
    call_data =
        sym (read_call_data x laws op h) ∙ ap (λ b. sub b 96 128) e ∙ read_call_data x laws other k;
    account_gas_limits =
        sym (read_account_gas_limits x laws op h)
        ∙ ap (λ b. sub b 128 160) e
        ∙ read_account_gas_limits x laws other k;
    gas_fees =
        sym (read_gas_fees x laws op h) ∙ ap (λ b. sub b 192 224) e ∙ read_gas_fees x laws other k;
    paymaster_and_data =
        sym (read_paymaster_and_data x laws op h)
        ∙ ap (λ b. sub b 224 256) e
        ∙ read_paymaster_and_data x laws other k;
  }
