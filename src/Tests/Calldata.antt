-- ===== src/Tests/Calldata.antt =====
-- The theorems on the calldata of `execute` and on the hash of an operation, at concrete inputs.
use signet_min_bundler.Prelude.{◌≡◌, refl, ◌∷◌, [], arith}
use signet_min_bundler.Go.{ok, pos, negsuc, abs, zeros}
use signet_min_bundler.Core.Calldata.{build_execute_calldata, decode_signet_execute}
use signet_min_bundler.Core.Calldata.Roundtrip.{decode_signet_execute-build_execute_calldata}
use signet_min_bundler.Hex.{big_bytes}
use signet_min_bundler.Core.UserOp.{PackedUserOp}
use signet_min_bundler.Core.Hash.{inner_encoding}
use signet_min_bundler.Core.Hash.Layout.{IsEncodable}
use signet_min_bundler.Core.Hash.Injective.{IsSameOp, inner_encoding_injective}
use signet_min_bundler.Tests.Mempool.{sample_op, sample_op-IsPacked}
use signet_min_bundler.Tests.Instances.{sample, sample_laws, zeros-IsArray}

decode_signet_execute-build_execute_calldata_example :
    decode_signet_execute sample
      (build_execute_calldata sample (zeros 20) (pos 1000) (182 ∷ 29 ∷ []))
    ≡ ok (zeros 20, pos (abs (pos 1000)), 182 ∷ 29 ∷ [])
decode_signet_execute-build_execute_calldata_example =
    decode_signet_execute-build_execute_calldata sample (zeros 20) (pos 1000) (182 ∷ 29 ∷ [])
      sample_laws (zeros-IsArray 20) (omega arith) (omega arith)

-- An operation, and the one with its nonce negated, which is encoded alike.
abbrev pub negated : PackedUserOp
negated = record (sample_op 1) { nonce = negsuc 0 }

alike : inner_encoding sample (sample_op 1) ≡ inner_encoding sample negated
unfolding inner_encoding big_bytes
alike = refl

pub sample-IsEncodable : IsEncodable (sample_op 1)
sample-IsEncodable =
    let p = sample_op-IsPacked 1 in
    record {
      sender = p.sender;
      nonce = omega arith;
      account_gas_limits = p.account_gas_limits;
      pre_verification_gas = omega arith;
      gas_fees = p.gas_fees;
    }

pub negated-IsEncodable : IsEncodable negated
negated-IsEncodable =
    let p = sample_op-IsPacked 1 in
    record {
      sender = p.sender;
      nonce = omega arith;
      account_gas_limits = p.account_gas_limits;
      pre_verification_gas = omega arith;
      gas_fees = p.gas_fees;
    }

inner_encoding_injective_example : IsSameOp sample (sample_op 1) negated
inner_encoding_injective_example =
    inner_encoding_injective sample sample_laws (sample_op 1) negated sample-IsEncodable
      negated-IsEncodable alike
