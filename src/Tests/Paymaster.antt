-- ===== src/Tests/Paymaster.antt =====
-- The theorems on the paymaster, at concrete inputs.
use signet_min_bundler.Prelude.{
  ◌≡◌, ◌≢◌, refl, none, [], ◌∷◌, ◌++◌, Bytes, codes, arith, All, IsByte,
}
use signet_min_bundler.Go.{ok, answer, zeros, sub, copy_at}
use signet_min_bundler.Hex.{bytes_to_hex, set_bytes, big_bytes, pad_left32}
use signet_min_bundler.Hex.Digits.{to_digits}
use signet_min_bundler.Core.UserOp.{PackedUserOp, optional_part}
use signet_min_bundler.Core.Hash.Layout.{IsEncodable}
use signet_min_bundler.Paymaster.{
  Service, PaymasterEnv, SponsorResult, get_paymaster_data, hash_encoding, encode_validity_and_sig,
  paymaster_gas_limits, validity_window, sponsor_result,
}
use signet_min_bundler.Paymaster.Layout.{
  HoldsWindow, IsSignable, IsSameRequest, encode_validity_and_sig-HoldsWindow,
  hash_encoding_injective,
}
use signet_min_bundler.Paymaster.Sponsorship.{IsSponsored, get_paymaster_data-IsSponsored}
use signet_min_bundler.Paymaster.Wire.{optional_part-paymaster_data}
use signet_min_bundler.Tests.Instances.{
  sample, sample_laws, zeros-IsArray, all_bytes, all_bytes-All,
}
use signet_min_bundler.Tests.Calldata.{negated, sample-IsEncodable, negated-IsEncodable}
use signet_min_bundler.Tests.Mempool.{sample_op}

abbrev pub service : Service
service = record { paymaster_address = zeros 20; chain_id = 1 }

-- A contract that sponsors, and a key.
abbrev pub willing : PaymasterEnv
willing = record {
  sign_hash = λ _. answer (zeros 65);
  call_contract = λ _. answer (zeros 31 ++ 1 ∷ []);
  now = 100;
  now_ms = 100000;
}

abbrev sponsored : SponsorResult
sponsored =
    sponsor_result service
      (encode_validity_and_sig (validity_window 100).0 (validity_window 100).1 (zeros 65))

sponsored_run :
    get_paymaster_data sample service willing (sample_op 1) [] none ≡ (ok sponsored, none)
unfolding get_paymaster_data
sponsored_run = refl

get_paymaster_data-IsSponsored_example :
    IsSponsored sample service willing (sample_op 1) none sponsored
get_paymaster_data-IsSponsored_example =
    get_paymaster_data-IsSponsored sample service willing (sample_op 1) [] none {r = sponsored}
      {store' = none} sponsored_run

encode_validity_and_sig-HoldsWindow_example :
    HoldsWindow (encode_validity_and_sig 700 40 (zeros 65)) 700 40 (zeros 65)
encode_validity_and_sig-HoldsWindow_example =
    encode_validity_and_sig-HoldsWindow 700 40 (zeros 65) (omega arith) (omega arith)

signable : (op : PackedUserOp) → IsEncodable op → IsSignable service op 700 40
signable op e = record {
  encodable = e;
  paymaster_address = zeros-IsArray 20;
  chain_id = omega arith;
  valid_until = omega arith;
  valid_after = omega arith;
}

alike :
    hash_encoding sample service (sample_op 1) 700 40 ≡ hash_encoding sample service negated 700 40
unfolding hash_encoding big_bytes
alike = refl

hash_encoding_injective_example :
    IsSameRequest sample service service (sample_op 1) negated 700 40 700 40
hash_encoding_injective_example =
    hash_encoding_injective sample sample_laws service service (sample_op 1) negated 700 40 700 40
      (signable (sample_op 1) sample-IsEncodable) (signable negated negated-IsEncodable) alike

abbrev data_of_700 : Bytes
data_of_700 = encode_validity_and_sig 700 40 (zeros 65)

data_of_700-bytes : All IsByte data_of_700
data_of_700-bytes =
    all_bytes-All data_of_700
      (unfold all_bytes encode_validity_and_sig pad_left32 big_bytes to_digits copy_at in refl)

optional_part-paymaster_data_example :
    (part : Bytes) × (optional_part sample
        (codes "paymasterData: ")
        (bytes_to_hex (zeros 20))
        (bytes_to_hex data_of_700)
      ≡ ok part)
    × (sub part 0 20 ≡ sample.hex_to_address (bytes_to_hex (zeros 20)))
    × (set_bytes (sub part 20 52) ≡ 700)
    × (sub part 20 52 ≢ paymaster_gas_limits)
optional_part-paymaster_data_example =
    optional_part-paymaster_data sample sample_laws (codes "paymasterData: ")
      (bytes_to_hex (zeros 20)) data_of_700 700 40 (zeros 65) (unfold bytes_to_hex in refl)
      (encode_validity_and_sig-HoldsWindow 700 40 (zeros 65) (omega arith) (omega arith))
      data_of_700-bytes (omega arith)
