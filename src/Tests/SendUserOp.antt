-- ===== src/Tests/SendUserOp.antt =====
-- The theorems on the command that sends operations, and on its hash to a message, at concrete
-- inputs.
use signet_min_bundler.Prelude.{◌≡◌, ◌≢◌, refl, some, [], ◌∷◌, ◌++◌, false, inr, Text, codes, arith}
use signet_min_bundler.Go.{copy_at, sub, Result, ok, answer, pos, zeros}
use signet_min_bundler.Hex.{
  int_text, decode_hex, decode_hex_parts, hex_decode, trim_prefix, parse_int, parse_nat,
  digit_values, bytes_to_hex,
}
use signet_min_bundler.Core.UserOp.{PackedUserOp, from_rpc}
use signet_min_bundler.Core.Crypto.{pub_key_to_address}
use signet_min_bundler.Rpc.{Param, reply, handle_send_user_operation}
use signet_min_bundler.SendUserOp.Parse.{parse_address, parse_value}
use signet_min_bundler.SendUserOp.Amount.{parse_value-int_text}
use signet_min_bundler.SendUserOp.Fetch.{
  Node, fetch_chain_id, fetch_base_fee, fetch_nonce, eth_chain_id, latest_block, eth_call,
  eth_get_code,
}
use signet_min_bundler.SendUserOp.Submit.{submitted_op, submit_to_bundler, BundlerApi}
use signet_min_bundler.SendUserOp.Sign.{Frost, derive_public_key, frost_sign}
use signet_min_bundler.SendUserOp.Flow.{Flags, SendEnv, run_command}
use signet_min_bundler.SendUserOp.Accepted.{ReadsWire, IsSendable, from_rpc-submitted_op}
use signet_min_bundler.SendUserOp.Refused.{handle_send_user_operation-submitted_op}
use signet_min_bundler.SendUserOp.Signature.{IsSigned, frost_sign-IsSigned}
use signet_min_bundler.SendUserOp.Submitted.{IsSubmitted, run_command-IsSubmitted}
use signet_min_bundler.Tests.Instances.{
  sample, all_bytes, all_bytes-All, from_hex-bytes_to_hex, zeros-IsArray,
}
use signet_min_bundler.Tests.Mempool.{two_rows}
use signet_min_bundler.Tests.Rpc.{methods, sent}

sample-ReadsWire : ReadsWire sample
unfolding bytes_to_hex
sample-ReadsWire [] a = absurd (omega (arith, a.len))
sample-ReadsWire (b ∷ bs) a = from_hex-bytes_to_hex 20 (b ∷ bs) a

-- An operation that deploys its account.
abbrev deploying : PackedUserOp
deploying = record {
  sender = zeros 20;
  nonce = pos 1;
  init_code = zeros 20 ++ 7 ∷ 8 ∷ [];
  call_data = 1 ∷ 2 ∷ [];
  account_gas_limits = zeros 32;
  pre_verification_gas = pos 50000;
  gas_fees = zeros 32;
  paymaster_and_data = [];
  signature = zeros 65;
}

deploying-IsSendable : IsSendable deploying
deploying-IsSendable = record {
  sender = zeros-IsArray 20;
  init_code = all_bytes-All deploying.init_code (unfold all_bytes in refl);
  factory = inr (omega arith);
  call_data = all_bytes-All deploying.call_data (unfold all_bytes in refl);
  account_gas_limits = zeros-IsArray 32;
  gas_fees = zeros-IsArray 32;
  no_paymaster = refl;
  signature = (zeros-IsArray 65).bytes;
}

from_rpc-submitted_op_example : from_rpc sample (submitted_op deploying) ≡ ok deploying
from_rpc-submitted_op_example =
    from_rpc-submitted_op sample sample-ReadsWire deploying deploying-IsSendable

abbrev posted : Param
posted = record { as_op = answer (submitted_op deploying); as_text = answer []; invite_code = [] }

handle_send_user_operation-submitted_op_example :
    ((h : Text)
      → (handle_send_user_operation sample methods 9 (posted ∷ sent ∷ []) two_rows).0 ≢ reply h)
    × ((handle_send_user_operation sample methods 9 (posted ∷ sent ∷ []) two_rows).1 ≡ two_rows)
handle_send_user_operation-submitted_op_example =
    handle_send_user_operation-submitted_op sample sample-ReadsWire methods 9 posted sent []
      two_rows deploying deploying-IsSendable refl

-- A node that answers every call with a word, and a bundler that takes every operation.
abbrev node : Node
node eth_chain_id = answer (answer (codes "0x1"))
node latest_block = answer (answer (codes "0x64"))
node (eth_call to call_data) = answer (answer (codes "0x05"))
node (eth_get_code a) = answer (answer (codes "0x"))

abbrev willing_bundler : BundlerApi
willing_bundler = record {
  estimate_gas = λ _ _. answer (
      answer (record {
        pre_verification_gas = codes "0xc350";
        verification_gas_limit = codes "0x1";
        call_gas_limit = codes "0x2";
      }));
  send_operation = λ _ _. answer (answer (codes "0xab"));
}

abbrev env : SendEnv
env = record {
  node = node;
  api = willing_bundler;
  frost = record {
    public_key = λ _. answer (2 ∷ zeros 32);
    sign = λ _ _. answer (2 ∷ zeros 32, zeros 32);
  };
  parse_any = λ _. some (pos 1);
}

abbrev flags : Flags
flags = record {
  bundler = codes "b";
  entry_point = bytes_to_hex (zeros 20);
  factory = [];
  salt = codes "0";
  sender = bytes_to_hex (zeros 20);
  key = bytes_to_hex (zeros 32);
  to = bytes_to_hex (zeros 20);
  value = codes "0x1";
  calldata = codes "0x";
  verification_gas_limit = 100;
  call_gas_limit = 100;
  pre_verification_gas = 100;
  max_fee_per_gas = [];
  max_priority_fee_per_gas = codes "1";
  no_estimate_gas = false;
}

-- The result of the run, if it is one.
abbrev outgoing : Result (PackedUserOp × Text) → PackedUserOp × Text
outgoing (ok p) = p
outgoing _ = (deploying, [])

run : run_command sample env flags ≡ ok (outgoing (run_command sample env flags))
unfolding run_command decode_hex decode_hex_parts hex_decode trim_prefix parse_int parse_nat
    digit_values bytes_to_hex parse_address parse_value derive_public_key pub_key_to_address
    fetch_chain_id fetch_base_fee fetch_nonce frost_sign submit_to_bundler
run = refl

run_command-IsSubmitted_example :
    IsSubmitted sample env flags
      (outgoing (run_command sample env flags)).0
      (outgoing (run_command sample env flags)).1
run_command-IsSubmitted_example =
    run_command-IsSubmitted sample env flags {op = (outgoing (run_command sample env flags)).0}
      {h = (outgoing (run_command sample env flags)).1} run

-- A signature of an odd point.
abbrev odd_frost : Frost
odd_frost = record {
  public_key = λ _. answer (2 ∷ zeros 32);
  sign = λ _ _. answer (3 ∷ zeros 32, zeros 32);
}

signed_odd : frost_sign odd_frost (bytes_to_hex (zeros 32)) [] ≡ ok (zeros 64 ++ 1 ∷ [])
unfolding frost_sign decode_hex decode_hex_parts hex_decode trim_prefix bytes_to_hex copy_at sub
signed_odd = refl

frost_sign-IsSigned_example : IsSigned odd_frost (bytes_to_hex (zeros 32)) [] (zeros 64 ++ 1 ∷ [])
frost_sign-IsSigned_example =
    frost_sign-IsSigned odd_frost (bytes_to_hex (zeros 32)) [] {sig = zeros 64 ++ 1 ∷ []} signed_odd

parse_value-int_text_example :
    (parse_value (int_text 10 (pos 1)) ≡ ok (pos 1))
    × (parse_value (int_text 10 (pos 1) ++ codes "eth") ≡ ok (pos 1))
parse_value-int_text_example = parse_value-int_text 1
