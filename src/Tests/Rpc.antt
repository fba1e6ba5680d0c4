-- ===== src/Tests/Rpc.antt =====
-- The theorem on `eth_sendUserOperation`, at a concrete input.
use signet_min_bundler.Prelude.{[], ◌∷◌, codes}
use signet_min_bundler.Go.{answer, zeros}
use signet_min_bundler.Hex.{bytes_to_hex}
use signet_min_bundler.Core.UserOp.{UserOperationRpc}
use signet_min_bundler.Rpc.{Methods, Param, handle_send_user_operation}
use signet_min_bundler.Rpc.Send.{Ends, handle_send_user_operation-Ends}
use signet_min_bundler.Tests.Instances.{sample}
use signet_min_bundler.Tests.Mempool.{two_rows}

abbrev wire_op : UserOperationRpc
wire_op = record {
  sender = bytes_to_hex (zeros 20);
  nonce = codes "0x1";
  factory = [];
  factory_data = [];
  call_data = codes "0xb61d27f6";
  call_gas_limit = codes "0x100";
  verification_gas_limit = codes "0x100";
  pre_verification_gas = codes "0x100";
  max_fee_per_gas = codes "0x1";
  max_priority_fee_per_gas = codes "0x1";
  paymaster = bytes_to_hex (zeros 20);
  paymaster_data = [];
  signature = bytes_to_hex (zeros 65);
}

abbrev pub methods : Methods
methods = record {
  entry_points = zeros 20 ∷ [];
  chain_id = 1;
  validator = record {
    allowed_paymasters = zeros 20 ∷ [];
    max_verification_gas = 500;
    max_call_gas = 500;
  };
}

abbrev pub sent : Param
sent = record { as_op = answer wire_op; as_text = answer []; invite_code = [] }

handle_send_user_operation-Ends_example :
    Ends sample methods 9
      (sent ∷ sent ∷ [])
      two_rows
      (handle_send_user_operation sample methods 9 (sent ∷ sent ∷ []) two_rows)
handle_send_user_operation-Ends_example =
    handle_send_user_operation-Ends sample methods 9 (sent ∷ sent ∷ []) two_rows
