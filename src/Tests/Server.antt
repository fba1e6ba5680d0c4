-- ===== src/Tests/Server.antt =====
-- The theorem on the server's key, at a concrete request.
use signet_min_bundler.Prelude.{◌≡◌, refl, none, [], ◌∷◌, codes}
use signet_min_bundler.Go.{answer}
use signet_min_bundler.Http.{HttpRequest}
use signet_min_bundler.Rpc.Server.{ServerEnv, ServerState, serve}
use signet_min_bundler.Rpc.Guarded.{IsRefusal, serve-IsRefusal}
use signet_min_bundler.Tests.Instances.{sample}
use signet_min_bundler.Tests.Mempool.{two_rows}
use signet_min_bundler.Tests.Rpc.{methods, sent}
use signet_min_bundler.Tests.Paymaster.{service, willing}

-- A server that is sent an operation.
abbrev server : ServerEnv
server = record {
  methods = methods;
  service = service;
  paymaster = willing;
  estimate_gas = λ _. answer 21000;
  now = 9;
  parse_request = λ _. answer (record {
    jsonrpc = codes "2.0";
    id = codes "1";
    method = codes "eth_sendUserOperation";
    params = sent ∷ sent ∷ [];
  });
}

abbrev intruder : HttpRequest
intruder = record {
  method = codes "POST";
  path = codes "/";
  api_key = codes "guess";
  body = answer [];
}

abbrev held : ServerState
held = record { table = two_rows; sponsors = none }

serve-IsRefusal_example :
    IsRefusal intruder (serve sample server none (codes "secret") intruder held).0
    × ((serve sample server none (codes "secret") intruder held).1 ≡ held)
serve-IsRefusal_example =
    serve-IsRefusal sample server none (codes "secret") intruder held refl refl
