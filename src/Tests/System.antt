-- ===== src/Tests/System.antt =====
-- The theorems on the whole process, at concrete steps.
use signet_min_bundler.Prelude.{[], ◌∷◌, Text}
use signet_min_bundler.Go.{zeros}
use signet_min_bundler.Hex.{bytes_to_hex}
use signet_min_bundler.Mempool.Table.{Table}
use signet_min_bundler.Mempool.Repo.Pending.{IsValid}
use signet_min_bundler.Bundler.Loop.{tick}
use signet_min_bundler.Rpc.{handle_send_user_operation}
use signet_min_bundler.System.{Reachable, empty, step, sends, ticks}
use signet_min_bundler.System.Status.{Moves, status_at}
use signet_min_bundler.System.Refines.{Reachable-IsValid, Step-Moves}
use signet_min_bundler.Tests.Instances.{sample, sample_laws, stable, stable_laws}
use signet_min_bundler.Tests.Rpc.{methods, sent}
use signet_min_bundler.Tests.Loop.{working}

-- The table after one operation is sent.
abbrev one_sent : Table
one_sent = (handle_send_user_operation sample methods 9 (sent ∷ sent ∷ []) []).1

one_sent-Reachable : Reachable sample stable methods one_sent
one_sent-Reachable = step empty (sends 9 (sent ∷ sent ∷ []))

Reachable-IsValid_example : IsValid sample one_sent
Reachable-IsValid_example =
    Reachable-IsValid sample stable methods sample_laws stable_laws {t = one_sent}
      one_sent-Reachable

-- The hash of that operation, with the sample's hash function.
abbrev sent_hash : Text
sent_hash = bytes_to_hex (zeros 32)

Step-Moves_example :
    Moves
      (status_at sent_hash one_sent)
      (status_at sent_hash (tick sample stable working 10 12 one_sent).1)
Step-Moves_example =
    Step-Moves sample stable methods sample_laws stable_laws {t = one_sent}
      {u = (tick sample stable working 10 12 one_sent).1} one_sent-Reachable (ticks working 10 12)
      sent_hash
