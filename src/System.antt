-- ===== src/System.antt =====
-- cmd/bundler/main.go: the parts of the process that write to the mempool, as the steps that `run`
-- starts: the JSON-RPC server, the bundling loop, the receipt watcher, the pruner, and the
-- reconciliation at each start. A step is one call; calls do not overlap.
pub mod Status
pub mod Lives
pub mod Steps
pub mod Refines
use signet_min_bundler.Prelude.{ℕ, ◌≡◌, List, [], map}
use signet_min_bundler.Go.{ℤ, ok}
use signet_min_bundler.External.{External}
use signet_min_bundler.Mempool.Table.{Table}
use signet_min_bundler.Mempool.Hydrate.{StoredOp}
use signet_min_bundler.Mempool.Repo.{
  RowOrder, get_pending, claim_for_bundling, mark_ttl_expired, prune_history,
}
use signet_min_bundler.Bundler.Loop.{TickEnv, tick}
use signet_min_bundler.Bundler.Watcher.{WatchEnv, poll, reconcile}
use signet_min_bundler.Bundler.Watcher.Poll.{WatchLaws}
use signet_min_bundler.Rpc.{Methods, Param, handle_send_user_operation}

module _ (x : External) (o : RowOrder) (m : Methods) where
  -- What the process does to the table, at any time and with any answers of the node. `stops` is a
  -- tick that is cut off after its claim.
  pub data Step (t : Table) : Table → Type 0 where
    sends : (now : ℕ) (params : List Param) → Step t (handle_send_user_operation x m now params t).1
    ticks : (env : TickEnv) (max_bundle now : ℕ) → Step t (tick x o env max_bundle now t).1
    stops :
        (limit now : ℕ) {ops : List StoredOp}
        → get_pending x o limit t ≡ ok ops
        → Step t (claim_for_bundling x now (map (λ (op : StoredOp). op.hash) ops) t).1
    polls : (env : WatchEnv) → WatchLaws env → Step t (poll x o env t).1
    expires : (now : ℕ) (cutoff : ℤ) → Step t (mark_ttl_expired now cutoff t).1
    prunes : (cutoff : ℤ) → Step t (prune_history cutoff t).1
    starts : (env : WatchEnv) → WatchLaws env → Step t (reconcile x o env t).1

  -- The tables that a database which began empty may hold.
  pub data Reachable : Table → Type 0 where
    empty : Reachable []
    step : {t t' : Table} → Reachable t → Step t t' → Reachable t'
