-- ===== src/System/Refines.antt =====
-- Every reachable table is valid, and every step of the process follows the life of an operation.
use signet_min_bundler.Prelude.{
  ℕ, ◌≡◌, refl, sym, inl, inr, Option, none, some, List, [], ◌∷◌, ◌++◌, if◌then◌else◌, Text, Bytes,
  equal, equal-eq, Bool-cases,
}
use signet_min_bundler.External.{External, ExternalLaws}
use signet_min_bundler.Core.UserOp.{PackedUserOp}
use signet_min_bundler.Core.Hash.{compute_user_op_hash}
use signet_min_bundler.Mempool.Table.{Row, Table, satisfies_indexes}
use signet_min_bundler.Mempool.Table.Indexes.{insert_row-satisfies_indexes}
use signet_min_bundler.Mempool.Table.Rows.{row_at}
use signet_min_bundler.Mempool.Hydrate.{new_row}
use signet_min_bundler.Mempool.Repo.{RowOrder}
use signet_min_bundler.Mempool.Repo.Insert.{row_at-append}
use signet_min_bundler.Mempool.Repo.Pending.{RowOrderLaws, IsValid}
use signet_min_bundler.Rpc.{Methods, Param, Reply, handle_send_user_operation}
use signet_min_bundler.Rpc.Send.{
  Ends, received, invalid, rejected, crashed, handle_send_user_operation-Ends,
}
use signet_min_bundler.System.{
  Step, sends, ticks, stops, polls, expires, prunes, starts, Reachable, empty, step,
}
use signet_min_bundler.System.Status.{status_at, Moves, stays, accepts}
use signet_min_bundler.System.Lives.{Evolves, Lives, Lives-Evolves, Lives-same}
use signet_min_bundler.System.Steps.{
  tick-Evolves, stops-Evolves, expires-Evolves, prunes-Evolves, poll-Evolves, starts-Evolves,
}

module _ (x : External) (t : Table) (v : IsValid x t) where
  appended :
      (laws : ExternalLaws x) (now : ℕ) (packed : PackedUserOp) (hash : Bytes)
      → x.hex_to_hash (x.hash_hex hash) ≡ hash
      → (k : Text) (o : Option Row) → row_at k t ≡ o
      → Lives x t k (elim o as (λ _. Option Row) [
        | none ↦ if equal (x.hash_hex hash) k then some (new_row x now packed hash) else none
        | some s ↦ some s
      ])
  unfolding new_row
  appended laws now packed hash h k (some s) e = Lives-same x t v k (some s) (sym e)
  appended laws now packed hash h k none e = elim (Bool-cases (equal (x.hash_hex hash) k)) [
    | inl here ↦ rw here (record {
      move = rw e accepts;
      named = λ _ _. rw (← equal-eq (x.hash_hex hash) k here, h) refl;
    })
    | inr other ↦ rw other (Lives-same x t v k none (sym e))
  ]

  hash_text :
      (laws : ExternalLaws x) (packed : PackedUserOp) (entry_point : Bytes) (chain_id : ℕ)
      → x.hex_to_hash (x.hash_hex (compute_user_op_hash x packed entry_point chain_id))
        ≡ compute_user_op_hash x packed entry_point chain_id
  unfolding compute_user_op_hash
  hash_text laws packed entry_point chain_id =
      laws.hash_roundtrip (compute_user_op_hash x packed entry_point chain_id)
        (laws.keccak256-IsArray _)

  sends-Evolves :
      (laws : ExternalLaws x) (m : Methods) (now : ℕ) (params : List Param)
      → Evolves x t (handle_send_user_operation x m now params t).1
  unfolding new_row
  sends-Evolves laws m now params =
      ends (handle_send_user_operation x m now params t)
        (handle_send_user_operation-Ends x m now params t)
    where
      unchanged : Evolves x t t
      unchanged = record { valid = v; moves = λ k. stays }

      ends : (p : Reply × Table) → Ends x m now params t p → Evolves x t p.1
      ends _ (received {t' = t'} r) =
          let hash =
            compute_user_op_hash x r.packed (x.hex_to_address r.entry_point_hex) m.chain_id in
          rw r.row (
            Lives-Evolves x t v (t ++ new_row x now r.packed hash ∷ [])
              (insert_row-satisfies_indexes (new_row x now r.packed hash) t r.free v.indexes)
              (λ k. rw (row_at-append k t (new_row x now r.packed hash)) (
                appended laws now r.packed hash
                  (hash_text laws r.packed (x.hex_to_address r.entry_point_hex) m.chain_id) k
                  (row_at k t) refl)))
      ends _ invalid = unchanged
      ends _ rejected = unchanged
      ends _ crashed = unchanged

module _ (x : External) (o : RowOrder) (m : Methods) (laws : ExternalLaws x)
    (order : RowOrderLaws o) where
  Step-Evolves : {t u : Table} → IsValid x t → Step x o m t u → Evolves x t u
  Step-Evolves {t} v (sends now params) = sends-Evolves x t v laws m now params
  Step-Evolves {t} v (ticks env max_bundle now) = tick-Evolves x t v o env max_bundle now order
  Step-Evolves {t} v (stops limit now {ops = ops} e) = stops-Evolves x t v o limit now ops order e
  Step-Evolves {t} v (polls env w) = poll-Evolves x t v o env order w
  Step-Evolves {t} v (expires now cutoff) = expires-Evolves x t v now cutoff
  Step-Evolves {t} v (prunes cutoff) = prunes-Evolves x t v cutoff
  Step-Evolves {t} v (starts env w) = starts-Evolves x t v o env order w

  -- With the laws of the text forms and an ORDER BY that sorts: in every table that the process
  -- can reach from an empty database, by any sequence of sent operations, ticks (also ones cut
  -- off after their claim), polls, expiries, prunings and restarts, whatever the node answers,
  -- the unique indexes hold and every hash column is the text of its hash.
  pub Reachable-IsValid : {t : Table} → Reachable x o m t → IsValid x t
  Reachable-IsValid empty = record { indexes = unfold satisfies_indexes in refl; canonical = tt }
  Reachable-IsValid (step r s) = (Step-Evolves (Reachable-IsValid r) s).valid

  -- With the laws of the text forms and an ORDER BY that sorts: from any reachable table, every
  -- step of the process moves the status of every hash as the abstract life of an operation
  -- allows: it stays, an unknown operation becomes pending, a pending one is claimed, submitted
  -- or failed, a submitted one confirmed, failed or pending again, a bundling one pending again,
  -- and only a confirmed, failed or replaced one is forgotten.
  pub Step-Moves :
      {t u : Table}
      → Reachable x o m t
      → Step x o m t u
      → (k : Text) → Moves (status_at k t) (status_at k u)
  Step-Moves r s = (Step-Evolves (Reachable-IsValid r) s).moves
