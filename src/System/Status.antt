-- ===== src/System/Status.antt =====
-- The life of an operation, as the statuses of types.go are meant: the abstract machine.
use signet_min_bundler.Prelude.{◌≡◌, Option, none, some, true, Text, map_option}
use signet_min_bundler.Mempool.Table.{
  Status, pending, bundling, submitted, confirmed, failed, is_terminal, Row, Table,
}
use signet_min_bundler.Mempool.Table.Rows.{row_at}

-- What the table says of a hash.
abbrev pub status_of : Option Row → Option Status
status_of = map_option (λ (r : Row). r.status)

abbrev pub status_at : Text → Table → Option Status
status_at k t = status_of (row_at k t)

-- One step of the life of an operation; `none` is an operation that the mempool does not hold.
pub data Moves : Option Status → Option Status → Type 0 where
  stays : {s : Option Status} → Moves s s
  accepts : Moves none (some pending)
  claims : Moves (some pending) (some bundling)
  submits : Moves (some pending) (some submitted)
  drops : Moves (some pending) (some failed)
  confirms : Moves (some submitted) (some confirmed)
  reverts : Moves (some submitted) (some failed)
  retries : Moves (some submitted) (some pending)
  releases : Moves (some bundling) (some pending)
  forgets : {s : Status} → is_terminal s ≡ true → Moves (some s) none
