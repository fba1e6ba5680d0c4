-- ===== src/Mempool/Table.antt =====
-- internal/mempool/types.go and the schema of db.go: statuses, the rows of `user_operations`, and
-- what a statement on that table does under its two unique indexes. The rows stand in the order of
-- insertion. A failure of the database itself (disk, locks) is not modelled.
pub mod Indexes
pub mod Rows
use signet_min_bundler.Prelude.{
  ℕ, ◌+◌, Bool, true, false, not, ◌&&◌, ◌||◌, Option, none, some, List, [], ◌∷◌, ◌++◌, ltb, leb,
  if◌then◌else◌, Text, equal, any, length, select,
}
use signet_min_bundler.Go.{ℤ, pos, negsuc}

-- `Status`
pub data Status : Type 0 where
  pending bundling submitted confirmed failed replaced : Status

-- `Status.IsTerminal`
abbrev pub is_terminal : Status → Bool
is_terminal confirmed = true
is_terminal failed = true
is_terminal replaced = true
is_terminal _ = false

-- `==` on statuses.
abbrev pub same_status : Status → Status → Bool
same_status pending pending = true
same_status bundling bundling = true
same_status submitted submitted = true
same_status confirmed confirmed = true
same_status failed failed = true
same_status replaced replaced = true
same_status _ _ = false

-- A row of `user_operations`; a column that may be NULL is an `Option`.
pub record Row : Type 0 where
  pub hash : Text
  pub sender : Text
  pub nonce : Text
  pub init_code : Text
  pub call_data : Text
  pub account_gas_limits : Text
  pub pre_verification_gas : Text
  pub gas_fees : Text
  pub paymaster_and_data : Text
  pub signature : Text
  pub status : Status
  pub bundle_tx_hash : Option Text
  pub bundle_index : Option ℕ
  pub submitted_at : Option ℕ
  pub block_number : Option ℕ
  pub revert_reason : Option Text
  pub actual_gas_cost : Option Text
  pub received_at : ℕ
  pub updated_at : ℕ

abbrev pub Table : Type 0
Table = List Row

-- The condition of the partial index `idx_userop_sender_nonce`.
abbrev pub is_active : Row → Bool
is_active r = not (is_terminal r.status)

-- Two rows that may not stand in the table together: the primary key, or the partial index.
unfoldable pub clash : Row → Row → Bool
clash r s =
    equal r.hash s.hash
    || is_active r && is_active s && equal r.sender s.sender && equal r.nonce s.nonce

unfoldable pub satisfies_indexes : Table → Bool
satisfies_indexes [] = true
satisfies_indexes (r ∷ t) = not (any (clash r) t) && satisfies_indexes t

-- `WHERE hash = ?`
abbrev pub has_hash : Text → Row → Bool
has_hash h r = equal r.hash h

-- `WHERE status = ?`
abbrev pub has_status : Status → Row → Bool
has_status s r = same_status r.status s

-- `SELECT` of one row.
unfoldable pub find_row : (Row → Bool) → Table → Option Row
find_row test [] = none
find_row test (r ∷ t) = if test r then some r else find_row test t

-- `INSERT`; `none` is "UNIQUE constraint failed".
unfoldable pub insert_row : Row → Table → Option Table
insert_row r t = if any (clash r) t then none else some (t ++ r ∷ [])

-- `UPDATE … SET change WHERE test`: the rows that it leaves.
unfoldable pub update_rows : (Row → Bool) → (Row → Row) → Table → Table
update_rows test change [] = []
update_rows test change (r ∷ t) = (if test r then change r else r) ∷ update_rows test change t

-- `RowsAffected()`
unfoldable pub count_rows : (Row → Bool) → Table → ℕ
count_rows test t = length (select test t)

-- An `UPDATE` with the check of the indexes: the rows affected and the table, or `none` for "UNIQUE
-- constraint failed".
unfoldable pub update : (Row → Bool) → (Row → Row) → Table → Option (ℕ × Table)
unfolding update_rows satisfies_indexes count_rows
update test change t =
    let t' = update_rows test change t in
    if satisfies_indexes t' then some (count_rows test t, t') else none

-- `time < cutoff`, where the cutoff is a difference of times.
abbrev pub before : ℕ → ℤ → Bool
before time (pos cutoff) = ltb time cutoff
before time (negsuc n) = false
