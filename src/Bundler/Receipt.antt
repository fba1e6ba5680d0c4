-- ===== src/Bundler/Receipt.antt =====
-- internal/bundler/receipt.go: the logs of a receipt, and the revert data of a bundle. `int` is the
-- 64-bit word, and a slice out of its bounds panics.
pub mod Reason
use signet_min_bundler.Prelude.{
  ℕ, Bool, false, ◌&&◌, Option, none, some, List, [], ◌∷◌, ltb, leb, ◌==◌, if◌then◌else◌, Bytes,
  Text, codes, equal, length, drop,
}
use signet_min_bundler.Go.{Result, ok, ◌>>=◌, ℤ, pos, int64_of, add64, lt_int, slice, sub}
use signet_min_bundler.Hex.{set_bytes}
use signet_min_bundler.External.{External}
use signet_min_bundler.Mempool.Table.{pending, failed, Table}
use signet_min_bundler.Mempool.Hydrate.{StoredOp}
use signet_min_bundler.Mempool.Repo.{no_extra, update_status}

-- `types.Log`, as far as it is read.
pub record Log : Type 0 where
  pub address : Bytes
  pub topics : List Bytes
  pub data_bytes : Bytes

-- `OpOutcome`
pub record OpOutcome : Type 0 where
  pub success : Bool
  pub actual_gas_cost : Option ℤ
  pub revert_reason : Option Text

-- `map[common.Hash]*OpOutcome`
abbrev pub Outcomes : Type 0
Outcomes = List (Bytes × OpOutcome)

unfoldable pub outcome_of : Bytes → Outcomes → Option OpOutcome
outcome_of h [] = none
outcome_of h ((g, o) ∷ rest) = if equal g h then some o else outcome_of h rest

-- `outcomes[h] = o`
unfoldable pub put_outcome : Bytes → OpOutcome → Outcomes → Outcomes
put_outcome h o rest = (h, o) ∷ rest

-- `userOperationEventTopic`
unfoldable pub event_topic : External → Bytes
event_topic x =
    x.keccak256 (codes "UserOperationEvent(bytes32,address,address,uint256,bool,uint256,uint256)")

-- `userOperationRevertReasonTopic`
unfoldable pub revert_reason_topic : External → Bytes
revert_reason_topic x =
    x.keccak256 (codes "UserOperationRevertReason(bytes32,address,uint256,bytes)")

-- `data[i] == b`, at an index that the source has checked.
abbrev pub byte_is : ℕ → ℕ → Bytes → Bool
byte_is i b data_bytes = elim (drop i data_bytes) [ [] ↦ false | c ∷ _ ↦ c == b ]

-- The case of `userOperationEventTopic`.
unfoldable pub read_event : List Bytes → Bytes → Outcomes → Outcomes
read_event [] data_bytes outcomes = outcomes
read_event (hash ∷ _) data_bytes outcomes =
    if ltb (length data_bytes) 96
    then outcomes
    else put_outcome hash
        (record {
          success = byte_is 63 1 data_bytes;
          actual_gas_cost = some (pos (set_bytes (sub data_bytes 64 96)));
          revert_reason = none;
        })
        outcomes

-- The upper bound of a slice, clamped to the length.
abbrev pub clamp : ℤ → Bytes → ℤ
clamp end_pos data_bytes =
    if lt_int (pos (length data_bytes)) end_pos then pos (length data_bytes) else end_pos

-- `log.Data[96:reasonEnd]`
unfoldable pub reason_bytes : Bytes → Result Bytes
reason_bytes data_bytes =
    let reason_len = int64_of (set_bytes (sub data_bytes 64 96)) in
    slice data_bytes (pos 96) (clamp (add64 (pos 96) reason_len) data_bytes)

unfoldable pub with_reason : Text → Option OpOutcome → OpOutcome
with_reason reason (some o) = record o { revert_reason = some reason }
with_reason reason none = record {
  success = false;
  actual_gas_cost = none;
  revert_reason = some reason;
}

-- The case of `userOperationRevertReasonTopic`.
unfoldable pub read_reason : List Bytes → Bytes → Outcomes → Result Outcomes
unfolding reason_bytes with_reason put_outcome outcome_of
read_reason [] data_bytes outcomes = ok outcomes
read_reason (hash ∷ _) data_bytes outcomes = if ltb (length data_bytes) 96 then ok outcomes else (do
  reason ← reason_bytes data_bytes
  ok (put_outcome hash (with_reason reason (outcome_of hash outcomes)) outcomes))

-- One round of the loop of `ParseHandleOpsReceipt`.
unfoldable pub read_topics : External → List Bytes → Bytes → Outcomes → Result Outcomes
read_topics x [] data_bytes outcomes = ok outcomes
read_topics x (topic ∷ topics) data_bytes outcomes =
    if equal topic (event_topic x)
    then ok (read_event topics data_bytes outcomes)
    else if equal topic (revert_reason_topic x)
    then read_reason topics data_bytes outcomes
    else ok outcomes

unfoldable pub read_logs : External → Bytes → List Log → Outcomes → Result Outcomes
unfolding read_topics
read_logs x entry_point [] outcomes = ok outcomes
read_logs x entry_point (log ∷ logs) outcomes =
    if equal log.address entry_point
    then (do
      outcomes' ← read_topics x log.topics log.data_bytes outcomes
      read_logs x entry_point logs outcomes')
    else read_logs x entry_point logs outcomes

-- `ParseHandleOpsReceipt`
unfoldable pub parse_handle_ops_receipt : External → Bytes → List Log → Result Outcomes
parse_handle_ops_receipt x entry_point logs = read_logs x entry_point logs []

-- `failedOpSelector`
unfoldable pub failed_op_selector : External → Bytes
failed_op_selector x = sub (x.keccak256 (codes "FailedOp(uint256,string)")) 0 4

abbrev pub unknown : Text
unknown = codes "unknown"

-- The string of `DecodeFailedOp`, which starts at `str_start`.
unfoldable pub read_string : Bytes → ℤ → Result Text
read_string data_bytes str_start =
    if lt_int (pos (length data_bytes)) (add64 str_start (pos 32)) then ok unknown else (do
      len_word ← slice data_bytes str_start (add64 str_start (pos 32))
      let str_data_start = add64 str_start (pos 32)
      slice data_bytes str_data_start
          (clamp (add64 str_data_start (int64_of (set_bytes len_word))) data_bytes))

-- `DecodeFailedOp`
unfoldable pub decode_failed_op : Bytes → Result (ℤ × Text)
unfolding read_string
decode_failed_op data_bytes =
    let size = length data_bytes in
    let op_index = int64_of (set_bytes (sub data_bytes 4 36)) in
    if ltb size 36 then ok (pos 0, unknown) else if ltb size 68 then ok (op_index, unknown) else (do
      reason ← read_string data_bytes (add64 (pos 4) (int64_of (set_bytes (sub data_bytes 36 68))))
      ok (op_index, reason))

-- `op.BundleIndex != nil && *op.BundleIndex == opIndex`
abbrev pub is_failed_index : Option ℕ → ℤ → Bool
is_failed_index (some i) (pos k) = i == k
is_failed_index _ _ = false

-- The loop of the `FailedOp` branch; errors of `UpdateStatus` are ignored.
unfoldable pub fail_one : External → ℕ → ℤ → Text → List StoredOp → Table → Table
fail_one x now op_index reason [] t = t
fail_one x now op_index reason (op ∷ ops) t =
    let t' =
      if is_failed_index op.bundle_index op_index
      then (update_status x now op.hash failed (record no_extra { revert_reason = some reason })
          t).1
      else (update_status x now op.hash pending no_extra t).1 in
    fail_one x now op_index reason ops t'

-- The loop of the other branch.
unfoldable pub reset_all : External → ℕ → List StoredOp → Table → Table
reset_all x now [] t = t
reset_all x now (op ∷ ops) t =
    reset_all x now ops (update_status x now op.hash pending no_extra t).1

-- `HandleBundleRevert`
unfoldable pub handle_bundle_revert : External → ℕ → Bytes → List StoredOp → Table → Result Table
unfolding fail_one reset_all decode_failed_op failed_op_selector
handle_bundle_revert x now revert_data ops t =
    if leb 4 (length revert_data) && equal (sub revert_data 0 4) (failed_op_selector x)
    then (do
      (op_index, reason) ← decode_failed_op revert_data
      ok (fail_one x now op_index reason ops t))
    else ok (reset_all x now ops t)
