-- ===== src/Tests/Mempool.antt =====
-- The theorems on the mempool, at concrete inputs.
use signet_min_bundler.Prelude.{
  ℕ, ◌≡◌, ◌≢◌, refl, sym, ap, ◌∙◌, true, false, Option, none, some, List, [], ◌∷◌, arith,
  if◌then◌else◌, Bytes, Text, codes, IsArray, equal, map, map_option, to_lower,
}
use signet_min_bundler.Go.{ok, err, pos, zeros}
use signet_min_bundler.Hex.{bytes_to_hex, hex_encode, big_to_hex, int_text, nat_text}
use signet_min_bundler.Hex.Digits.{to_digits}
use signet_min_bundler.Core.UserOp.{PackedUserOp}
use signet_min_bundler.Mempool.Table.{
  Status, pending, bundling, submitted, confirmed, Row, Table, is_active, clash, satisfies_indexes,
  find_row, has_status, count_rows,
}
use signet_min_bundler.Mempool.Table.Rows.{row_at}
use signet_min_bundler.Mempool.Hydrate.{StatusExtra, StoredOp, new_row, scan_ops}
use signet_min_bundler.Mempool.Hydrate.Roundtrip.{IsPacked, fresh, hydrate_op-new_row}
use signet_min_bundler.Mempool.Repo.{
  insert, duplicate, with_status, no_extra, update_status, claim_for_bundling, get_by_hash,
  get_pending, reset_bundling_to_pending, mark_ttl_expired, prune_history, is_stale, is_old_history,
  expire,
}
use signet_min_bundler.Mempool.Repo.UpdateStatus.{Becomes, IsUpdated, update_status_found}
use signet_min_bundler.Mempool.Repo.Claim.{AllPending, names, claim_pending, claim_not_pending}
use signet_min_bundler.Mempool.Repo.Insert.{insert_new, insert_live_nonce}
use signet_min_bundler.Mempool.Repo.Sweep.{reset_bundling, mark_ttl_expired_lem, prune_history_lem}
use signet_min_bundler.Mempool.Repo.Pending.{IsValid, get_pending-AllPending}
use signet_min_bundler.Tests.Instances.{
  sample, sample_laws, sort_by, insert_by, stable, stable_laws, zeros-IsArray,
}

abbrev pub first_hash : Bytes
first_hash = zeros 32

abbrev pub second_hash : Bytes
second_hash = 171 ∷ zeros 31

abbrev pub sample_op : ℕ → PackedUserOp
sample_op n = record {
  sender = 222 ∷ zeros 19;
  nonce = pos n;
  init_code = [];
  call_data = 182 ∷ 29 ∷ [];
  account_gas_limits = zeros 32;
  pre_verification_gas = pos 500;
  gas_fees = zeros 32;
  paymaster_and_data = [];
  signature = 255 ∷ [];
}

abbrev pub first_row : Row
first_row = new_row sample 5 (sample_op 1) first_hash

abbrev pub second_row : Row
second_row = new_row sample 6 (sample_op 2) second_hash

abbrev pub two_rows : Table
two_rows = first_row ∷ second_row ∷ []

first_hash-IsArray : IsArray 32 first_hash
first_hash-IsArray = zeros-IsArray 32

second_hash-IsArray : IsArray 32 second_hash
second_hash-IsArray =
    let a = zeros-IsArray 31 in record { len = refl; bytes = (omega arith, a.bytes) }

pub sample_op-IsPacked : (n : ℕ) → IsPacked (sample_op n)
sample_op-IsPacked n =
    let a = zeros-IsArray 19 in
    record {
      sender = record { len = refl; bytes = (omega arith, a.bytes) };
      init_code = tt;
      call_data = (omega arith, (omega arith, tt));
      account_gas_limits = zeros-IsArray 32;
      gas_fees = zeros-IsArray 32;
      paymaster_and_data = tt;
      signature = (omega arith, tt);
    }

pub two_rows_indexes : satisfies_indexes two_rows ≡ true
unfolding satisfies_indexes clash new_row hex_encode bytes_to_hex big_to_hex int_text nat_text
    to_digits
two_rows_indexes = refl

first_found : row_at (sample.hash_hex first_hash) two_rows ≡ some first_row
unfolding find_row new_row hex_encode bytes_to_hex
first_found = refl

second_found : row_at (sample.hash_hex second_hash) two_rows ≡ some second_row
unfolding find_row new_row hex_encode bytes_to_hex
second_found = refl

pub both_pending : AllPending sample two_rows (first_hash ∷ second_hash ∷ [])
unfolding new_row hex_encode bytes_to_hex
both_pending = (
  (first_row, record { found = first_found; status = refl }),
  refl,
  ((second_row, record { found = second_found; status = refl }), refl, tt),
)

-- Claims.
claim_pending_example :
    (t' : Table) × (claim_for_bundling sample 9 (first_hash ∷ second_hash ∷ []) two_rows
      ≡ (ok tt, t'))
    × (satisfies_indexes t' ≡ true)
    × ((k : Text)
        → row_at k t' ≡ (
            if names sample k (first_hash ∷ second_hash ∷ [])
            then map_option (with_status 9 bundling) (row_at k two_rows)
            else row_at k two_rows))
claim_pending_example =
    claim_pending sample 9 (first_hash ∷ second_hash ∷ []) two_rows two_rows_indexes both_pending

abbrev sent_row : Row
sent_row = record first_row { status = submitted }

abbrev mixed : Table
mixed = sent_row ∷ second_row ∷ []

mixed_indexes : satisfies_indexes mixed ≡ true
unfolding satisfies_indexes clash new_row hex_encode bytes_to_hex big_to_hex int_text nat_text
    to_digits
mixed_indexes = refl

sent_found : row_at (sample.hash_hex first_hash) mixed ≡ some sent_row
unfolding find_row new_row hex_encode bytes_to_hex
sent_found = refl

sent_not_pending :
    (r : Row) → row_at (sample.hash_hex first_hash) mixed ≡ some r → r.status ≢ pending
sent_not_pending r e p = absurd (submitted_pending (ap status_of (sym sent_found ∙ e) ∙ p))
  where
    status_of : Option Row → Status
    status_of none = pending
    status_of (some u) = u.status

    submitted_pending : submitted ≢ pending
    submitted_pending = λ q. cc

claim_not_pending_example :
    (e : Text) × (claim_for_bundling sample 9 (second_hash ∷ first_hash ∷ []) mixed
      ≡ (err e, mixed))
claim_not_pending_example =
    claim_not_pending sample 9 (second_hash ∷ first_hash ∷ []) mixed first_hash mixed_indexes refl
      sent_not_pending

-- Insertions.
abbrev one_row : Table
one_row = first_row ∷ []

one_row_indexes : satisfies_indexes one_row ≡ true
unfolding satisfies_indexes
one_row_indexes = refl

second_absent : row_at (sample.hash_hex second_hash) one_row ≡ none
unfolding find_row new_row hex_encode bytes_to_hex
second_absent = refl

other_nonce : first_row.nonce ≢ big_to_hex (sample_op 2).nonce
unfolding new_row big_to_hex int_text nat_text to_digits
other_nonce e = different (ap (λ u. equal u (codes "0x1")) e)
  where
    different : true ≢ false
    different = λ q. cc

first_alone : row_at (sample.hash_hex first_hash) one_row ≡ some first_row
unfolding find_row new_row hex_encode bytes_to_hex
first_alone = refl

first_active : is_active first_row ≡ true
unfolding new_row
first_active = refl

first_sender : first_row.sender ≡ to_lower (sample.address_hex (sample_op 1).sender)
unfolding new_row
first_sender = refl

first_nonce : first_row.nonce ≡ big_to_hex (sample_op 1).nonce
unfolding new_row
first_nonce = refl

insert_new_example :
    (t' : Table) × (insert sample 6 (sample_op 2) second_hash one_row ≡ (ok tt, t'))
    × Becomes one_row t' (sample.hash_hex second_hash) (new_row sample 6 (sample_op 2) second_hash)
    × (get_by_hash sample second_hash t' ≡ ok (fresh 6 (sample_op 2) second_hash))
insert_new_example =
    insert_new sample 6 (sample_op 2) second_hash sample_laws one_row (sample_op-IsPacked 2)
      second_hash-IsArray one_row_indexes second_absent (λ a b. other_nonce, tt)

insert_live_nonce_example :
    insert sample 7 (sample_op 1) second_hash one_row ≡ (err duplicate, one_row)
insert_live_nonce_example =
    insert_live_nonce sample 7 (sample_op 1) second_hash one_row (sample.hash_hex first_hash)
      {s = first_row} first_alone first_active first_sender first_nonce

-- `UpdateStatus`.
abbrev bundled : StatusExtra
bundled = record no_extra { bundle_index = some 3; revert_reason = some (codes "AA21") }

update_status_found_example :
    (t' : Table) × (r' : Row) × (update_status sample 8 first_hash submitted bundled two_rows
      ≡ (ok tt, t'))
    × Becomes two_rows t' (sample.hash_hex first_hash) r'
    × IsUpdated sample 8 submitted bundled first_row r'
update_status_found_example =
    update_status_found sample 8 first_hash submitted bundled two_rows {r = first_row}
      two_rows_indexes first_found (λ _. first_active)

-- The statements over many rows.
abbrev claimed_rows : Table
claimed_rows = record first_row { status = bundling } ∷ second_row ∷ []

claimed_rows_indexes : satisfies_indexes claimed_rows ≡ true
unfolding satisfies_indexes clash new_row hex_encode bytes_to_hex big_to_hex int_text nat_text
    to_digits
claimed_rows_indexes = refl

reset_bundling_example :
    (t' : Table) × (reset_bundling_to_pending 9 claimed_rows
      ≡ (ok (count_rows (has_status bundling) claimed_rows), t'))
    × (satisfies_indexes t' ≡ true)
    × ((k : Text)
        → row_at k t'
          ≡ map_option
              (λ r. if has_status bundling r then with_status 9 pending r else r)
              (row_at k claimed_rows))
reset_bundling_example = reset_bundling 9 claimed_rows claimed_rows_indexes

mark_ttl_expired_example :
    (t' : Table) × (mark_ttl_expired 100 (pos 6) two_rows
      ≡ (ok (count_rows (is_stale (pos 6)) two_rows), t'))
    × (satisfies_indexes t' ≡ true)
    × ((k : Text)
        → row_at k t'
          ≡ map_option (λ r. if is_stale (pos 6) r then expire 100 r else r) (row_at k two_rows))
mark_ttl_expired_example = mark_ttl_expired_lem 100 (pos 6) two_rows two_rows_indexes

abbrev old_rows : Table
old_rows = record first_row { status = confirmed } ∷ second_row ∷ []

old_rows_indexes : satisfies_indexes old_rows ≡ true
unfolding satisfies_indexes clash new_row hex_encode bytes_to_hex big_to_hex int_text nat_text
    to_digits
old_rows_indexes = refl

prune_history_example :
    (t' : Table) × (prune_history (pos 6) old_rows
      ≡ (ok (count_rows (is_old_history (pos 6)) old_rows), t'))
    × (satisfies_indexes t' ≡ true)
    × ((k : Text)
        → row_at k t' ≡ elim (row_at k old_rows) [
          | none ↦ none
          | some r ↦ if is_old_history (pos 6) r then none else some r
        ])
prune_history_example = prune_history_lem (pos 6) old_rows old_rows_indexes

pub two_rows-IsValid : IsValid sample two_rows
unfolding new_row
two_rows-IsValid = record {
  indexes = two_rows_indexes;
  canonical = (
    ap bytes_to_hex (sample_laws.hash_roundtrip first_hash first_hash-IsArray),
    (ap bytes_to_hex (sample_laws.hash_roundtrip second_hash second_hash-IsArray), tt),
  );
}

abbrev pub two_ops : List StoredOp
two_ops = fresh 5 (sample_op 1) first_hash ∷ fresh 6 (sample_op 2) second_hash ∷ []

two_pending : get_pending sample stable 10 two_rows ≡ ok two_ops
unfolding get_pending sort_by insert_by new_row
two_pending =
    unfold scan_ops in
    rw (
      hydrate_op-new_row sample sample_laws 5 (sample_op 1) first_hash (sample_op-IsPacked 1)
          first_hash-IsArray,
      hydrate_op-new_row sample sample_laws 6 (sample_op 2) second_hash (sample_op-IsPacked 2)
          second_hash-IsArray,
    )

get_pending-AllPending_example :
    AllPending sample two_rows (map (λ (op : StoredOp). op.hash) two_ops)
get_pending-AllPending_example =
    get_pending-AllPending sample two_rows 10 stable {ops = two_ops} stable_laws two_rows-IsValid
      two_pending

pub two_ops_pending : AllPending sample two_rows (map (λ (op : StoredOp). op.hash) two_ops)
unfolding fresh
two_ops_pending = both_pending

-- One operation is with the node, and the other in an interrupted claim.
abbrev pub live_pair : Table
live_pair =
    record first_row { status = submitted; bundle_tx_hash = some (sample.hash_hex second_hash) }
    ∷ record second_row { status = bundling }
    ∷ []

live_pair_indexes : satisfies_indexes live_pair ≡ true
unfolding satisfies_indexes clash new_row hex_encode bytes_to_hex big_to_hex int_text nat_text
    to_digits
live_pair_indexes = refl

pub live_pair-IsValid : IsValid sample live_pair
unfolding new_row
live_pair-IsValid = record {
  indexes = live_pair_indexes;
  canonical = (
    ap bytes_to_hex (sample_laws.hash_roundtrip first_hash first_hash-IsArray),
    (ap bytes_to_hex (sample_laws.hash_roundtrip second_hash second_hash-IsArray), tt),
  );
}
