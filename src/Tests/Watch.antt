-- ===== src/Tests/Watch.antt =====
-- The theorems on the receipts' watcher and the reconciliation, at concrete inputs.
use mathlib.Core.List.Permᴰ
use signet_min_bundler.Prelude.{
  ◌+◌, ◌-◌, ◌%◌, ◌++◌, min, ltb, if◌then◌else◌, arith, Bytes, length, replicate, ◌≡◌, true, [],
  Text,
}
use signet_min_bundler.Go.{answer, ok, panic, sub, zeros, word, half_word}
use signet_min_bundler.Hex.{set_bytes}
use signet_min_bundler.Bundler.Receipt.{reason_bytes}
use signet_min_bundler.Bundler.Receipt.Reason.{reason_bytes_cases}
use signet_min_bundler.Mempool.Table.{satisfies_indexes}
use signet_min_bundler.Mempool.Table.Rows.{row_at}
use signet_min_bundler.Bundler.Watcher.{WatchEnv, poll, reconcile}
use signet_min_bundler.Bundler.Watcher.Settlement.{IsPolled}
use signet_min_bundler.Bundler.Watcher.Poll.{
  WatchLaws, IsReleased, poll-IsPolled, reconcile_releases,
}
use signet_min_bundler.Tests.Instances.{sample, stable, stable_laws}
use signet_min_bundler.Tests.Mempool.{live_pair, live_pair-IsValid}

-- A node on which every bundle has reverted.
abbrev reverted_bundles : WatchEnv
reverted_bundles = record {
  entry_point = [];
  receipt_of = λ _. answer (record { status = 0; block_number = 7; logs = [] });
  visit = λ groups. groups;
  now = 9;
}

reverted_bundles_laws : WatchLaws reverted_bundles
reverted_bundles_laws = record { visit-perm = λ groups. Permᴰ.refl groups }

poll-IsPolled_example : IsPolled live_pair (poll sample stable reverted_bundles live_pair).1
poll-IsPolled_example =
    poll-IsPolled sample reverted_bundles live_pair stable stable_laws reverted_bundles_laws
      live_pair-IsValid

reconcile_releases_example :
    (satisfies_indexes (reconcile sample stable reverted_bundles live_pair).1 ≡ true)
    × ((k : Text) → IsReleased (row_at k (reconcile sample stable reverted_bundles live_pair).1))
reconcile_releases_example =
    reconcile_releases sample reverted_bundles stable live_pair stable_laws reverted_bundles_laws
      live_pair-IsValid

-- A log whose length word is 2^64 - 1.
abbrev long_reason : Bytes
long_reason = zeros 64 ++ (zeros 24 ++ replicate 8 255)

reason_bytes_cases_example : reason_bytes long_reason ≡ (
    if ltb (set_bytes (sub long_reason 64 96) % word) (half_word - 96)
    then ok (
        sub long_reason 96
          (min (96 + set_bytes (sub long_reason 64 96) % word) (length long_reason)))
    else panic)
reason_bytes_cases_example = reason_bytes_cases long_reason (omega arith) (omega arith)
