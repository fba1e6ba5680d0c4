-- ===== src/Tests/Loop.antt =====
-- The theorems on the bundling loop, at concrete inputs.
use signet_min_bundler.Prelude.{◌≡◌, refl, true, [], ◌++◌, Text, codes}
use signet_min_bundler.Go.{ok, err, answer, failure}
use signet_min_bundler.Mempool.Table.{pending, submitted, satisfies_indexes}
use signet_min_bundler.Mempool.Table.Rows.{row_at}
use signet_min_bundler.Mempool.Repo.{no_extra}
use signet_min_bundler.Bundler.Loop.{TickEnv, submitted_extra, tick}
use signet_min_bundler.Bundler.Loop.Outcome.{
  Settles, end_status, end_extra, claim_and_submit_submitted, claim_and_submit_refused,
  claim_and_submit_estimate_failed,
}
use signet_min_bundler.Bundler.Loop.Lifecycle.{Follows, tick-Follows}
use signet_min_bundler.Tests.Instances.{sample, stable, stable_laws}
use signet_min_bundler.Tests.Mempool.{
  two_rows, two_rows_indexes, two_rows-IsValid, two_ops, two_ops_pending, first_hash,
}

abbrev pub working : TickEnv
working = record {
  address = [];
  check_balance = answer tt;
  estimate_gas = λ _. answer 21000;
  call_contract = λ _. answer [];
  sign_and_submit = λ _ _. answer first_hash;
}

abbrev refusing : TickEnv
refusing = record working { sign_and_submit = λ _ _. failure (codes "nonce too low") }

abbrev reverting : TickEnv
reverting = record working { estimate_gas = λ _. failure (codes "execution reverted") }

tick-Follows_example :
    (satisfies_indexes (tick sample stable working 10 9 two_rows).1 ≡ true)
    × ((k : Text) → Follows two_rows k (row_at k (tick sample stable working 10 9 two_rows).1))
tick-Follows_example = tick-Follows sample 9 stable working 10 two_rows stable_laws two_rows-IsValid

claim_and_submit_submitted_example :
    Settles sample 9 working two_ops two_rows
      (ok tt)
      (λ _. submitted)
      (λ i. submitted_extra first_hash i 9)
claim_and_submit_submitted_example =
    claim_and_submit_submitted sample 9 working two_ops two_rows {gas = 21000} {tx = first_hash}
      two_rows_indexes two_ops_pending refl refl

claim_and_submit_refused_example :
    Settles sample 9 refusing two_ops two_rows
      (err (codes "submit bundle: " ++ codes "nonce too low"))
      (λ _. pending)
      (λ _. no_extra)
claim_and_submit_refused_example =
    claim_and_submit_refused sample 9 refusing two_ops two_rows {gas = 21000}
      {reason = codes "nonce too low"} two_rows_indexes two_ops_pending refl refl

claim_and_submit_estimate_failed_example :
    Settles sample 9 reverting two_ops two_rows
      (err (codes "estimate gas: " ++ codes "execution reverted"))
      (λ _. end_status sample 9 reverting two_ops two_rows (codes "execution reverted"))
      (λ _. end_extra sample 9 reverting two_ops two_rows (codes "execution reverted"))
claim_and_submit_estimate_failed_example =
    claim_and_submit_estimate_failed sample 9 reverting two_ops two_rows
      {e = codes "execution reverted"} two_rows_indexes two_ops_pending refl
