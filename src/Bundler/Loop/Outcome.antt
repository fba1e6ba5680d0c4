-- ===== src/Bundler/Loop/Outcome.antt =====
-- What `Tick` leaves of the claimed operations, on each of its branches.
use signet_min_bundler.Prelude.{
  ℕ, ◌+◌, ◌≡◌, refl, ap, ◌∙◌, ◌⊎◌, inl, inr, true, false, Option, none, some, List, [], ◌∷◌, ◌++◌,
  arith, if◌then◌else◌, Bytes, Text, codes, equal_self, any, Bool-cases, Option-cases, map_option,
  map,
}
use signet_min_bundler.Go.{Result, ok, err, answer, failure}
use signet_min_bundler.External.{External}
use signet_min_bundler.Core.UserOp.{PackedUserOp}
use signet_min_bundler.Mempool.Table.{
  Status, pending, bundling, submitted, failed, Row, Table, satisfies_indexes,
}
use signet_min_bundler.Mempool.Table.Rows.{row_at}
use signet_min_bundler.Mempool.Hydrate.{StoredOp, StatusExtra}
use signet_min_bundler.Mempool.Repo.{no_extra, set_columns, with_status, claim_for_bundling}
use signet_min_bundler.Mempool.Repo.Claim.{AllPending, names, claim_pending}
use signet_min_bundler.Bundler.Abi.{build_handle_ops_calldata}
use signet_min_bundler.Bundler.Loop.{
  TickEnv, failed_extra, submitted_extra, extract_revert_reason, is_entry_point_revert,
  estimate_failed, with_buffer, submit_bundle, claim_and_submit,
}
use signet_min_bundler.Bundler.Loop.Settle.{
  place, op_named, AllLive, settle_all, settled, settle_all_rows, reset_to_pending-settle_all,
  fail_ops-settle_all, mark_submitted-settle_all,
}

abbrev pub hashes_of : List StoredOp → List Bytes
hashes_of = map (λ op. op.hash)

abbrev pub packed_of : List StoredOp → List PackedUserOp
packed_of = map (λ op. op.op)

module _ (x : External) (now : ℕ) where
  names-place :
      (k : Text) (i : ℕ) (ops : List StoredOp)
      → names x k (hashes_of ops) ≡ elim (place x k i ops) [ none ↦ false | some j ↦ true ]
  unfolding place
  names-place k i [] = refl
  names-place k i (op ∷ ops) = ground (arith, names-place k (i + 1) ops)

  any-names : (k : Text) (ops : List StoredOp) → any (op_named x k) ops ≡ names x k (hashes_of ops)
  any-names k [] = refl
  any-names k (op ∷ ops) = ground (arith, any-names k ops)

  -- Claimed rows are live.
  claimed-AllLive :
      (ops : List StoredOp) (t t' : Table)
      → AllPending x t (hashes_of ops)
      → ((k : Text)
          → names x k (hashes_of ops) ≡ true
          → row_at k t' ≡ map_option (with_status now bundling) (row_at k t))
      → AllLive x t' ops
  claimed-AllLive [] t t' a rows = tt
  claimed-AllLive (op ∷ ops) t t' a rows = (
    (
      with_status now bundling a.0.0,
      rows (x.hash_hex op.hash) (rw equal_self) ∙ rw a.0.1.found,
      refl,
    ),
    any-names (x.hash_hex op.hash) ops ∙ a.1,
    claimed-AllLive ops t t' a.2 (λ k n. rows k (ground arith)),
  )

  -- What becomes of the row of an operation that the bundle holds at place `i`.
  abbrev pub after : (ℕ → Status) → (ℕ → StatusExtra) → Option ℕ → Option Row → Option Row
  after s extra none row = row
  after s extra (some i) row =
      map_option (λ r. set_columns x now (s i) (extra i) (with_status now bundling r)) row

  -- The claim and one of the loops together.
  settle_claimed :
      (s : ℕ → Status) (extra : ℕ → StatusExtra) (ops : List StoredOp) (t : Table)
      → satisfies_indexes t ≡ true
      → AllPending x t (hashes_of ops)
      → (t' : Table) × (claim_for_bundling x now (hashes_of ops) t ≡ (ok tt, t'))
        × (satisfies_indexes (settle_all x now s extra 0 ops t') ≡ true)
        × ((k : Text)
            → row_at k (settle_all x now s extra 0 ops t')
              ≡ after s extra (place x k 0 ops) (row_at k t))
  settle_claimed s extra ops t v a =
      let (t', done, v', rows) = claim_pending x now (hashes_of ops) t v a in
      let (v'', settled_rows) =
        settle_all_rows x now s extra 0 ops t' v'
          (claimed-AllLive ops t t' a (λ k n. rows k ∙ rw n)) in
      (t', done, v'', λ k. settled_rows k ∙ both k t' (rows k) (Option-cases (place x k 0 ops)))
    where
      both :
          (k : Text) (t' : Table)
          → row_at k t' ≡ (
              if names x k (hashes_of ops)
              then map_option (with_status now bundling) (row_at k t)
              else row_at k t)
          → (place x k 0 ops ≡ none) ⊎ ((i : ℕ) × (place x k 0 ops ≡ some i))
          → settled x now s extra (place x k 0 ops) (row_at k t')
            ≡ after s extra (place x k 0 ops) (row_at k t)
      both k t' e (inl absent) =
          let n : names x k (hashes_of ops) ≡ false = names-place k 0 ops ∙ rw absent in
          rw absent (e ∙ rw n)
      both k t' e (inr (i, at)) =
          let n : names x k (hashes_of ops) ≡ true = names-place k 0 ops ∙ rw at in
          rw at
            (ap (map_option (set_columns x now (s i) (extra i))) (e ∙ rw n) ∙ twice i (row_at k t))
        where
          twice :
              (i : ℕ) (o : Option Row)
              → map_option
                  (set_columns x now (s i) (extra i))
                  (map_option (with_status now bundling) o)
                ≡ map_option (λ r. set_columns x now (s i) (extra i) (with_status now bundling r)) o
          twice i none = refl
          twice i (some r) = refl

  module _ (env : TickEnv) (ops : List StoredOp) (t : Table) where
    abbrev pub bundle_data : Bytes
    bundle_data = build_handle_ops_calldata x (packed_of ops) env.address

    claim_and_submit_claimed :
        {t' : Table}
        → claim_for_bundling x now (hashes_of ops) t ≡ (ok tt, t')
        → claim_and_submit x env now ops t ≡ submit_bundle x env now ops t'
    unfolding claim_and_submit
    claim_and_submit_claimed done = rw (done, claim_and_submit) (rw done)

    submit_bundle_submitted :
        {gas : ℕ} {tx : Bytes} (t' : Table)
        → env.estimate_gas bundle_data ≡ answer gas
        → env.sign_and_submit bundle_data (with_buffer gas) ≡ answer tx
        → submit_bundle x env now ops t'
          ≡ (ok tt, settle_all x now (λ _. submitted) (λ i. submitted_extra tx i now) 0 ops t')
    unfolding submit_bundle
    submit_bundle_submitted {gas} {tx} t' e s =
        rw (e, s, submit_bundle) (rw (mark_submitted-settle_all x now tx 0 ops t'))

    submit_bundle_refused :
        {gas : ℕ} {reason : Text} (t' : Table)
        → env.estimate_gas bundle_data ≡ answer gas
        → env.sign_and_submit bundle_data (with_buffer gas) ≡ failure reason
        → submit_bundle x env now ops t' ≡ (
          err (codes "submit bundle: " ++ reason),
          settle_all x now (λ _. pending) (λ _. no_extra) 0 ops t',
        )
    unfolding submit_bundle
    submit_bundle_refused t' e s =
        rw (e, s, submit_bundle) (rw (reset_to_pending-settle_all x now 0 ops t'))

    -- The reason that the simulation of the bundle gives.
    abbrev pub revert_reason_of : Text
    revert_reason_of = extract_revert_reason (env.call_contract bundle_data)

    -- How an operation of a bundle that cannot be estimated ends.
    abbrev pub end_status : Text → Status
    end_status e = if is_entry_point_revert e revert_reason_of then failed else pending

    abbrev pub end_extra : Text → StatusExtra
    end_extra e =
        if is_entry_point_revert e revert_reason_of then failed_extra revert_reason_of else no_extra

    submit_bundle_estimate_failed :
        {e : Text} (t' : Table)
        → env.estimate_gas bundle_data ≡ failure e
        → submit_bundle x env now ops t' ≡ (
          err (codes "estimate gas: " ++ e),
          settle_all x now (λ _. end_status e) (λ _. end_extra e) 0 ops t',
        )
    unfolding submit_bundle estimate_failed
    submit_bundle_estimate_failed {e} t' failed_to =
        elim (Bool-cases (is_entry_point_revert e revert_reason_of)) [
          | inl permanent ↦
              rw (failed_to, permanent, submit_bundle)
                (rw (fail_ops-settle_all x now revert_reason_of 0 ops t'))
          | inr transient ↦
              rw (failed_to, transient, submit_bundle)
                (rw (reset_to_pending-settle_all x now 0 ops t'))
        ]

    -- A result, with the rows of the bundle settled one way and every other row as it was.
    abbrev pub Settles : Result (Unit {0}) → (ℕ → Status) → (ℕ → StatusExtra) → Type 0
    Settles result s extra =
        (t' : Table) × (claim_and_submit x env now ops t ≡ (result, t'))
        × (satisfies_indexes t' ≡ true)
        × ((k : Text) → row_at k t' ≡ after s extra (place x k 0 ops) (row_at k t))

    settles :
        (result : Result (Unit {0})) (s : ℕ → Status) (extra : ℕ → StatusExtra)
        → satisfies_indexes t ≡ true
        → AllPending x t (hashes_of ops)
        → ((t' : Table)
            → submit_bundle x env now ops t' ≡ (result, settle_all x now s extra 0 ops t'))
        → Settles result s extra
    settles result s extra v a branch =
        let (t', done, v', rows) = settle_claimed s extra ops t v a in
        (
          settle_all x now s extra 0 ops t',
          claim_and_submit_claimed {t' = t'} done ∙ branch t',
          v',
          rows,
        )

    -- If the table satisfies the unique indexes, the operations are different pending ones, the
    -- gas is estimated and the transaction is accepted, the bundle succeeds: each of its rows is
    -- submitted under the transaction's hash and its place in the bundle, no other row has
    -- changed, and the indexes hold.
    pub claim_and_submit_submitted :
        {gas : ℕ} {tx : Bytes}
        → satisfies_indexes t ≡ true
        → AllPending x t (hashes_of ops)
        → env.estimate_gas bundle_data ≡ answer gas
        → env.sign_and_submit bundle_data (with_buffer gas) ≡ answer tx
        → Settles (ok tt) (λ _. submitted) (λ i. submitted_extra tx i now)
    claim_and_submit_submitted {gas} {tx} v a e s =
        settles (ok tt) (λ _. submitted) (λ i. submitted_extra tx i now) v a
          (λ t'. submit_bundle_submitted {gas = gas} {tx = tx} t' e s)

    -- If the table satisfies the unique indexes, the operations are different pending ones, the
    -- gas is estimated and the transaction is refused, the error is returned, every operation of
    -- the bundle is pending again, no other row has changed, and the indexes hold.
    pub claim_and_submit_refused :
        {gas : ℕ} {reason : Text}
        → satisfies_indexes t ≡ true
        → AllPending x t (hashes_of ops)
        → env.estimate_gas bundle_data ≡ answer gas
        → env.sign_and_submit bundle_data (with_buffer gas) ≡ failure reason
        → Settles (err (codes "submit bundle: " ++ reason)) (λ _. pending) (λ _. no_extra)
    claim_and_submit_refused {gas} {reason} v a e s =
        settles (err (codes "submit bundle: " ++ reason)) (λ _. pending) (λ _. no_extra) v a
          (λ t'. submit_bundle_refused {gas = gas} {reason = reason} t' e s)

    -- If the table satisfies the unique indexes, the operations are different pending ones and
    -- the gas cannot be estimated, the error is returned, every operation of the bundle, not only
    -- the offending one, has failed with the simulated reason when the revert is the
    -- EntryPoint's, and every one is pending again otherwise, no other row has changed, and the
    -- indexes hold.
    pub claim_and_submit_estimate_failed :
        {e : Text}
        → satisfies_indexes t ≡ true
        → AllPending x t (hashes_of ops)
        → env.estimate_gas bundle_data ≡ failure e
        → Settles (err (codes "estimate gas: " ++ e)) (λ _. end_status e) (λ _. end_extra e)
    claim_and_submit_estimate_failed {e} v a f =
        settles (err (codes "estimate gas: " ++ e)) (λ _. end_status e) (λ _. end_extra e) v a
          (λ t'. submit_bundle_estimate_failed {e = e} t' f)
