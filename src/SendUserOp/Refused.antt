-- ===== src/SendUserOp/Refused.antt =====
-- The operations of cmd/send-userop/main.go in internal/rpc/methods.go and
-- internal/validator/allowlist.go.
use signet_min_bundler.Prelude.{Text, ℕ, ◌≡◌, ◌≢◌, refl, sym, ap, ◌∙◌, [], ◌∷◌, List, arith}
use signet_min_bundler.Go.{ok, Answer, answer}
use signet_min_bundler.Go.Results.{>>=-eq-ok}
use signet_min_bundler.External.{External}
use signet_min_bundler.Core.UserOp.{PackedUserOp, UserOperationRpc, from_rpc}
use signet_min_bundler.Validator.{Validator, check_gas_limits, check_paymaster, validate}
use signet_min_bundler.Mempool.Table.{Table}
use signet_min_bundler.Rpc.{Methods, Param, Reply, reply, handle_send_user_operation}
use signet_min_bundler.Rpc.Send.{
  Ends, received, invalid, rejected, crashed, IsReceived, handle_send_user_operation-Ends,
}
use signet_min_bundler.SendUserOp.Submit.{submitted_op}
use signet_min_bundler.SendUserOp.Accepted.{ReadsWire, IsSendable, from_rpc-submitted_op}

-- The validator accepts no operation without a paymaster.
validate-without_paymaster :
    (v : Validator) (op : PackedUserOp) → op.paymaster_and_data ≡ [] → validate v op ≢ ok tt
unfolding validate check_paymaster
validate-without_paymaster v op none e =
    let (_, _, checked) = >>=-eq-ok (check_gas_limits v op) _ e in
    absurd (ground (arith, none, checked))

module _ (x : External) (wire : ReadsWire x) (m : Methods) (now : ℕ) where
  -- If HexToAddress reads the lower-case text of an address: an operation of send-userop, in the
  -- form in which submitToBundler posts it, is accepted by no bundler of the repository: whatever
  -- the configuration, the entry point and the rest of the parameters, eth_sendUserOperation does
  -- not reply a hash, and leaves the table as it was.
  pub handle_send_user_operation-submitted_op :
      (p q : Param) (more : List Param) (t : Table) (op : PackedUserOp)
      → IsSendable op
      → p.as_op ≡ answer (submitted_op op)
      → ((h : Text) → (handle_send_user_operation x m now (p ∷ q ∷ more) t).0 ≢ reply h)
        × ((handle_send_user_operation x m now (p ∷ q ∷ more) t).1 ≡ t)
  handle_send_user_operation-submitted_op p q more t op s sent =
      outcome (handle_send_user_operation-Ends x m now (p ∷ q ∷ more) t)
    where
      rpc_eq :
          {a b : UserOperationRpc} {c : Answer UserOperationRpc}
          → c ≡ answer a
          → c ≡ answer b
          → a ≡ b
      rpc_eq e f = cc

      packed_eq :
          {a b : PackedUserOp} {u v : UserOperationRpc}
          → ok a ≡ from_rpc x u
          → u ≡ v
          → from_rpc x v ≡ ok b
          → a ≡ b
      packed_eq e f g = cc

      refused : {h : Text} {t' : Table} → IsReceived x m now (p ∷ q ∷ more) t h t' → ⊥
      refused r =
          let same : op ≡ r.packed =
            packed_eq (sym (from_rpc-submitted_op x wire op s)) (rpc_eq sent r.carried.0)
              r.parsed in
          validate-without_paymaster m.validator r.packed
            (sym (ap (λ (o : PackedUserOp). o.paymaster_and_data) same) ∙ s.no_paymaster) r.valid

      outcome :
          {r : Reply × Table}
          → Ends x m now (p ∷ q ∷ more) t r
          → ((h : Text) → r.0 ≢ reply h) × (r.1 ≡ t)
      outcome (received r) = absurd (refused r)
      outcome invalid = ((λ h. cc), refl)
      outcome rejected = ((λ h. cc), refl)
      outcome crashed = ((λ h. cc), refl)
