-- ===== src/Rpc/Send.antt =====
-- What an accepted `eth_sendUserOperation` has passed, and what a refused one leaves.
use signet_min_bundler.Prelude.{
  ℕ, ◌≡◌, refl, ◌⊎◌, inl, inr, true, false, List, [], ◌∷◌, ◌++◌, ◌==◌, arith, Bytes, Text, any,
  length, Bool-cases,
}
use signet_min_bundler.Go.{Result, ok, err, panic, Answer, answer, failure}
use signet_min_bundler.External.{External}
use signet_min_bundler.Core.UserOp.{UserOperationRpc, PackedUserOp, from_rpc}
use signet_min_bundler.Core.Hash.{compute_user_op_hash}
use signet_min_bundler.Validator.{validate}
use signet_min_bundler.Mempool.Table.{Table, clash, insert_row}
use signet_min_bundler.Mempool.Hydrate.{new_row}
use signet_min_bundler.Mempool.Repo.{insert, duplicate}
use signet_min_bundler.Rpc.{
  Methods, Param, Reply, reply, invalid_params, op_rejected, panicked, send_validated, send_packed,
  is_supported, send_values, send_params, handle_send_user_operation,
}

-- The first two parameters are this operation and this text.
abbrev pub Carries : List Param → UserOperationRpc → Text → Type 0
Carries (p ∷ q ∷ more) op hex = (p.as_op ≡ answer op) × (q.as_text ≡ answer hex)
Carries _ op hex = ⊥

module _ (x : External) (m : Methods) (now : ℕ) (params : List Param) (t : Table) where
  -- An operation that was received: what it passed, and the table with its row.
  pub record IsReceived (h : Text) (t' : Table) : Type 0 where
    pub op : UserOperationRpc
    pub entry_point_hex : Text
    pub packed : PackedUserOp
    pub carried : Carries params op entry_point_hex
    pub supported : is_supported m (x.hex_to_address entry_point_hex) ≡ true
    pub parsed : from_rpc x op ≡ ok packed
    pub signed : length packed.signature ≡ 65
    pub valid : validate m.validator packed ≡ ok tt
    pub hash :
        h ≡ x.hash_hex (compute_user_op_hash x packed (x.hex_to_address entry_point_hex) m.chain_id)
    pub free :
        any
          (clash (
            new_row x now packed
              (compute_user_op_hash x packed (x.hex_to_address entry_point_hex) m.chain_id)))
          t
        ≡ false
    pub row :
        t'
        ≡ t
          ++ new_row x now packed
              (compute_user_op_hash x packed (x.hex_to_address entry_point_hex) m.chain_id)
            ∷ []

  -- How a call may end.
  pub data Ends : Reply × Table → Type 0 where
    received : {h : Text} {t' : Table} → IsReceived h t' → Ends (reply h, t')
    invalid : {e : Text} → Ends (invalid_params e, t)
    rejected : {e : Text} → Ends (op_rejected e, t)
    crashed : Ends (panicked, t)

  insert_cases :
      (packed : PackedUserOp) (hash : Bytes)
      → (insert x now packed hash t ≡ (err duplicate, t))
        ⊎ ((any (clash (new_row x now packed hash)) t ≡ false)
            × (insert x now packed hash t ≡ (ok tt, t ++ new_row x now packed hash ∷ [])))
  unfolding insert insert_row
  insert_cases packed hash = elim (Bool-cases (any (clash (new_row x now packed hash)) t)) [
    | inl taken ↦ inl (rw (taken, insert))
    | inr free ↦ inr (free, rw (free, insert))
  ]

  module _ (op : UserOperationRpc) (hex : Text) (c : Carries params op hex) where
    send_validated-Ends :
        (packed : PackedUserOp) (r : Result (Unit {0}))
        → is_supported m (x.hex_to_address hex) ≡ true
        → from_rpc x op ≡ ok packed
        → length packed.signature ≡ 65
        → validate m.validator packed ≡ r
        → Ends (send_validated x m now (x.hex_to_address hex) packed r t)
    unfolding send_validated
    send_validated-Ends packed (ok _) s f l v =
        elim (insert_cases packed
          (compute_user_op_hash x packed (x.hex_to_address hex) m.chain_id)) [
            | inl taken ↦ rw taken rejected
            | inr (free, done) ↦ rw done (
                received (record {
                  op = op;
                  entry_point_hex = hex;
                  packed = packed;
                  carried = c;
                  supported = s;
                  parsed = f;
                  signed = l;
                  valid = v;
                  hash = refl;
                  free = free;
                  row = refl;
                }))
          ]
    send_validated-Ends packed (err e) s f l v = rejected
    send_validated-Ends packed panic s f l v = crashed

    send_packed-Ends :
        (r : Result PackedUserOp)
        → is_supported m (x.hex_to_address hex) ≡ true
        → from_rpc x op ≡ r
        → Ends (send_packed x m now (x.hex_to_address hex) r t)
    unfolding send_packed
    send_packed-Ends (ok packed) s f = elim (Bool-cases (length packed.signature == 65)) [
      | inl long ↦
          rw long (send_validated-Ends packed (validate m.validator packed) s f (ground arith) refl)
      | inr short ↦ rw short rejected
    ]
    send_packed-Ends (err e) s f = invalid
    send_packed-Ends panic s f = crashed

    send_values-Ends : Ends (send_values x m now op hex t)
    unfolding send_values
    send_values-Ends = elim (Bool-cases (is_supported m (x.hex_to_address hex))) [
      | inl known ↦ rw known (send_packed-Ends (from_rpc x op) known refl)
      | inr other ↦ rw other rejected
    ]

  send_params-Ends :
      (op : Answer UserOperationRpc) (e : Answer Text)
      → ((o : UserOperationRpc) (hex : Text)
          → op ≡ answer o
          → e ≡ answer hex
          → Carries params o hex)
      → Ends (send_params x m now op e t)
  unfolding send_params
  send_params-Ends (answer op) (answer hex) c = send_values-Ends op hex (c op hex refl refl)
  send_params-Ends (answer op) (failure e) c = invalid
  send_params-Ends (failure e) (answer hex) c = invalid
  send_params-Ends (failure e) (failure f) c = invalid

-- A call of eth_sendUserOperation that replies a hash has carried an operation that parses, for
-- an entry point of the list, with a signature of 65 bytes, and that the validator accepts; the
-- hash is the operation's, and its row has been added to a table that it does not clash with. Any
-- other call leaves the table as it was.
pub handle_send_user_operation-Ends :
    (x : External) (m : Methods) (now : ℕ) (params : List Param) (t : Table)
    → Ends x m now params t (handle_send_user_operation x m now params t)
unfolding handle_send_user_operation
handle_send_user_operation-Ends x m now [] t = invalid
handle_send_user_operation-Ends x m now (p ∷ []) t = invalid
handle_send_user_operation-Ends x m now (p ∷ q ∷ more) t =
    send_params-Ends x m now (p ∷ q ∷ more) t p.as_op q.as_text (λ o hex e f. (e, f))
