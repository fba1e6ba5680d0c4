-- ===== src/SendUserOp/Submitted.antt =====
-- What `run` of cmd/send-userop/main.go has done when it ends well.
use signet_min_bundler.Prelude.{
  arith, ◌≡◌, refl, ◌∙◌, true, inl, inr, [], Bytes, Text, codes, Bool-cases,
}
use signet_min_bundler.Go.{ok, ℤ, wrap}
use signet_min_bundler.Go.Results.{>>=-eq-ok, wrap-eq-ok}
use signet_min_bundler.Hex.{decode_hex}
use signet_min_bundler.External.{External}
use signet_min_bundler.Core.UserOp.{PackedUserOp}
use signet_min_bundler.Core.Calldata.{build_execute_calldata}
use signet_min_bundler.Core.Crypto.{pub_key_to_address}
use signet_min_bundler.SendUserOp.Fetch.{fetch_chain_id, fetch_nonce}
use signet_min_bundler.SendUserOp.Parse.{parse_address, parse_value}
use signet_min_bundler.SendUserOp.Sign.{derive_public_key}
use signet_min_bundler.SendUserOp.Flow.{
  Flags, SendEnv, number, max_fee, has_required, resolve_sender, send_flags, run_command,
}
use signet_min_bundler.SendUserOp.Sent.{IsSent, IsSameCall, sign_and_submit_op-IsSent}

module _ (x : External) (env : SendEnv) (f : Flags) where
  -- The calldata is that of the call which the flags ask for.
  pub record IsRequested (call_data : Bytes) : Type 0 where
    pub to : Bytes
    pub value : ℤ
    pub inner_data : Bytes
    pub read_to : parse_address f.to ≡ ok to
    pub read_value : parse_value f.value ≡ ok value
    pub read_inner_data : decode_hex f.calldata ≡ ok inner_data
    pub encoded : call_data ≡ build_execute_calldata x to value inner_data

  -- Submitted: the parts of the operation are the ones that the flags and the node give, the
  -- signature is the key's for the hash that the bundler computes on this chain, the operation has
  -- no paymaster, and the bundler has answered this hash for it.
  pub record IsSubmitted (op : PackedUserOp) (h : Text) : Type 0 where
    pub entry_point : Bytes
    pub chain_id : ℤ
    pub group_pub_key : Bytes
    pub required : has_required f ≡ true
    pub read_entry_point : parse_address f.entry_point ≡ ok entry_point
    pub read_chain : fetch_chain_id env.node ≡ ok chain_id
    pub derived : derive_public_key env.frost f.key ≡ ok group_pub_key
    pub resolved : resolve_sender x env f entry_point group_pub_key ≡ ok (op.sender, op.init_code)
    pub next_nonce : fetch_nonce x env.node entry_point op.sender ≡ ok op.nonce
    pub no_paymaster : op.paymaster_and_data ≡ []
    pub requested : IsRequested op.call_data
    pub is_sent : IsSent x env f chain_id entry_point op h

  -- From the operation before its gas and its signature.
  signed_call :
      {entry_point key : Bytes} {chain_id : ℤ} {op signed : PackedUserOp} {h : Text}
      → has_required f ≡ true
      → parse_address f.entry_point ≡ ok entry_point
      → fetch_chain_id env.node ≡ ok chain_id
      → derive_public_key env.frost f.key ≡ ok key
      → resolve_sender x env f entry_point key ≡ ok (op.sender, op.init_code)
      → fetch_nonce x env.node entry_point op.sender ≡ ok op.nonce
      → op.paymaster_and_data ≡ []
      → IsRequested op.call_data
      → IsSameCall x env f op signed
      → IsSent x env f chain_id entry_point signed h
      → IsSubmitted signed h
  signed_call {entry_point} {key} {chain_id} required ep chain derived resolved next none requested
        same is_sent =
      record {
        entry_point = entry_point;
        chain_id = chain_id;
        group_pub_key = key;
        required = required;
        read_entry_point = ep;
        read_chain = chain;
        derived = derived;
        resolved = rw (same.sender, same.init_code) resolved;
        next_nonce = rw (same.sender, same.nonce) next;
        no_paymaster = same.paymaster_and_data ∙ none;
        requested = rw same.call_data requested;
        is_sent = is_sent;
      }

  send_flags-IsSubmitted :
      {op : PackedUserOp} {h : Text}
      → has_required f ≡ true
      → send_flags x env f ≡ ok (op, h)
      → IsSubmitted op h
  unfolding send_flags
  send_flags-IsSubmitted required e0 =
      let (entry_point, r0, e1) =
        >>=-eq-ok (wrap (codes "invalid --entry-point: ") (parse_address f.entry_point)) _ e0 in
      let (to, r1, e2) = >>=-eq-ok (wrap (codes "invalid --to: ") (parse_address f.to)) _ e1 in
      let (value, r2, e3) =
        >>=-eq-ok (wrap (codes "invalid --value: ") (parse_value f.value)) _ e2 in
      let (prio, r3, e4) =
        >>=-eq-ok
          (number (codes "invalid --max-priority-fee-per-gas")
            (env.parse_any f.max_priority_fee_per_gas))
          _ e3 in
      let (key, r4, e5) =
        >>=-eq-ok (wrap (codes "derive public key: ") (derive_public_key env.frost f.key)) _ e4 in
      let (signer, r5, e6) =
        >>=-eq-ok (wrap (codes "derive signer address: ") (pub_key_to_address x key)) _ e5 in
      let (chain_id, r6, e7) =
        >>=-eq-ok (wrap (codes "fetch chain id: ") (fetch_chain_id env.node)) _ e6 in
      let (fee, r7, e8) = >>=-eq-ok (max_fee env f prio) _ e7 in
      let (account, r8, e9) = >>=-eq-ok (resolve_sender x env f entry_point key) _ e8 in
      let (nonce, r9, e10) =
        >>=-eq-ok (wrap (codes "fetch nonce: ") (fetch_nonce x env.node entry_point account.0)) _
          e9 in
      let (inner, r10, e11) =
        >>=-eq-ok (wrap (codes "decode --calldata: ") (decode_hex f.calldata)) _ e10 in
      let (same, is_sent) = sign_and_submit_op-IsSent x env f chain_id entry_point _ e11 in
      let requested : IsRequested (build_execute_calldata x to value inner) = record {
        to = to;
        value = value;
        inner_data = inner;
        read_to = wrap-eq-ok (codes "invalid --to: ") (parse_address f.to) r1;
        read_value = wrap-eq-ok (codes "invalid --value: ") (parse_value f.value) r2;
        read_inner_data = wrap-eq-ok (codes "decode --calldata: ") (decode_hex f.calldata) r10;
        encoded = refl;
      } in
      signed_call required
        (wrap-eq-ok (codes "invalid --entry-point: ") (parse_address f.entry_point) r0)
        (wrap-eq-ok (codes "fetch chain id: ") (fetch_chain_id env.node) r6)
        (wrap-eq-ok (codes "derive public key: ") (derive_public_key env.frost f.key) r4) r8
        (wrap-eq-ok (codes "fetch nonce: ") (fetch_nonce x env.node entry_point account.0) r9) refl
        requested same is_sent

  -- If run of send-userop ends well: the required flags were there; sender, init code, nonce and
  -- calldata of the operation that was sent are the ones that the flags and the node give; it has
  -- no paymaster; its signature is the one that the key's FROST makes of the hash that the
  -- bundler's ComputeUserOpHash gives for this operation on the node's chain; and the bundler's
  -- answer to it is the hash that run returns.
  pub run_command-IsSubmitted :
      {op : PackedUserOp} {h : Text} → run_command x env f ≡ ok (op, h) → IsSubmitted op h
  unfolding run_command
  run_command-IsSubmitted e = elim (Bool-cases (has_required f)) [
    | inl given ↦ send_flags-IsSubmitted given (rw given at e)
    | inr missing ↦ absurd (ground (arith, missing, e))
  ]
