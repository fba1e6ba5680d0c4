-- ===== src/SendUserOp/Sent.antt =====
-- The signature and the submission of an operation in `run` of cmd/send-userop/main.go.
use signet_min_bundler.Prelude.{◌≡◌, refl, sym, ap, ◌∙◌, inl, inr, Bytes, Text, codes, Bool-cases}
use signet_min_bundler.Go.{Result, ok, err, panic, Answer, answer, failure, ℤ, abs, wrap}
use signet_min_bundler.Go.Results.{>>=-eq-ok, wrap-eq-ok}
use signet_min_bundler.Hex.{big_bytes}
use signet_min_bundler.External.{External}
use signet_min_bundler.Core.UserOp.{PackedUserOp}
use signet_min_bundler.Core.Hash.{compute_user_op_hash, inner_encoding, outer_encoding}
use signet_min_bundler.SendUserOp.Fetch.{wire_hex, text_of}
use signet_min_bundler.SendUserOp.Sign
use signet_min_bundler.SendUserOp.Sign.{derive_public_key, frost_sign}
use signet_min_bundler.SendUserOp.Submit.{
  ReadEstimate, submitted_op, fetch_gas_estimate, submit_to_bundler,
}
use signet_min_bundler.SendUserOp.Flow.{
  Flags, SendEnv, with_estimate, sign_sized, sign_and_submit_op,
}

text_of-eq-ok :
    (context : Text) (a : Answer (Answer Text)) {t : Text}
    → text_of context a ≡ ok t
    → a ≡ answer (answer t)
text_of-eq-ok context (failure e) h = cc
text_of-eq-ok context (answer (failure e)) h = cc
text_of-eq-ok context (answer (answer t)) h = cc

-- The command and the bundler compute one hash of an operation, and the signature is not in it.
signed_hash :
    (x : External) (op : PackedUserOp) (chain_id : ℤ) (entry_point sig : Bytes)
    → Sign.compute_user_op_hash x op chain_id entry_point
      ≡ compute_user_op_hash x (record op { signature = sig }) entry_point (abs chain_id)
unfolding Sign.compute_user_op_hash compute_user_op_hash inner_encoding outer_encoding big_bytes
signed_hash x op chain_id entry_point sig = refl

abbrev sent_op : PackedUserOp → Result (PackedUserOp × Text) → PackedUserOp
sent_op _ (ok p) = p.0
sent_op op _ = op

abbrev sent_hash : Text → Result (PackedUserOp × Text) → Text
sent_hash _ (ok p) = p.1
sent_hash h _ = h

module _ (x : External) (env : SendEnv) (f : Flags) where
  -- An operation that was signed for this chain and entry point, and taken by the bundler. The hash
  -- is the one that the bundler computes of the operation.
  pub record IsSent (chain_id : ℤ) (entry_point : Bytes) (op : PackedUserOp) (h : Text)
      : Type 0 where
    pub signed :
        frost_sign env.frost f.key (compute_user_op_hash x op entry_point (abs chain_id))
        ≡ ok op.signature
    pub sent : env.api.send_operation (submitted_op op) (wire_hex entry_point) ≡ answer (answer h)

  -- The parts that neither the estimate nor the signature changes.
  pub record IsSameCall (op signed : PackedUserOp) : Type 0 where
    pub sender : signed.sender ≡ op.sender
    pub nonce : signed.nonce ≡ op.nonce
    pub init_code : signed.init_code ≡ op.init_code
    pub call_data : signed.call_data ≡ op.call_data
    pub gas_fees : signed.gas_fees ≡ op.gas_fees
    pub paymaster_and_data : signed.paymaster_and_data ≡ op.paymaster_and_data

  keeps-IsSameCall :
      (op : PackedUserOp) (pre_verification_gas : ℤ) (account_gas_limits sig : Bytes)
      → IsSameCall op (record op {
        pre_verification_gas = pre_verification_gas;
        account_gas_limits = account_gas_limits;
        signature = sig;
      })
  keeps-IsSameCall op gas limits sig = record {
    sender = refl;
    nonce = refl;
    init_code = refl;
    call_data = refl;
    gas_fees = refl;
    paymaster_and_data = refl;
  }

  with_estimate-IsSameCall :
      (r : Result ReadEstimate) (op : PackedUserOp) (sig : Bytes)
      → IsSameCall op (record (with_estimate f r op) { signature = sig })
  unfolding with_estimate
  with_estimate-IsSameCall (ok est) op sig = keeps-IsSameCall op _ _ sig
  with_estimate-IsSameCall (err e) op sig = keeps-IsSameCall op _ _ sig
  with_estimate-IsSameCall panic op sig = keeps-IsSameCall op _ _ sig

  -- The signature and the submission of the operation with its gas.
  sized-IsSent :
      (chain_id : ℤ) (entry_point : Bytes) (op sized signed : PackedUserOp) {h : Text}
      → ((sig : Bytes) → IsSameCall op (record sized { signature = sig }))
      → sign_sized x env f chain_id entry_point sized ≡ ok (signed, h)
      → IsSameCall op signed × IsSent chain_id entry_point signed h
  unfolding sign_sized submit_to_bundler
  sized-IsSent chain_id entry_point op sized signed {h = h} same e =
      let (sig, signs, rest) =
        >>=-eq-ok
          (wrap (codes "frost sign: ")
            (frost_sign env.frost f.key (Sign.compute_user_op_hash x sized chain_id entry_point)))
          _ e in
      let done = record sized { signature = sig } in
      let (hash, sends, last) =
        >>=-eq-ok (wrap (codes "submit: ") (submit_to_bundler env.api done entry_point)) _ rest in
      let whole : done ≡ signed = ap (sent_op done) last in
      let named : hash ≡ h = ap (sent_hash hash) last in
      rw (← whole, ← named)
        (
          same sig,
          record {
            signed =
                ap (frost_sign env.frost f.key) (sym (signed_hash x sized chain_id entry_point sig))
                ∙ wrap-eq-ok (codes "frost sign: ") _ signs;
            sent =
                text_of-eq-ok (codes "decode bundler result: ") _
                  (wrap-eq-ok (codes "submit: ") _ sends);
          },
        )

  pub sign_and_submit_op-IsSent :
      (chain_id : ℤ) (entry_point : Bytes) (op : PackedUserOp) {signed : PackedUserOp} {h : Text}
      → sign_and_submit_op x env f chain_id entry_point op ≡ ok (signed, h)
      → IsSameCall op signed × IsSent chain_id entry_point signed h
  unfolding sign_and_submit_op
  sign_and_submit_op-IsSent chain_id entry_point op {signed} e =
      elim (Bool-cases f.no_estimate_gas) [
        | inl given ↦
            sized-IsSent chain_id entry_point op op signed (with_estimate-IsSameCall panic op)
              (rw given at e)
        | inr asked ↦
            sized-IsSent chain_id entry_point op
              (with_estimate f (fetch_gas_estimate env.api op entry_point) op) signed
              (with_estimate-IsSameCall (fetch_gas_estimate env.api op entry_point) op)
              (rw asked at e)
      ]
