-- ===== src/Signer/Nonces.antt =====
-- `SignAndSubmit` and the nonce of its account on the node.
use signet_min_bundler.Prelude.{
  ℕ, ◌+◌, ◌%◌, ◌<◌, ◌≤◌, ◌≡◌, refl, ◌⊎◌, inl, inr, true, ◌++◌, arith, Bytes, Text, codes,
  Bool-cases, ltb,
}
use signet_min_bundler.Go.{answer, failure, word}
use signet_min_bundler.Signer.{
  BundlerSigner, DynamicFeeTx, SignedTx, SignerEnv, is_nonce_too_low, new_tx, resync, sign_and_send,
  sign_and_submit,
}

-- A node that answers, on which the next nonce of the account is `n`; and a key that signs.
pub record IsAtNonce (env : SignerEnv) (n : ℕ) : Type 0 where
  pub priced : (tip : ℕ) × (fee : ℕ) × (env.gas_tip ≡ answer tip) × (env.base_fee ≡ answer fee)
  pub pending : env.pending_nonce ≡ answer n
  pub signs :
      (tx : DynamicFeeTx)
      → (signed : SignedTx) × (env.sign_tx tx ≡ answer signed) × (signed.tx ≡ tx)
  pub accepts : (signed : SignedTx) → signed.tx.nonce ≡ n → env.send_transaction signed ≡ answer tt
  pub refuses :
      (signed : SignedTx)
      → signed.tx.nonce < n
      → (e : Text) × (env.send_transaction signed ≡ failure e) × (is_nonce_too_low e ≡ true)

module _ (env : SignerEnv) (n : ℕ) (node : IsAtNonce env n) (to input : Bytes) (gas : ℕ) where
  abbrev at_nonce : BundlerSigner → ℕ → BundlerSigner
  at_nonce s k = record s { pending_nonce = k }

  sign_and_submit_synced :
      (s : BundlerSigner)
      → s.pending_nonce ≡ n
      → (h : Bytes) × (sign_and_submit env to input gas s ≡ (answer h, at_nonce s ((n + 1) % word)))
  unfolding sign_and_submit sign_and_send new_tx
  sign_and_submit_synced s e =
      let (tip, fee, t, f) = node.priced in
      let (signed, sig, same) = node.signs (new_tx s tip fee to input gas) in
      (signed.hash, rw (t, f, sig, node.accepts signed (rw same e)) (rw e refl))

  sign_and_submit_behind :
      (s : BundlerSigner)
      → s.pending_nonce < n
      → (e : Text) × (sign_and_submit env to input gas s ≡ (failure e, at_nonce s n))
  unfolding sign_and_submit sign_and_send new_tx resync
  sign_and_submit_behind s l =
      let (tip, fee, t, f) = node.priced in
      let (signed, sig, same) = node.signs (new_tx s tip fee to input gas) in
      let (e, refused, low) = node.refuses signed (rw same l) in
      (codes "send tx: " ++ e, rw (t, f, sig, refused, low, node.pending) refl)

  -- On a node that answers its fee queries, that accepts the account's next nonce and refuses a
  -- lower one as too low, and with a key that signs: a signer whose nonce is not ahead of the
  -- node's submits its transaction at the first call, or is refused once, is then at the node's
  -- nonce, and submits at the second; its nonce is then the node's plus one, on 64 bits.
  pub sign_and_submit_recovers :
      (s : BundlerSigner)
      → s.pending_nonce ≤ n
      → ((h : Bytes) × (sign_and_submit env to input gas s
            ≡ (answer h, at_nonce s ((n + 1) % word))))
        ⊎ ((e : Text) × (h : Bytes) × (sign_and_submit env to input gas s
              ≡ (failure e, at_nonce s n))
            × (sign_and_submit env to input gas (at_nonce s n)
                ≡ (answer h, at_nonce s ((n + 1) % word))))
  sign_and_submit_recovers s l = elim (Bool-cases (ltb s.pending_nonce n)) [
    | inl behind ↦
        let (e, first) = sign_and_submit_behind s (ground arith) in
        let (h, second) = sign_and_submit_synced (at_nonce s n) refl in inr (e, h, first, second)
    | inr synced ↦ inl (sign_and_submit_synced s (ground arith))
  ]
