-- ===== src/Tests/Signer.antt =====
-- The theorem on the signer's nonce, at a concrete node.
use signet_min_bundler.Prelude.{
  ◌≡◌, refl, ◌⊎◌, [], ◌==◌, ◌+◌, ◌%◌, if◌then◌else◌, Bytes, Text, codes, arith,
}
use signet_min_bundler.Go.{answer, failure, word, zeros}
use signet_min_bundler.Signer.{BundlerSigner, SignerEnv, sign_and_submit, is_nonce_too_low}
use signet_min_bundler.Signer.Nonces.{IsAtNonce, sign_and_submit_recovers}

-- The account's next nonce is 7, and this signer is at 5.
abbrev node_env : SignerEnv
node_env = record {
  balance = answer 1;
  gas_tip = answer 2;
  base_fee = answer 10;
  sign_tx = λ tx. answer (record { tx = tx; hash = zeros 32 });
  send_transaction =
      λ signed. if signed.tx.nonce == 7 then answer tt else failure (codes "nonce too low");
  pending_nonce = answer 7;
  eth_text = λ _. [];
}

abbrev late_signer : BundlerSigner
late_signer = record { address = []; chain_id = 1; pending_nonce = 5 }

node_env-IsAtNonce : IsAtNonce node_env 7
node_env-IsAtNonce = record {
  priced = (2, 10, refl, refl);
  pending = refl;
  signs = λ tx. (record { tx = tx; hash = zeros 32 }, refl, refl);
  accepts = λ signed e. ground arith;
  refuses = λ signed l. (codes "nonce too low", ground arith, unfold is_nonce_too_low in refl);
}

sign_and_submit_recovers_example :
    ((h : Bytes) × (sign_and_submit node_env [] [] 21000 late_signer
        ≡ (answer h, record late_signer { pending_nonce = (7 + 1) % word })))
    ⊎ ((e : Text) × (h : Bytes) × (sign_and_submit node_env [] [] 21000 late_signer
          ≡ (failure e, record late_signer { pending_nonce = 7 }))
        × (sign_and_submit node_env [] [] 21000 (record late_signer { pending_nonce = 7 })
            ≡ (answer h, record late_signer { pending_nonce = (7 + 1) % word })))
sign_and_submit_recovers_example =
    sign_and_submit_recovers node_env 7 node_env-IsAtNonce [] [] 21000 late_signer (omega arith)
