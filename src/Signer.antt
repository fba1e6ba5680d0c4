-- ===== src/Signer.antt =====
-- internal/signer/keystore.go: the balance check, the nonce and the submission of a transaction. The
-- node, the signing of go-ethereum and the text of a balance (`big.Float`) are arguments.
pub mod Nonces
use signet_min_bundler.Prelude.{
  ℕ, ◌+◌, ◌*◌, ◌%◌, ◌^◌, Bool, ◌||◌, ◌++◌, Bytes, Text, codes, contains, if◌then◌else◌, length, leb,
  ltb, take, drop, [], ◌∷◌, List, to_lower,
}
use signet_min_bundler.Go.{Result, ok, err, panic, Answer, answer, failure, word}

-- `BundlerSigner`, without its key, client and logger.
pub record BundlerSigner : Type 0 where
  pub address : Bytes
  pub chain_id : ℕ
  pub pending_nonce : ℕ

-- `types.DynamicFeeTx`, as it is filled in.
pub record DynamicFeeTx : Type 0 where
  pub chain_id : ℕ
  pub nonce : ℕ
  pub gas_tip_cap : ℕ
  pub gas_fee_cap : ℕ
  pub gas : ℕ
  pub to : Bytes
  pub input : Bytes

-- `types.SignTx` of it, and its `Hash()`.
pub record SignedTx : Type 0 where
  pub tx : DynamicFeeTx
  pub hash : Bytes

-- What the node and the key answer during one call.
pub record SignerEnv : Type 0 where
  pub balance : Answer ℕ
  pub gas_tip : Answer ℕ
  -- `head.BaseFee`, on a chain that has one (EIP-1559).
  pub base_fee : Answer ℕ
  pub sign_tx : DynamicFeeTx → Answer SignedTx
  pub send_transaction : SignedTx → Answer (Unit {0})
  pub pending_nonce : Answer ℕ
  pub eth_text : ℕ → Text

-- 0.01 ETH in wei.
abbrev pub critical_threshold : ℕ
critical_threshold = 10 ^ 16

abbrev pub below_threshold : Text → Text
below_threshold eth =
    codes "bundler balance " ++ (eth ++ codes " ETH below critical threshold 0.01 ETH")

-- `CheckBalance`; a balance below the warning threshold is only logged.
unfoldable pub check_balance : SignerEnv → Answer (Unit {0})
check_balance env = elim env.balance [
  | failure e ↦ failure (codes "fetch balance: " ++ e)
  | answer wei ↦
      if ltb wei critical_threshold then failure (below_threshold (env.eth_text wei)) else answer tt
]

-- `InitNonce`
unfoldable pub init_nonce : SignerEnv → BundlerSigner → Answer (Unit {0}) × BundlerSigner
init_nonce env s = elim env.pending_nonce [
  | failure e ↦ (failure (codes "fetch pending nonce: " ++ e), s)
  | answer n ↦ (answer tt, record s { pending_nonce = n })
]

-- `isNonceTooLow`
unfoldable pub is_nonce_too_low : Text → Bool
is_nonce_too_low e =
    let msg = to_lower e in
    contains msg (codes "nonce too low") || contains msg (codes "already known")

-- The nonce after a refused transaction.
unfoldable pub resync : SignerEnv → Text → BundlerSigner → BundlerSigner
unfolding is_nonce_too_low
resync env e s =
    if is_nonce_too_low e
    then elim env.pending_nonce as (λ _. BundlerSigner) [
      | answer n ↦ record s { pending_nonce = n }
      | failure f ↦ s
    ]
    else s

-- `s.pendingNonce++` on `uint64`.
abbrev pub next_nonce : BundlerSigner → BundlerSigner
next_nonce s = record s { pending_nonce = (s.pending_nonce + 1) % word }

-- The transaction that `SignAndSubmit` builds.
unfoldable pub new_tx : BundlerSigner → ℕ → ℕ → Bytes → Bytes → ℕ → DynamicFeeTx
new_tx s tip fee to input gas = record {
  chain_id = s.chain_id;
  nonce = s.pending_nonce;
  gas_tip_cap = tip;
  gas_fee_cap = fee * 2 + tip;
  gas = gas;
  to = to;
  input = input;
}

-- `SignAndSubmit` from the signing on.
unfoldable pub sign_and_send :
    SignerEnv → DynamicFeeTx → BundlerSigner → Answer Bytes × BundlerSigner
unfolding resync
sign_and_send env tx s = elim (env.sign_tx tx) [
  | failure e ↦ (failure (codes "sign tx: " ++ e), s)
  | answer signed ↦ elim (env.send_transaction signed) as (λ _. Answer Bytes × BundlerSigner) [
    | failure e ↦ (failure (codes "send tx: " ++ e), resync env e s)
    | answer _ ↦ (answer signed.hash, next_nonce s)
  ]
]

-- `SignAndSubmit`; its mutex makes one call one step.
unfoldable pub sign_and_submit :
    SignerEnv → Bytes → Bytes → ℕ → BundlerSigner → Answer Bytes × BundlerSigner
unfolding sign_and_send new_tx
sign_and_submit env to input gas s = elim env.gas_tip [
  | failure e ↦ (failure (codes "suggest gas tip: " ++ e), s)
  | answer tip ↦ elim env.base_fee as (λ _. Answer Bytes × BundlerSigner) [
    | failure e ↦ (failure (codes "fetch latest header: " ++ e), s)
    | answer fee ↦ sign_and_send env (new_tx s tip fee to input gas) s
  ]
]

-- `sig[64] += 27` on a byte.
unfoldable pub add_27 : Bytes → Result Bytes
add_27 sig = elim (drop 64 sig) [
  | [] ↦ panic
  | v ∷ more ↦ ok (take 64 sig ++ (v + 27) % 256 ∷ more)
]

-- `ethSign`, which is `SignHash` with the signer's key.
unfoldable pub eth_sign : (Bytes → Answer Bytes) → Bytes → Result Bytes
unfolding add_27
eth_sign sign hash = elim (sign hash) [ failure e ↦ err e | answer sig ↦ add_27 sig ]
