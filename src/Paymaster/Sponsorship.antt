-- ===== src/Paymaster/Sponsorship.antt =====
-- What has been checked when `GetPaymasterData` returns data.
use signet_min_bundler.Prelude.{
  ◌≡◌, refl, ap, inl, inr, true, Option, none, some, [], ◌∷◌, ◌==◌, arith, Bytes, Text, codes,
  Bool-cases, drop, length, ltb, if◌then◌else◌,
}
use signet_min_bundler.Go.{Result, ok, err, panic, wrap, Answer, answer, failure}
use signet_min_bundler.Go.Results.{Answer-cases}
use signet_min_bundler.External.{External}
use signet_min_bundler.Core.UserOp.{PackedUserOp, is_empty}
use signet_min_bundler.Sponsor.{Store, check_sender, redeem_code}
use signet_min_bundler.Sponsor.Redeem.{redeem_code-ok}
use signet_min_bundler.Paymaster.Call.{encode_should_sponsor_call}
use signet_min_bundler.Paymaster.{
  Service, PaymasterEnv, SponsorResult, validity_window, encode_validity_and_sig, get_hash,
  to_eth_signed_message_hash, check_sponsor_access, should_sponsor, check_should_sponsor,
  sponsor_result, sign_paymaster_data, sponsor_admitted, get_paymaster_data,
}

module _ (x : External) where
  -- Without a store every sender is admitted, else those on the whitelist.
  abbrev pub IsAdmitted : Bytes → Option Store → Type 0
  IsAdmitted sender none = Unit
  IsAdmitted sender (some store) = check_sender x sender store ≡ true

  check_sponsor_access-IsAdmitted :
      (env : PaymasterEnv) (sender : Bytes) (code : Text) (store : Option Store)
      {store' : Option Store}
      → check_sponsor_access x env sender code store ≡ (ok tt, store')
      → IsAdmitted sender store'
  unfolding check_sponsor_access
  check_sponsor_access-IsAdmitted env sender code none {store'} e =
      let same : none ≡ store' = ap (λ (p : Result (Unit {0}) × Option Store). p.1) e in
      rw (← same) tt
  check_sponsor_access-IsAdmitted env sender code (some store) {store'} e =
      elim (Bool-cases (check_sender x sender store)) [
        | inl there ↦ let same : some store ≡ store' = ground arith in rw (← same) there
        | inr fresh ↦ elim (Bool-cases (is_empty code)) [
          | inl without ↦ absurd (ground arith)
          | inr coded ↦
              redeems (redeem_code x env.now_ms code sender store).0
                (redeem_code x env.now_ms code sender store).1 refl (rw (fresh, coded) at e)
        ]
      ]
    where
      redeems :
          (r : Result (Unit {0})) (after : Store)
          → redeem_code x env.now_ms code sender store ≡ (r, after)
          → Path
              (Result (Unit {0}) × Option Store)
              (wrap (codes "invite code rejected: ") r, some after)
              (ok tt, store')
          → IsAdmitted sender store'
      redeems (ok _) after f e =
          let same : some after ≡ store' = ap (λ (p : Result (Unit {0}) × Option Store). p.1) e in
          rw (← same) (redeem_code-ok x env.now_ms code sender store f)
      redeems (err m) after f e = cc
      redeems panic after f e = cc

  module _ (s : Service) (env : PaymasterEnv) (op : PackedUserOp) where
    -- The node's answer to the call of `shouldSponsor` for the operation: a word that ends in 1.
    pub record IsAgreed (word : Bytes) : Type 0 where
      pub called : env.call_contract (encode_should_sponsor_call x op) ≡ answer word
      pub last : (more : Bytes) × (drop 31 word ≡ 1 ∷ more)

    -- Sponsored: the sender is admitted, the contract agreed, and the data carries the window of now
    -- and the key's signature of the hash of the operation and the window.
    pub record IsSponsored (store' : Option Store) (r : SponsorResult) : Type 0 where
      pub admitted : IsAdmitted op.sender store'
      pub agreed : (word : Bytes) × IsAgreed word
      pub signed :
          (sig : Bytes) × (env.sign_hash (
              to_eth_signed_message_hash x
                (get_hash x s op (validity_window env.now).0 (validity_window env.now).1))
            ≡ answer sig)
          × (r
              ≡ sponsor_result s (
                  encode_validity_and_sig
                    (validity_window env.now).0
                    (validity_window env.now).1
                    sig))

    agrees :
        (a : Answer Bytes)
        → env.call_contract (encode_should_sponsor_call x op) ≡ a
        → should_sponsor a ≡ ok tt
        → (word : Bytes) × IsAgreed word
    unfolding should_sponsor
    agrees (failure e) c h = cc
    agrees (answer word) c h = elim (Bool-cases (ltb (length word) 32)) [
      | inl short ↦ absurd (ground arith)
      | inr long ↦ (word, record { called = c; last = one (drop 31 word) (ground arith) })
    ]
      where
        one :
            (w : Bytes)
            → elim w as (λ _. Result (Unit {0})) [
              | [] ↦ panic
              | b ∷ more ↦ if b == 1 then ok tt else err (codes "sponsorship rejected by paymaster")
            ]
              ≡ ok tt
            → (more : Bytes) × (w ≡ 1 ∷ more)
        one [] e = cc
        one (b ∷ more) e = (more, ap (λ z. z ∷ more) (ground arith))

    signs :
        (r : SponsorResult)
        → sign_paymaster_data x s env op ≡ ok r
        → (sig : Bytes) × (env.sign_hash (
              to_eth_signed_message_hash x
                (get_hash x s op (validity_window env.now).0 (validity_window env.now).1))
            ≡ answer sig)
          × (r
              ≡ sponsor_result s (
                  encode_validity_and_sig
                    (validity_window env.now).0
                    (validity_window env.now).1
                    sig))
    unfolding sign_paymaster_data
    signs r e =
        elim (Answer-cases (
          env.sign_hash (
            to_eth_signed_message_hash x
              (get_hash x s op (validity_window env.now).0 (validity_window env.now).1)))) [
                | inl (sig, done) ↦ (sig, done, ground arith)
                | inr (m, failed_to) ↦ absurd (ground arith)
              ]

    admitted-ok :
        (r : SponsorResult)
        → sponsor_admitted x s env op (ok tt) ≡ ok r
        → ((word : Bytes) × IsAgreed word) × (sign_paymaster_data x s env op ≡ ok r)
    unfolding sponsor_admitted check_should_sponsor
    admitted-ok r e =
        next (should_sponsor (env.call_contract (encode_should_sponsor_call x op))) refl e
      where
        next :
            (c : Result (Unit {0}))
            → should_sponsor (env.call_contract (encode_should_sponsor_call x op)) ≡ c
            → elim c as (λ _. Result SponsorResult) [
              | ok _ ↦ sign_paymaster_data x s env op
              | err m ↦ err m
              | panic ↦ panic
            ]
              ≡ ok r
            → ((word : Bytes) × IsAgreed word) × (sign_paymaster_data x s env op ≡ ok r)
        next (ok _) f e = (agrees (env.call_contract (encode_should_sponsor_call x op)) refl f, e)
        next (err m) f e = cc
        next panic f e = cc

    -- If GetPaymasterData returns data, then the sender is on the whitelist after the call (or
    -- there is no sponsor store), the paymaster contract answered the call of shouldSponsor for
    -- this operation with a word whose last byte is 1, and the data is the validity window of the
    -- clock with the signature that the key made of the prefixed hash of the operation and that
    -- window.
    pub get_paymaster_data-IsSponsored :
        (code : Text) (store : Option Store) {r : SponsorResult} {store' : Option Store}
        → get_paymaster_data x s env op code store ≡ (ok r, store')
        → IsSponsored store' r
    unfolding get_paymaster_data sponsor_admitted check_should_sponsor
    get_paymaster_data-IsSponsored code store {r} {store'} e =
        let same : (check_sponsor_access x env op.sender code store).1 ≡ store' =
          ap (λ (p : Result SponsorResult × Option Store). p.1) e in
        let done : sponsor_admitted x s env op (check_sponsor_access x env op.sender code store).0
            ≡ ok r =
          ap (λ (p : Result SponsorResult × Option Store). p.0) e in
        rest (check_sponsor_access x env op.sender code store).0
          (check_sponsor_access x env op.sender code store).1 refl same done
      where
        rest :
            (a : Result (Unit {0})) (after : Option Store)
            → check_sponsor_access x env op.sender code store ≡ (a, after)
            → after ≡ store'
            → sponsor_admitted x s env op a ≡ ok r
            → IsSponsored store' r
        rest (err m) after c same e = cc
        rest panic after c same e = cc
        rest (ok _) after c same e =
            let (agreed, done) = admitted-ok r e in
            record {
              admitted =
                  check_sponsor_access-IsAdmitted env op.sender code store {store' = store'}
                    (rw same at c);
              agreed = agreed;
              signed = signs r done;
            }
