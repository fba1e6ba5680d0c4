-- ===== src/Sponsor/Redeem.antt =====
-- What a redeemed code does, and that it serves one sender.
use signet_min_bundler.Prelude.{
  ℕ, ◌≡◌, refl, Bool, false, ◌||◌, none, some, List, [], ◌∷◌, ◌++◌, arith, if◌then◌else◌, Bytes,
  Text, equal, any, map_option, true, Option, Option-cases, Bool-cases, inl, inr, equal_self, ◌∙◌,
}
use signet_min_bundler.Go.{ok, err}
use signet_min_bundler.External.{External}
use signet_min_bundler.Sponsor.{
  Invite, Guest, Store, sender_text, check_sender, find_invite, mark_used, used_code, redeem,
  redeem_invite, redeem_code,
}

find_invite-mark_used :
    (code who : Text) (now : ℕ) (invites : List Invite)
    → find_invite code (mark_used code who now invites)
      ≡ map_option
          (λ (i : Invite). record i { used_by = some who; used_at = some now })
          (find_invite code invites)
unfolding find_invite mark_used
find_invite-mark_used code who now [] = refl
find_invite-mark_used code who now (i ∷ invites) =
    ground (arith, find_invite-mark_used code who now invites)

any-snoc :
    (p : Guest → Bool) (guests : List Guest) (g : Guest)
    → any p (guests ++ g ∷ []) ≡ any p guests || p g
any-snoc p [] g = ground arith
any-snoc p (h ∷ guests) g = ground (arith, any-snoc p guests g)

module _ (x : External) (now : ℕ) (code : Text) (sender : Bytes) (store : Store) where
  -- If a sender that is not whitelisted redeems an unused invite code, the call succeeds and
  -- exactly that sender is whitelisted beside those that were; after it, any sender that is not
  -- whitelisted is refused the code, and nothing changes.
  pub redeem_code_once :
      {i : Invite}
      → check_sender x sender store ≡ false
      → find_invite code store.invites ≡ some i
      → i.used_by ≡ none
      → (store' : Store) × (redeem_code x now code sender store ≡ (ok tt, store'))
        × ((other : Bytes)
            → check_sender x other store'
              ≡ check_sender x other store || equal (sender_text x sender) (sender_text x other))
        × ((later : ℕ) (other : Bytes)
            → redeem_code x later code other store'
              ≡ (if check_sender x other store' then (ok tt, store') else (err used_code, store')))
  unfolding redeem_code redeem_invite redeem check_sender
  redeem_code_once {i} fresh found unused = (
    redeem x now code sender store,
    rw (fresh, found, unused),
    λ other.
        any-snoc (λ (g : Guest). equal g.sender (sender_text x other)) store.guests
          (record { sender = sender_text x sender; invite_code = code; created_at = now }),
    λ later other. rw (find_invite-mark_used, found) refl,
  )

module _ (x : External) (now : ℕ) (code : Text) (sender : Bytes) (store : Store) where
  redeem_whitelists : check_sender x sender (redeem x now code sender store) ≡ true
  unfolding check_sender redeem
  redeem_whitelists =
      any-snoc (λ (g : Guest). equal g.sender (sender_text x sender)) store.guests
        (record { sender = sender_text x sender; invite_code = code; created_at = now })
      ∙ ground (arith, equal_self (sender_text x sender))

  redeem_invite-ok :
      (o : Option Invite) {store' : Store}
      → redeem_invite x now code sender o store ≡ (ok tt, store')
      → redeem x now code sender store ≡ store'
  unfolding redeem_invite
  redeem_invite-ok none e = cc
  redeem_invite-ok (some i) e = elim (Option-cases i.used_by) [
    | inl unused ↦ ground arith
    | inr (who, used) ↦ absurd (ground arith)
  ]

  -- Who redeems a code is whitelisted.
  pub redeem_code-ok :
      {store' : Store}
      → redeem_code x now code sender store ≡ (ok tt, store')
      → check_sender x sender store' ≡ true
  unfolding redeem_code
  redeem_code-ok {store'} e = elim (Bool-cases (check_sender x sender store)) [
    | inl there ↦ let same : store ≡ store' = ground arith in rw (← same) there
    | inr fresh ↦
        let done : redeem_invite x now code sender (find_invite code store.invites) store
            ≡ (ok tt, store') =
          ground arith in
        rw (← redeem_invite-ok (find_invite code store.invites) done) redeem_whitelists
  ]
