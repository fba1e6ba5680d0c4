-- ===== src/Sponsor.antt =====
-- internal/sponsor/store.go: invite codes and the senders that they whitelist. The random codes are
-- arguments.
pub mod Redeem
use signet_min_bundler.Prelude.{
  ℕ, Bool, true, false, not, Option, none, some, List, [], ◌∷◌, ◌++◌, if◌then◌else◌, Bytes, Text,
  codes, equal, any, map, to_lower,
}
use signet_min_bundler.Go.{Result, ok, err}
use signet_min_bundler.Hex.{hex_encode}
use signet_min_bundler.External.{External}

-- A row of `invite_codes`.
pub record Invite : Type 0 where
  pub code : Text
  pub created_at : ℕ
  pub used_by : Option Text
  pub used_at : Option ℕ

-- A row of `whitelisted_senders`.
pub record Guest : Type 0 where
  pub sender : Text
  pub invite_code : Text
  pub created_at : ℕ

-- The two tables behind `Store`.
pub record Store : Type 0 where
  pub invites : List Invite
  pub guests : List Guest

abbrev pub unique_invite : Text
unique_invite = codes "UNIQUE constraint failed"

-- The loop of `GenerateCodes`: `none` for a code that is there already, which rolls all of it back.
unfoldable pub insert_codes : ℕ → List Bytes → List Invite → Option (List Invite)
insert_codes now [] invites = some invites
insert_codes now (b ∷ random) invites =
    let invite : Invite = record {
      code = hex_encode b;
      created_at = now;
      used_by = none;
      used_at = none;
    } in
    let rest = insert_codes now random (invites ++ invite ∷ []) in
    if any (λ (i : Invite). equal i.code (hex_encode b)) invites then none else rest

-- `GenerateCodes`, with four random bytes for each code.
unfoldable pub generate_codes : ℕ → List Bytes → Store → Result (List Text) × Store
unfolding insert_codes
generate_codes now random store = elim (insert_codes now random store.invites) [
  | none ↦ (err unique_invite, store)
  | some invites ↦ (ok (map hex_encode random), record store { invites = invites })
]

abbrev pub sender_text : External → Bytes → Text
sender_text x sender = to_lower (x.address_hex sender)

-- `CheckSender`
unfoldable pub check_sender : External → Bytes → Store → Bool
check_sender x sender store =
    any (λ (g : Guest). equal g.sender (sender_text x sender)) store.guests

-- `SELECT used_by FROM invite_codes WHERE code = ?`
unfoldable pub find_invite : Text → List Invite → Option Invite
find_invite code [] = none
find_invite code (i ∷ invites) = if equal i.code code then some i else find_invite code invites

-- `UPDATE invite_codes SET used_by = ?, used_at = ? WHERE code = ?`
unfoldable pub mark_used : Text → Text → ℕ → List Invite → List Invite
mark_used code who now [] = []
mark_used code who now (i ∷ invites) =
    (if equal i.code code then record i { used_by = some who; used_at = some now } else i)
    ∷ mark_used code who now invites

abbrev pub invalid_code : Text
invalid_code = codes "invalid invite code"

abbrev pub used_code : Text
used_code = codes "invite code already used"

-- The two writes of `RedeemCode`.
unfoldable pub redeem : External → ℕ → Text → Bytes → Store → Store
unfolding mark_used
redeem x now code sender store = record {
  invites = mark_used code (sender_text x sender) now store.invites;
  guests =
      store.guests
      ++ record { sender = sender_text x sender; invite_code = code; created_at = now } ∷ [];
}

-- `RedeemCode` from the check of the code on.
unfoldable pub redeem_invite :
    External → ℕ → Text → Bytes → Option Invite → Store → Result (Unit {0}) × Store
unfolding redeem
redeem_invite x now code sender none store = (err invalid_code, store)
redeem_invite x now code sender (some i) store = elim i.used_by [
  | none ↦ (ok tt, redeem x now code sender store)
  | some who ↦ (err used_code, store)
]

-- `RedeemCode`
unfoldable pub redeem_code : External → ℕ → Text → Bytes → Store → Result (Unit {0}) × Store
unfolding check_sender redeem_invite find_invite
redeem_code x now code sender store =
    if check_sender x sender store
    then (ok tt, store)
    else redeem_invite x now code sender (find_invite code store.invites) store
