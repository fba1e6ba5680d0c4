-- ===== src/Paymaster.antt =====
-- internal/paymaster/paymaster.go: who is sponsored, and the data that the paymaster contract
-- reads. The node, the signing key and the clock are arguments.
pub mod Call
pub mod Layout
pub mod Sponsorship
pub mod Wire
use signet_min_bundler.Prelude.{
  ℕ, ◌+◌, ◌-◌, ◌*◌, ◌%◌, Bool, Option, none, some, [], ◌∷◌, ◌++◌, ◌==◌, if◌then◌else◌, Bytes, Text,
  codes, length, ltb, drop, List,
}
use signet_min_bundler.Go.{
  Result, ok, err, panic, wrap, Answer, answer, failure, pos, word, copy_at, zeros,
}
use signet_min_bundler.Hex.{big_bytes, pad_left32, int_text}
use signet_min_bundler.External.{External}
use signet_min_bundler.Core.UserOp.{PackedUserOp, is_empty}
use signet_min_bundler.Core.Pack.{pack_uint128s}
use signet_min_bundler.Sponsor.{Store, check_sender, redeem_code}
use signet_min_bundler.Paymaster.Call.{encode_should_sponsor_call}

-- `Service`, without its signer, client and store.
pub record Service : Type 0 where
  pub paymaster_address : Bytes
  pub chain_id : ℕ

-- What one call takes from outside: `SignHash`, the node's answer to a call of the paymaster
-- contract by its data, and the clock in seconds and in milliseconds.
pub record PaymasterEnv : Type 0 where
  pub sign_hash : Bytes → Answer Bytes
  pub call_contract : Bytes → Answer Bytes
  pub now : ℕ
  pub now_ms : ℕ

-- `SponsorResult`
pub record SponsorResult : Type 0 where
  pub paymaster : Bytes
  pub paymaster_data : Bytes
  pub paymaster_verification_gas_limit : ℕ
  pub paymaster_post_op_gas_limit : ℕ

-- `core.PadLeft32(new(big.Int).SetUint64(n).Bytes())`
abbrev pub uint_word : ℕ → Bytes
uint_word n = pad_left32 (big_bytes (pos n))

-- `DefaultVerificationGasLimit`, `DefaultPostOpGasLimit`
abbrev pub default_verification_gas_limit : ℕ
default_verification_gas_limit = 50000

abbrev pub default_post_op_gas_limit : ℕ
default_post_op_gas_limit = 0

-- `validityWindow`, on `uint64`: the end, then the start.
unfoldable pub validity_window : ℕ → ℕ × ℕ
validity_window now = ((now % word + 600) % word, (now % word + (word - 60)) % word)

-- `encodeValidityAndSig`
unfoldable pub encode_validity_and_sig : ℕ → ℕ → Bytes → Bytes
encode_validity_and_sig valid_until valid_after sig =
    let size = 64 + length sig in
    let b1 = copy_at (zeros size) 0 32 (uint_word valid_until) in
    let b2 = copy_at b1 32 64 (uint_word valid_after) in copy_at b2 64 size sig

-- `paymasterGasLimits`
unfoldable pub paymaster_gas_limits : Bytes
unfolding pack_uint128s
paymaster_gas_limits = pack_uint128s default_verification_gas_limit default_post_op_gas_limit

-- The buffer that `getHash` fills.
unfoldable pub hash_encoding : External → Service → PackedUserOp → ℕ → ℕ → Bytes
hash_encoding x s op valid_until valid_after =
    let b1 = copy_at (zeros (12 * 32)) 12 32 op.sender in
    let b2 = copy_at b1 32 64 (pad_left32 (big_bytes op.nonce)) in
    let b3 = copy_at b2 64 96 (x.keccak256 op.init_code) in
    let b4 = copy_at b3 96 128 (x.keccak256 op.call_data) in
    let b5 = copy_at b4 128 160 op.account_gas_limits in
    let b6 = copy_at b5 160 192 paymaster_gas_limits in
    let b7 = copy_at b6 192 224 (pad_left32 (big_bytes op.pre_verification_gas)) in
    let b8 = copy_at b7 224 256 op.gas_fees in
    let b9 = copy_at b8 256 288 (uint_word s.chain_id) in
    let b10 = copy_at b9 300 320 s.paymaster_address in
    let b11 = copy_at b10 320 352 (uint_word valid_until) in
    copy_at b11 352 384 (uint_word valid_after)

-- `getHash`
unfoldable pub get_hash : External → Service → PackedUserOp → ℕ → ℕ → Bytes
unfolding hash_encoding
get_hash x s op valid_until valid_after = x.keccak256 (hash_encoding x s op valid_until valid_after)

-- `toEthSignedMessageHash`
unfoldable pub to_eth_signed_message_hash : External → Bytes → Bytes
to_eth_signed_message_hash x hash =
    x.keccak256 (25 ∷ codes "Ethereum Signed Message:" ++ 10 ∷ codes "32" ++ hash)

abbrev pub not_whitelisted : Text → Text
not_whitelisted who =
    codes "sender "
    ++ (who ++ (codes " not whitelisted " ++ (226 ∷ 128 ∷ 148 ∷ codes " provide an invite code")))

-- `checkSponsorAccess`; without a store there is no gate. An invite code that is left out is "".
unfoldable pub check_sponsor_access :
    External → PaymasterEnv → Bytes → Text → Option Store → Result (Unit {0}) × Option Store
check_sponsor_access x env sender invite_code none = (ok tt, none)
check_sponsor_access x env sender invite_code (some store) =
    let (redeemed, store') = redeem_code x env.now_ms invite_code sender store in
    if check_sender x sender store
    then (ok tt, some store)
    else if is_empty invite_code
    then (err (not_whitelisted (x.address_hex sender)), some store)
    else (wrap (codes "invite code rejected: ") redeemed, some store')

-- What `checkShouldSponsor` makes of the contract's answer.
unfoldable pub should_sponsor : Answer Bytes → Result (Unit {0})
should_sponsor (failure e) = err (codes "shouldSponsor call failed: " ++ e)
should_sponsor (answer result) =
    if ltb (length result) 32
    then err
        (codes "shouldSponsor: unexpected response length " ++ int_text 10 (pos (length result)))
    else elim (drop 31 result) [
      | [] ↦ panic
      | b ∷ more ↦ if b == 1 then ok tt else err (codes "sponsorship rejected by paymaster")
    ]

-- `checkShouldSponsor`
unfoldable pub check_should_sponsor : External → PaymasterEnv → PackedUserOp → Result (Unit {0})
unfolding should_sponsor
check_should_sponsor x env op = should_sponsor (env.call_contract (encode_should_sponsor_call x op))

abbrev pub sponsor_result : Service → Bytes → SponsorResult
sponsor_result s paymaster_data = record {
  paymaster = s.paymaster_address;
  paymaster_data = paymaster_data;
  paymaster_verification_gas_limit = default_verification_gas_limit;
  paymaster_post_op_gas_limit = default_post_op_gas_limit;
}

-- `GetStubData`
unfoldable pub get_stub_data : Service → ℕ → SponsorResult
unfolding validity_window encode_validity_and_sig
get_stub_data s now =
    let (valid_until, valid_after) = validity_window now in
    sponsor_result s (encode_validity_and_sig valid_until valid_after (zeros 65))

-- The signature over the operation and the window, in `GetPaymasterData`.
unfoldable pub sign_paymaster_data :
    External → Service → PaymasterEnv → PackedUserOp → Result SponsorResult
unfolding validity_window encode_validity_and_sig get_hash to_eth_signed_message_hash
sign_paymaster_data x s env op =
    let (valid_until, valid_after) = validity_window env.now in
    let prefixed = to_eth_signed_message_hash x (get_hash x s op valid_until valid_after) in
    elim (env.sign_hash prefixed) [
      | failure e ↦ err (codes "sign paymaster data: " ++ e)
      | answer sig ↦ ok (sponsor_result s (encode_validity_and_sig valid_until valid_after sig))
    ]

-- `GetPaymasterData` after the check of the sender.
unfoldable pub sponsor_admitted :
    External → Service → PaymasterEnv → PackedUserOp → Result (Unit {0}) → Result SponsorResult
unfolding check_should_sponsor sign_paymaster_data
sponsor_admitted x s env op (err e) = err e
sponsor_admitted x s env op panic = panic
sponsor_admitted x s env op (ok _) =
    elim (check_should_sponsor x env op) as (λ _. Result SponsorResult) [
      | ok _ ↦ sign_paymaster_data x s env op
      | err e ↦ err e
      | panic ↦ panic
    ]

-- `GetPaymasterData`
unfoldable pub get_paymaster_data :
    External
    → Service
    → PaymasterEnv
    → PackedUserOp
    → Text
    → Option Store
    → Result SponsorResult × Option Store
unfolding check_sponsor_access sponsor_admitted
get_paymaster_data x s env op invite_code store =
    let (access, store') = check_sponsor_access x env op.sender invite_code store in
    (sponsor_admitted x s env op access, store')
