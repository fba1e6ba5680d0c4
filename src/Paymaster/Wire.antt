-- ===== src/Paymaster/Wire.antt =====
-- The paymaster's data in the operation that is submitted: internal/paymaster/paymaster.go and
-- `FromRPC` of internal/core/userop.go together.
use signet_min_bundler.Prelude.{
  ℕ, ◌+◌, ◌^◌, ◌<◌, ◌≡◌, ◌≢◌, refl, sym, ap, ◌∙◌, false, [], ◌++◌, All, arith, Bytes, Text, IsByte,
  length, append-nil, length-replicate, take, ◌*◌, ◌-◌,
}
use signet_min_bundler.Go.{ok, sub, zeros, word, copy_at}
use signet_min_bundler.Go.Copy.{copy_at-middle, replicate-add, drop-append_of_eq, take-append_of_eq}
use signet_min_bundler.Hex.{bytes_to_hex, set_bytes}
use signet_min_bundler.Hex.Digits.{of_digits}
use signet_min_bundler.Hex.Laws.{decode_hex-bytes_to_hex}
use signet_min_bundler.External.{External, ExternalLaws}
use signet_min_bundler.Core.UserOp.{address_then, is_empty, optional_part}
use signet_min_bundler.Paymaster.{paymaster_gas_limits}
use signet_min_bundler.Paymaster.Layout.{HoldsWindow}

pub address_then-append :
    (address tail : Bytes) → length address ≡ 20 → address_then address tail ≡ address ++ tail
unfolding address_then
address_then-append address tail e =
    ap (λ z. copy_at (copy_at z 0 20 address) 20 (20 + length tail) tail)
      (replicate-add 20 (length tail) 0)
    ∙ ap (λ z. copy_at z 20 (20 + length tail) tail)
        (copy_at-middle 0 20 [] (zeros 20) (zeros (length tail)) address refl (omega (arith, e))
          (length-replicate {A = ℕ} 20 0 ∙ sym e))
    ∙ ap (λ z. copy_at (address ++ z) 20 (20 + length tail) tail)
        (sym (append-nil (zeros (length tail))))
    ∙ copy_at-middle 20 (20 + length tail) address (zeros (length tail)) [] tail (sym e) refl
        (length-replicate (length tail) 0)
    ∙ ap (λ z. address ++ z) (append-nil tail)

sub-after :
    (address tail : Bytes) (k : ℕ)
    → length address ≡ 20
    → sub (address ++ tail) 20 (20 + k) ≡ sub tail 0 k
unfolding sub
sub-after address tail k e =
    ap (λ z. take (20 + k - 20) z) (drop-append_of_eq 20 address tail (sym e))
    ∙ ap (λ n. take n tail) {x = 20 + k - 20} {y = k - 0} (omega arith)

limits_read : set_bytes paymaster_gas_limits ≡ 50000 * 2 ^ 128
unfolding set_bytes paymaster_gas_limits of_digits
limits_read = refl

module _ (x : External) (laws : ExternalLaws x) where
  -- With the laws of the text forms: when the paymaster data of GetPaymasterData, which holds a
  -- window that ends at u < 2^64, is put into the wire form beside a paymaster's address, the
  -- field that FromRPC builds is the address and then the data at once: its bytes 20 to 52 are
  -- the word of u, and not the packed gas limits over which the paymaster's hash was computed.
  pub optional_part-paymaster_data :
      (context paymaster : Text) (paymaster_data : Bytes) (u a : ℕ) (sig : Bytes)
      → is_empty paymaster ≡ false
      → HoldsWindow paymaster_data u a sig
      → All IsByte paymaster_data
      → u < word
      → (part : Bytes) × (optional_part x context paymaster (bytes_to_hex paymaster_data) ≡ ok part)
        × (sub part 0 20 ≡ x.hex_to_address paymaster)
        × (set_bytes (sub part 20 52) ≡ u)
        × (sub part 20 52 ≢ paymaster_gas_limits)
  unfolding optional_part
  optional_part-paymaster_data context paymaster paymaster_data u a sig named w bytes h =
      let address = x.hex_to_address paymaster in
      let len = (laws.hex_to_address-IsArray paymaster).len in
      let whole = address_then-append address paymaster_data len in
      let read : set_bytes (sub (address_then address paymaster_data) 20 52) ≡ u =
        ap (λ z. set_bytes (sub z 20 52)) whole
        ∙ ap set_bytes (sub-after address paymaster_data 32 len)
        ∙ w.valid_until in
      (
        address_then address paymaster_data,
        rw (named, decode_hex-bytes_to_hex paymaster_data bytes) refl,
        ap (λ z. sub z 0 20) whole
            ∙ (unfold sub in take-append_of_eq 20 address paymaster_data (sym len)),
        read,
        λ same. absurd (omega (arith, h, sym read ∙ ap set_bytes same ∙ limits_read)),
      )
