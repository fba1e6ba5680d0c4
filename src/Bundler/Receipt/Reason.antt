-- ===== src/Bundler/Receipt/Reason.antt =====
-- The revert reason that `ParseHandleOpsReceipt` cuts out of a log.
use signet_min_bundler.Prelude.{
  ℕ, ◌+◌, ◌-◌, ◌%◌, ◌<◌, ◌≤◌, ◌≡◌, true, false, inl, inr, ◌⊎◌, Bool-cases, ltb, leb, arith,
  if◌then◌else◌, min, Bytes, length,
}
use signet_min_bundler.Go.{
  ok, panic, pos, negsuc, int64_of, bits_of, add64, slice, sub, word, half_word,
}
use signet_min_bundler.Hex.{set_bytes}
use signet_min_bundler.Bundler.Receipt.{clamp, reason_bytes}

int64_low : (n : ℕ) → n % word < half_word → int64_of n ≡ pos (n % word)
int64_low n h = ground (arith, h)

add64_low : (m : ℕ) → m < half_word - 96 → add64 (pos 96) (pos m) ≡ pos (96 + m)
add64_low m h = ground (arith, h)

slice_clamped :
    (e : ℕ) (data_bytes : Bytes)
    → 96 ≤ e
    → 96 ≤ length data_bytes
    → slice data_bytes (pos 96) (clamp (pos e) data_bytes)
      ≡ ok (sub data_bytes 96 (min e (length data_bytes)))
unfolding sub
slice_clamped e data_bytes h k = elim (Bool-cases (ltb (length data_bytes) e)) [
  | inl beyond ↦
      let m : min e (length data_bytes) ≡ length data_bytes = ground arith in
      let e1 : leb 96 (length data_bytes) ≡ true = ground (arith, k) in
      let e2 : leb (length data_bytes) (length data_bytes) ≡ true = ground arith in
      rw (beyond, m) (rw (e1, e2))
  | inr within ↦
      let m : min e (length data_bytes) ≡ e = ground arith in
      let e1 : leb 96 e ≡ true = ground (arith, h) in
      let e2 : leb e (length data_bytes) ≡ true = ground (arith, within) in
      rw (within, m) (rw (e1, e2))
]

bits_of-int64_of : (n : ℕ) → bits_of (int64_of n) ≡ n % word
bits_of-int64_of n = elim (Bool-cases (ltb (n % word) half_word)) [
  | inl low ↦ rw low (ground arith)
  | inr high ↦ rw high (ground arith)
]

-- A sum past the largest int is negative, or below 96 when the word wraps around.
end_high :
    (m : ℕ)
    → half_word - 96 ≤ m
    → m < word
    → ((r : ℕ) × (int64_of (96 + m) ≡ pos r) × (r < 96))
      ⊎ ((r : ℕ) × (int64_of (96 + m) ≡ negsuc r))
end_high m h k = elim (Bool-cases (ltb (96 + m) word)) [
  | inl below ↦
      let e : (96 + m) % word ≡ 96 + m = ground arith in
      let f : ltb (96 + m) half_word ≡ false = ground arith in inr (word - (96 + m) - 1, rw (e, f))
  | inr above ↦
      let e : (96 + m) % word ≡ 96 + m - word = ground arith in
      let f : ltb (96 + m - word) half_word ≡ true = ground arith in
      inl (96 + m - word, rw (e, f), ground arith)
]

slice_low :
    (r : ℕ) (data_bytes : Bytes)
    → r < 96
    → 96 ≤ length data_bytes
    → slice data_bytes (pos 96) (clamp (pos r) data_bytes) ≡ panic
slice_low r data_bytes h k =
    let e : ltb (length data_bytes) r ≡ false = ground arith in
    let f : leb 96 r ≡ false = ground arith in rw (e, f)

-- The end of the slice, by the low 64 bits of the length word.
reason_end :
    (n : ℕ) (data_bytes : Bytes)
    → length data_bytes < half_word
    → 96 ≤ length data_bytes
    → slice data_bytes (pos 96) (clamp (add64 (pos 96) (int64_of n)) data_bytes) ≡ (
        if ltb (n % word) (half_word - 96)
        then ok (sub data_bytes 96 (min (96 + n % word) (length data_bytes)))
        else panic)
unfolding sub
reason_end n data_bytes h k = elim (Bool-cases (ltb (n % word) (half_word - 96))) [
  | inl low ↦
      rw (low, int64_low n (ground arith), add64_low (n % word) (ground arith))
        (slice_clamped (96 + n % word) data_bytes (omega arith) k)
  | inr high ↦
      rw (high, bits_of-int64_of n)
        (elim (end_high (n % word) (ground arith) (omega arith)) [
          | inl (r, e, f) ↦ rw e (slice_low r data_bytes f k)
          | inr (r, e) ↦ rw e
        ])
]

-- For a log of at least 96 and less than 2^63 bytes, ParseHandleOpsReceipt cuts out the revert
-- reason from byte 96 to the end that the low 64 bits of the length word give, or to the end of
-- the log if that is earlier; if those bits are 2^63 - 96 or more, the slice panics.
pub reason_bytes_cases :
    (data_bytes : Bytes)
    → length data_bytes < half_word
    → 96 ≤ length data_bytes
    → reason_bytes data_bytes ≡ (
        if ltb (set_bytes (sub data_bytes 64 96) % word) (half_word - 96)
        then ok (
            sub data_bytes 96
              (min (96 + set_bytes (sub data_bytes 64 96) % word) (length data_bytes)))
        else panic)
unfolding reason_bytes
reason_bytes_cases data_bytes h k = reason_end (set_bytes (sub data_bytes 64 96)) data_bytes h k
