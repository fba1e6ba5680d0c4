-- ===== src/Core/Calldata.antt =====
-- internal/core/calldata.go: the calldata of `execute` and of `createAccount`. `int` is the 64-bit
-- word, and a slice out of its bounds panics.
pub mod Roundtrip
use signet_min_bundler.Prelude.{
  ℕ, ◌+◌, ◌-◌, ◌*◌, ◌/◌, Bool, List, [], ◌∷◌, ◌++◌, ltb, if◌then◌else◌, Bytes, Text, codes, equal,
  length,
}
use signet_min_bundler.Go.{
  Result, ok, err, panic, ◌>>=◌, ℤ, pos, int64_of, add64, lt_int, slice, make_len, zeros, sub,
  copy_at,
}
use signet_min_bundler.Hex.{set_bytes, big_bytes, pad_left32}
use signet_min_bundler.External.{External}

-- `executeSelector`
unfoldable pub execute_selector : External → Bytes
execute_selector x = sub (x.keccak256 (codes "execute(address,uint256,bytes)")) 0 4

abbrev pub too_short : Text
too_short = codes "callData too short"

-- (The error's text quotes the selector too.)
abbrev pub unrecognised : Text
unrecognised = codes "unrecognised selector"

-- `DecodeSignetExecuteTarget`
unfoldable pub decode_signet_execute_target : External → Bytes → Result Bytes
decode_signet_execute_target x call_data =
    if ltb (length call_data) 36
    then err too_short
    else if equal (sub call_data 0 4) (execute_selector x)
    then ok (sub call_data 16 36)
    else err unrecognised

-- The inner data, whose length word is at `data_start`.
unfoldable pub read_inner : Bytes → ℤ → Result Bytes
read_inner call_data data_start =
    if lt_int (pos (length call_data)) (add64 data_start (pos 32))
    then err (codes "callData too short for data length")
    else (do
      len_word ← slice call_data data_start (add64 data_start (pos 32))
      let data_len = int64_of (set_bytes len_word)
      let data_begin = add64 data_start (pos 32)
      let data_end = add64 data_begin data_len
      if lt_int (pos (length call_data)) data_end
          then err (codes "callData too short for data payload")
          else (do
            n ← make_len data_len
            inner ← slice call_data data_begin data_end
            ok (copy_at (zeros n) 0 n inner)))

-- `DecodeSignetExecute`
unfoldable pub decode_signet_execute : External → Bytes → Result (Bytes × ℤ × Bytes)
unfolding read_inner
decode_signet_execute x call_data =
    if ltb (length call_data) 100
    then err (codes "callData too short for execute")
    else if equal (sub call_data 0 4) (execute_selector x)
    then (do
      inner ← read_inner call_data (add64 (pos 4) (int64_of (set_bytes (sub call_data 68 100))))
      ok (sub call_data 16 36, pos (set_bytes (sub call_data 36 68)), inner))
    else err unrecognised

-- `PadLeft32(big.NewInt(int64(n)).Bytes())`
unfoldable pub length_word : ℕ → Bytes
length_word n = pad_left32 (big_bytes (pos n))

-- `BuildExecuteCalldata`
unfoldable pub build_execute_calldata : External → Bytes → ℤ → Bytes → Bytes
build_execute_calldata x to value data_bytes =
    let data_padded_len = (length data_bytes + 31) / 32 * 32 in
    let size = 4 + 32 + 32 + 32 + 32 + data_padded_len in
    let b1 = copy_at (zeros size) 0 4 (execute_selector x) in
    let b2 = copy_at b1 16 36 to in
    let b3 = copy_at b2 36 68 (pad_left32 (big_bytes value)) in
    let b4 = copy_at b3 99 100 (96 ∷ []) in
    let b5 = copy_at b4 100 132 (length_word (length data_bytes)) in copy_at b5 132 size data_bytes

-- `ABIEncodeFactoryArgs`
unfoldable pub abi_encode_factory_args : Bytes → Bytes → ℤ → Bytes
abi_encode_factory_args entry_point group_pub_key salt =
    let data_padded_len = (length group_pub_key + 31) / 32 * 32 in
    let size = 4 * 32 + data_padded_len in
    let b1 = copy_at (zeros size) 12 32 entry_point in
    let b2 = copy_at b1 63 64 (96 ∷ []) in
    let b3 = copy_at b2 64 96 (pad_left32 (big_bytes salt)) in
    let b4 = copy_at b3 96 128 (length_word (length group_pub_key)) in
    copy_at b4 128 size group_pub_key

-- `BuildInitCode`
unfoldable pub build_init_code : External → Bytes → Bytes → Bytes → ℤ → Bytes
unfolding abi_encode_factory_args
build_init_code x factory entry_point group_pub_key salt =
    let sel = sub (x.keccak256 (codes "createAccount(address,bytes,uint256)")) 0 4 in
    let args = abi_encode_factory_args entry_point group_pub_key salt in
    let size = 20 + 4 + length args in
    let b1 = copy_at (zeros size) 0 20 factory in
    let b2 = copy_at b1 20 24 sel in copy_at b2 24 size args
