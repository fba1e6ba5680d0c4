-- ===== src/Bundler/Abi.antt =====
-- internal/bundler/loop.go: the ABI encoding of `handleOps`.
use signet_min_bundler.Prelude.{ℕ, ◌+◌, ◌*◌, ◌/◌, List, [], ◌∷◌, ◌++◌, Bytes, codes, length, map}
use signet_min_bundler.Go.{pos, copy_at, sub, zeros}
use signet_min_bundler.Hex.{pad_left32, big_bytes}
use signet_min_bundler.External.{External}
use signet_min_bundler.Core.UserOp.{PackedUserOp}

-- `core.PadLeft32(big.NewInt(int64(n)).Bytes())`
unfoldable pub word_of : ℕ → Bytes
word_of n = pad_left32 (big_bytes (pos n))

-- `((n + 31) / 32) * 32`
abbrev pub padded_len : ℕ → ℕ
padded_len n = (n + 31) / 32 * 32

-- `encodeBytes`
unfoldable pub encode_bytes : Bytes → Bytes
encode_bytes data_bytes =
    let size = 32 + padded_len (length data_bytes) in
    let buf = copy_at (zeros size) 0 32 (word_of (length data_bytes)) in
    copy_at buf 32 size data_bytes

abbrev pub head_size : ℕ
head_size = 9 * 32

-- The head of `encodePackedUserOp`: the static fields, and the offsets of the dynamic ones.
unfoldable pub write_head : PackedUserOp → ℕ → ℕ → ℕ → Bytes → Bytes
write_head op len1 len2 len3 b0 =
    let b1 = copy_at b0 12 32 op.sender in
    let b2 = copy_at b1 32 64 (pad_left32 (big_bytes op.nonce)) in
    let b3 = copy_at b2 (4 * 32) (5 * 32) op.account_gas_limits in
    let b4 = copy_at b3 (5 * 32) (6 * 32) (pad_left32 (big_bytes op.pre_verification_gas)) in
    let b5 = copy_at b4 (6 * 32) (7 * 32) op.gas_fees in
    let b6 = copy_at b5 (2 * 32) (3 * 32) (word_of head_size) in
    let b7 = copy_at b6 (3 * 32) (4 * 32) (word_of (head_size + len1)) in
    let b8 = copy_at b7 (7 * 32) (8 * 32) (word_of (head_size + len1 + len2)) in
    copy_at b8 (8 * 32) (9 * 32) (word_of (head_size + len1 + len2 + len3))

-- Its dynamic data, from `pos := headSize` on.
unfoldable pub write_tail : Bytes → Bytes → Bytes → Bytes → ℕ → Bytes → Bytes
write_tail e1 e2 e3 e4 total b0 =
    let b1 = copy_at b0 head_size total e1 in
    let b2 = copy_at b1 (head_size + length e1) total e2 in
    let b3 = copy_at b2 (head_size + length e1 + length e2) total e3 in
    copy_at b3 (head_size + length e1 + length e2 + length e3) total e4

-- `encodePackedUserOp`
unfoldable pub encode_packed_user_op : PackedUserOp → Bytes
unfolding write_head write_tail
encode_packed_user_op op =
    let init_code_enc = encode_bytes op.init_code in
    let call_data_enc = encode_bytes op.call_data in
    let pm_data_enc = encode_bytes op.paymaster_and_data in
    let sig_enc = encode_bytes op.signature in
    let total =
      head_size
      + length init_code_enc
      + length call_data_enc
      + length pm_data_enc
      + length sig_enc in
    write_tail init_code_enc call_data_enc pm_data_enc sig_enc total (
      write_head op (length init_code_enc) (length call_data_enc) (length pm_data_enc)
        (zeros total))

-- The offset words of the array elements.
unfoldable pub offset_words : ℕ → List Bytes → Bytes
offset_words offset [] = []
offset_words offset (e ∷ es) = word_of offset ++ offset_words (offset + length e) es

unfoldable pub concat_all : List Bytes → Bytes
concat_all [] = []
concat_all (e ∷ es) = e ++ concat_all es

-- `handleOpsSelector`
unfoldable pub handle_ops_selector : External → Bytes
handle_ops_selector x =
    sub
      (x.keccak256 (
        codes
          "handleOps((address,uint256,bytes,bytes,bytes32,uint256,bytes32,bytes,bytes)[],address)"))
      0 4

-- `BuildHandleOpsCalldata`
unfoldable pub build_handle_ops_calldata : External → List PackedUserOp → Bytes → Bytes
unfolding offset_words concat_all
build_handle_ops_calldata x ops beneficiary =
    let encoded = map encode_packed_user_op ops in
    handle_ops_selector x
    ++ (word_of 64
        ++ (pad_left32 beneficiary
            ++ (word_of (length ops)
                ++ (offset_words (length ops * 32) encoded ++ concat_all encoded))))
