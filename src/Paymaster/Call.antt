-- ===== src/Paymaster/Call.antt =====
-- internal/paymaster/paymaster.go: the ABI encoding of the call of `shouldSponsor`, whose tuple is
-- written by a copy of the encoder of internal/bundler/loop.go.
use signet_min_bundler.Prelude.{◌+◌, ◌++◌, Bytes, codes, length}
use signet_min_bundler.Go.{sub, zeros}
use signet_min_bundler.External.{External}
use signet_min_bundler.Core.UserOp.{PackedUserOp}
use signet_min_bundler.Bundler.Abi.{word_of, encode_bytes, head_size, write_head, write_tail}

-- `encodePackedUserOpForCall`
unfoldable pub encode_packed_user_op_for_call : PackedUserOp → Bytes
encode_packed_user_op_for_call op =
    let e1 = encode_bytes op.init_code in
    let e2 = encode_bytes op.call_data in
    let e3 = encode_bytes op.paymaster_and_data in
    let e4 = encode_bytes op.signature in
    let total_size = head_size + length e1 + length e2 + length e3 + length e4 in
    let head = write_head op (length e1) (length e2) (length e3) (zeros total_size) in
    write_tail e1 e2 e3 e4 total_size head

-- `shouldSponsorSelector`
unfoldable pub should_sponsor_selector : External → Bytes
should_sponsor_selector x =
    sub
      (x.keccak256
        (codes "shouldSponsor((address,uint256,bytes,bytes,bytes32,uint256,bytes32,bytes,bytes))"))
      0 4

-- `encodeShouldSponsorCall`
unfoldable pub encode_should_sponsor_call : External → PackedUserOp → Bytes
unfolding encode_packed_user_op_for_call should_sponsor_selector
encode_should_sponsor_call x op =
    should_sponsor_selector x ++ (word_of 32 ++ encode_packed_user_op_for_call op)
