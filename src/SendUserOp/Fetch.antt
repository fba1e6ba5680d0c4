-- ===== src/SendUserOp/Fetch.antt =====
-- cmd/send-userop/main.go: what it asks the node.
use signet_min_bundler.Prelude.{
  ◌+◌, ◌-◌, Bool, ◌++◌, if◌then◌else◌, ltb, Bytes, Text, codes, length, take, drop,
}
use signet_min_bundler.Go.{
  Result, ok, err, ◌>>=◌, wrap, Answer, answer, failure, ℤ, pos, zeros, sub, copy_at,
}
use signet_min_bundler.Hex.{hex_encode, decode_hex, set_bytes}
use signet_min_bundler.External.{External}
use signet_min_bundler.Core.UserOp.{is_empty}
use signet_min_bundler.Core.Calldata.{abi_encode_factory_args}
use signet_min_bundler.SendUserOp.Parse.{parse_big_hex}

-- A call of the node: its method and what varies in its parameters, in the wire's text.
pub data Call : Type 0 where
  eth_chain_id latest_block : Call
  eth_call : Text → Text → Call
  eth_get_code : Text → Call

-- What the node answers: an error of `rpc`, or the text in its result, if it is one. The text of
-- the latest block is its base fee, "" if it has none.
abbrev pub Node : Type 0
Node = Call → Answer (Answer Text)

-- The text of a result, with the context of the error if it is no text.
abbrev pub text_of : Text → Answer (Answer Text) → Result Text
text_of context (failure e) = err e
text_of context (answer (failure e)) = err (context ++ e)
text_of context (answer (answer t)) = ok t

-- `"0x" + hex.EncodeToString(b)`
abbrev pub wire_hex : Bytes → Text
wire_hex b = codes "0x" ++ hex_encode b

-- `fetchChainID`
unfoldable pub fetch_chain_id : Node → Result ℤ
unfolding parse_big_hex
fetch_chain_id node = do
  hex_str ← text_of (codes "decode chainId: ") (node eth_chain_id)
  parse_big_hex hex_str

-- `fetchBaseFee`
unfoldable pub fetch_base_fee : Node → Result ℤ
unfolding parse_big_hex
fetch_base_fee node = do
  base_fee ← text_of (codes "decode block: ") (node latest_block)
  if is_empty base_fee
      then err (codes "baseFeePerGas not present (pre-London block?)")
      else parse_big_hex base_fee

-- The last 20 bytes of an answer. (The error's text gives its length too.)
unfoldable pub address_in : Text → Bytes → Result Bytes
address_in message b = if ltb (length b) 20 then err message else ok (drop (length b - 20) b)

-- `fetchGetAddress`
unfoldable pub fetch_get_address : External → Node → Bytes → Bytes → Bytes → ℤ → Result Bytes
unfolding address_in
fetch_get_address x node factory entry_point group_pub_key salt = do
  let sel = sub (x.keccak256 (codes "getAddress(address,bytes,uint256)")) 0 4
  let args = abi_encode_factory_args entry_point group_pub_key salt
  let size = 4 + length args
  let calldata = copy_at (copy_at (zeros size) 0 4 sel) 4 size args
  hex_str ←
      text_of (codes "decode getAddress result: ")
        (node (eth_call (wire_hex factory) (wire_hex calldata)))
  b ← wrap (codes "decode getAddress hex: ") (decode_hex hex_str)
  address_in (codes "getAddress returned too few bytes") b

-- `isDeployed`
unfoldable pub is_deployed : Node → Bytes → Result Bool
is_deployed node addr = do
  hex_str ← text_of (codes "decode eth_getCode result: ") (node (eth_get_code (wire_hex addr)))
  b ← wrap (codes "decode eth_getCode hex: ") (decode_hex hex_str)
  ok (ltb 0 (length b))

-- The word that `fetchNonce` reads: the first 32 bytes of the answer, or all of it, padded.
unfoldable pub nonce_word : Bytes → Bytes
nonce_word b = if ltb (length b) 32 then copy_at (zeros 32) (32 - length b) 32 b else take 32 b

-- `fetchNonce`
unfoldable pub fetch_nonce : External → Node → Bytes → Bytes → Result ℤ
unfolding nonce_word
fetch_nonce x node entry_point sender = do
  let sel = sub (x.keccak256 (codes "getNonce(address,uint192)")) 0 4
  let calldata = copy_at (copy_at (zeros 68) 0 4 sel) 16 36 sender
  hex_str ←
      text_of (codes "decode nonce: ") (node (eth_call (wire_hex entry_point) (wire_hex calldata)))
  b ← wrap (codes "decode nonce hex: ") (decode_hex hex_str)
  ok (pos (set_bytes (nonce_word b)))

-- `fetchAccountSigner`
unfoldable pub fetch_account_signer : External → Node → Bytes → Result Bytes
unfolding address_in
fetch_account_signer x node account = do
  let sel = sub (x.keccak256 (codes "signer()")) 0 4
  hex_str ←
      text_of (codes "decode signer result: ") (node (eth_call (wire_hex account) (wire_hex sel)))
  b ← decode_hex hex_str
  address_in (codes "signer() returned too few bytes") b
