-- ===== src/External.antt =====
-- What the program takes from code outside the repository: the text forms of hashes and addresses
-- (github.com/ethereum/go-ethereum/common) and Keccak-256 (golang.org/x/crypto/sha3).
use signet_min_bundler.Prelude.{◌≡◌, Bytes, Text, IsArray, to_lower}

pub record External : Type 0 where
  -- `Hash.Hex()`, `HexToHash`
  pub hash_hex : Bytes → Text
  pub hex_to_hash : Text → Bytes
  -- `Address.Hex()`, with its mixed-case checksum, and `HexToAddress`
  pub address_hex : Bytes → Text
  pub hex_to_address : Text → Bytes
  pub keccak256 : Bytes → Bytes

-- The documented behaviour that the program relies on.
pub record ExternalLaws (x : External) : Type 0 where
  pub hash_roundtrip : (h : Bytes) → IsArray 32 h → x.hex_to_hash (x.hash_hex h) ≡ h
  pub address_roundtrip :
      (a : Bytes) → IsArray 20 a → x.hex_to_address (to_lower (x.address_hex a)) ≡ a
  pub hex_to_hash-IsArray : (t : Text) → IsArray 32 (x.hex_to_hash t)
  pub hex_to_address-IsArray : (t : Text) → IsArray 20 (x.hex_to_address t)
  pub keccak256-IsArray : (b : Bytes) → IsArray 32 (x.keccak256 b)
