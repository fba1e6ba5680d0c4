-- ===== src/SendUserOp.antt =====
-- cmd/send-userop/main.go: the command that builds, signs and submits an operation. The node, the
-- bundler's HTTP endpoint, JSON, the FROST library and math/big's `SetString` in base 0 are
-- arguments. The command's copies of the functions of internal/core are those of Core and Hex, but
-- for `computeUserOpHash`.
pub mod Parse
pub mod Amount
pub mod Fetch
pub mod Sign
pub mod Submit
pub mod Flow
pub mod Accepted
pub mod Refused
pub mod Signature
pub mod Sent
pub mod Verify
pub mod Schnorr
pub mod Verified
pub mod Submitted
