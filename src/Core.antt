-- ===== src/Core.antt =====
-- internal/core: the two forms of a user operation, the packing of its gas fields, the calldata of
-- an account's `execute`, and the hash of an operation.
pub mod UserOp
pub mod Pack
pub mod Calldata
pub mod Hash
pub mod Crypto
