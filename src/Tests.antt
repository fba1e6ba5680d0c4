-- ===== src/Tests.antt =====
-- Runs of the model on small inputs, and the theorems at concrete inputs.
mod Instances
mod Hexadecimal
mod Mempool
mod Loop
mod Watch
mod Checks
mod Calldata
mod Rpc
mod Signer
mod System
mod Paymaster
mod Prover
mod SendUserOp
mod Signatures
mod Server
