-- ===== src/Prover.antt =====
-- internal/prover/: proofs of a JWT. The circuit's compiler and prover, HTTP, JSON and base64 are
-- arguments.
pub mod Toml
pub mod Limbs
pub mod Bounded
pub mod Jwks
pub mod Prove
pub mod Proved
pub mod Handler
