-- ===== src/Bundler.antt =====
-- internal/bundler: the calldata of a bundle, the bundling loop, the receipts and the reconciliation.
pub mod Abi
pub mod Loop
pub mod Receipt
pub mod Watcher
