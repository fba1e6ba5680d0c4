-- ===== src/Mempool.antt =====
-- internal/mempool: the table of user operations, its SQL statements and the pruner.
pub mod Table
pub mod Hydrate
pub mod Repo
