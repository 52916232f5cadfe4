-- ===== src/Persistence.antt =====
-- `packages/persistence/src`: the PostgreSQL adapter.
pub mod Failures
pub mod Stock
pub mod Records
pub mod Client
pub mod Store
