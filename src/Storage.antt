-- ===== src/Storage.antt =====
-- The catalog's own state: src/storage. A section under a lock is one step.
pub mod Transaction
pub mod SchemaSet
pub mod Backfill
pub mod Table
pub mod Gate
pub mod TableEntry
pub mod Attach
pub mod Version
pub mod CreateTable
