-- ===== src/Storage/CreateTable.antt =====
-- `UCTableSet::CreateTable` of src/storage/uc_table_set.cpp and what it is made of.
pub mod Location
pub mod Committed
pub mod Environment
pub mod Options
pub mod Registration
pub mod Flow
