-- ===== src/Puffin.antt =====
-- src/uc_puffin.cpp: Iceberg deletion vectors and the puffin container that may hold them.
pub mod Roaring
pub mod Crc
pub mod Blob
pub mod Footer
