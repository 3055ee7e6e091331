-- ===== src/Tests.antt =====
-- Tests: the theorems of the other modules, applied to concrete inputs.
pub mod Puffin
mod Scan
mod Irc
mod Storage
pub mod Api
mod Create
mod Entry
pub mod Attach
mod Version
