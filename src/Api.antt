-- ===== src/Api.antt =====
-- src/uc_api.cpp: the fields of a response, its errors, the data, and the calls of the server.
pub mod Data
pub mod Fields
pub mod Errors
pub mod Values
pub mod WireSchema
pub mod Calls
