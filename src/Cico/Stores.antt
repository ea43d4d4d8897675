-- ===== src/Cico/Stores.antt =====
-- cico-service/src/durable-stores.ts: the JSON files of the credential service.
pub mod File
pub mod Keyed
pub mod Evidence
pub mod Insert
pub mod Hex
pub mod Persist
pub mod Receipts
pub mod Issuances
mod Tests
