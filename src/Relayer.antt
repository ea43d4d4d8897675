-- ===== src/Relayer.antt =====
-- relayer/src: the walletless action service.
pub mod Types
pub mod Store
pub mod Request
pub mod Capability
pub mod Indexer
pub mod Service
mod Tests
