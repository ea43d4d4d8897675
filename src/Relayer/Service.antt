-- ===== src/Relayer/Service.antt =====
-- relayer/src/v2-service.ts: V2ActionService as a machine whose steps are the awaited calls.
pub mod State
pub mod Wallet
pub mod Calls
pub mod Events
pub mod Moves
pub mod Effects
pub mod Stages
pub mod Replies
pub mod Steps
pub mod Safety
pub mod Receipts
pub mod Stranded
