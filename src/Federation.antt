-- ===== src/Federation.antt =====
-- src/federation: peers exchange signed evidence.
pub mod Wire
pub mod Identity
pub mod Bundle
pub mod Ledger
pub mod Limits
pub mod Source
pub mod Relay
pub mod Session
pub mod Store
