-- ===== src/Examples.antt =====
-- The theorems at concrete inputs, with concrete formats and a toy signature scheme.
pub mod Fixtures
pub mod Sharing
pub mod Signing
pub mod Accepting
pub mod Probing
pub mod Routing
pub mod Walking
pub mod Relaying
pub mod Talking
pub mod Naming
pub mod Restarting
