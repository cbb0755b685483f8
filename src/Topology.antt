-- ===== src/Topology.antt =====
-- src/topology: the evidence record that every provider emits, and the role that behaviour gives.
pub mod Names
pub mod Evidence
pub mod Role
pub mod Realm
