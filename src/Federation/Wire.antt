-- ===== src/Federation/Wire.antt =====
-- src/federation/wire.rs: the wire form of evidence, its conversions, and the bytes that are signed.
pub mod Errors
pub mod Names
pub mod Records
pub mod Convert
pub mod Payload
