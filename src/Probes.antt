-- ===== src/Probes.antt =====
-- src/probes: what is sent to devices, and what their answers establish.
pub mod Usm
pub mod Rip
pub mod Snmp
pub mod InetRoute
