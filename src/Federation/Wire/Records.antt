-- ===== src/Federation/Wire/Records.antt =====
-- The wire types of src/federation/wire.rs.
pub mod Fields
use idnx.Common.{ℕ, Text, Option}

pub data WireDevice : Type 0 where
  mac address : Text → WireDevice
  scoped_address : Text → Text → WireDevice

pub data WireFact : Type 0 where
  network : Text → WireFact
  vlan : ℕ → WireFact
  vlan_network : ℕ → Text → WireFact
  interface_network : Text → Text → WireFact
  device_address device_hostname device_vendor device_description : WireDevice → Text → WireFact
  device_role_signal device_capability : WireDevice → Text → Option Text → WireFact
  gateway_for : WireDevice → Text → WireFact
  routes_to : WireDevice → Text → Option Text → WireFact
  attached_to : WireDevice → Text → WireFact
  bridge_link : Text → Text → Option Text → WireFact
  observed_behind : WireDevice → WireDevice → WireFact
  forwards_toward : WireDevice → Text → ℕ → Option WireDevice → WireFact
  opaque_boundary : WireDevice → Text → WireFact
  service : Text → ℕ → Text → Option Text → WireFact
  resolved_as : Text → Text → WireFact

pub record WireEvidence : Type 0 where
  pub fact : WireFact
  pub source : Text
  pub confidence : Text
  pub vantage : Text
  pub observed_at : ℕ
  pub detail : Option Text
