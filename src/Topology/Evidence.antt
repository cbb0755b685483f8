-- ===== src/Topology/Evidence.antt =====
-- src/topology/evidence.rs: facts, and the record that carries one with its provenance. `IpNet` (of
-- the crate ipnet) and `IpAddr` are parameters.
use idnx.Common.{ℕ, Text, Option, some, to_ascii_lowercase}
use idnx.Topology.Names.{Confidence, EvidenceSource, Capability, RoleSignal}

-- `SystemTime`: seconds and nanoseconds after the Unix epoch, or before it.
pub data SystemTime : Type 0 where
  after_epoch before_epoch : ℕ → ℕ → SystemTime

-- `time.duration_since(UNIX_EPOCH).map(|d| d.as_secs()).unwrap_or(0)`
unfoldable pub unix_seconds : SystemTime → ℕ
unix_seconds (SystemTime.after_epoch secs nanos) = secs
unix_seconds (SystemTime.before_epoch secs nanos) = 0

pub data DeviceKey (IpAddr : Type 0) : Type 0 where
  mac : Text → DeviceKey IpAddr
  address : IpAddr → DeviceKey IpAddr
  scoped_address : IpAddr → Text → DeviceKey IpAddr

-- `DeviceKey::mac`
unfoldable pub key_of_mac : {IpAddr : Type 0} → Text → DeviceKey IpAddr
unfolding to_ascii_lowercase
key_of_mac raw = DeviceKey.mac (to_ascii_lowercase raw)

pub data Fact (IpNet IpAddr : Type 0) : Type 0 where
  network : IpNet → Fact IpNet IpAddr
  vlan : ℕ → Fact IpNet IpAddr
  vlan_network : ℕ → IpNet → Fact IpNet IpAddr
  interface_network : Text → IpNet → Fact IpNet IpAddr
  device_address : DeviceKey IpAddr → IpAddr → Fact IpNet IpAddr
  device_hostname : DeviceKey IpAddr → Text → Fact IpNet IpAddr
  device_vendor : DeviceKey IpAddr → Text → Fact IpNet IpAddr
  device_description : DeviceKey IpAddr → Text → Fact IpNet IpAddr
  device_role_signal : DeviceKey IpAddr → RoleSignal → Fact IpNet IpAddr
  device_capability : DeviceKey IpAddr → Capability → Option Text → Fact IpNet IpAddr
  gateway_for : DeviceKey IpAddr → IpNet → Fact IpNet IpAddr
  routes_to : DeviceKey IpAddr → IpNet → Option IpAddr → Fact IpNet IpAddr
  attached_to : DeviceKey IpAddr → IpNet → Fact IpNet IpAddr
  bridge_link : Text → Text → Option Text → Fact IpNet IpAddr
  observed_behind : DeviceKey IpAddr → DeviceKey IpAddr → Fact IpNet IpAddr
  forwards_toward : DeviceKey IpAddr → IpAddr → ℕ → Option (DeviceKey IpAddr) → Fact IpNet IpAddr
  opaque_boundary : DeviceKey IpAddr → Text → Fact IpNet IpAddr
  service : IpAddr → ℕ → Text → Option Text → Fact IpNet IpAddr
  resolved_as : Text → IpAddr → Fact IpNet IpAddr

pub record PeerOrigin : Type 0 where
  pub peer : Text
  pub vantage : Text
  pub sequence : ℕ
  pub published_at : ℕ

pub record TopologyEvidence (IpNet IpAddr : Type 0) : Type 0 where
  pub fact : Fact IpNet IpAddr
  pub source : EvidenceSource
  pub confidence : Confidence
  pub vantage : Text
  pub observed_at : SystemTime
  pub detail : Option Text
  pub origin : Option PeerOrigin

module _ {IpNet IpAddr : Type 0} where
  unfoldable pub from_peer :
      TopologyEvidence IpNet IpAddr → PeerOrigin → TopologyEvidence IpNet IpAddr
  from_peer evidence origin = record evidence { origin = some origin }
