-- ===== src/Federation/Wire/Convert.antt =====
-- `from_evidence`, `to_evidence` and the device conversions of src/federation/wire.rs.
pub mod RoundTrip
pub mod Accepts
pub mod Resend
use idnx.Common.{ℕ, Text, bytes, ◌≡◌, Option, none, some, ◌++◌, leb, if◌then◌else◌, ltb}
use mathlib.Core.Option
use idnx.Topology.Names.{RoleSignal}
use idnx.Topology.Evidence.{SystemTime, unix_seconds, DeviceKey, key_of_mac, Fact, TopologyEvidence}
use idnx.Federation.Wire.Errors.{
  WireError, malformed, Outcome, ok, panicked, ok_or, ◌>>=◌, traverse,
}
use idnx.Federation.Wire.Names.{confidence_wire, source_wire, capability_wire, role_signal_wire}
use idnx.Federation.Wire.Names.Reading.{
  protocol_from_wire, confidence_from_wire, source_from_wire, capability_from_wire,
  role_signal_from_wire,
}
use idnx.Federation.Wire.Records.{WireDevice, WireFact, WireEvidence}

-- What the conversions call and the repository does not define: the printing and parsing of
-- prefixes (the crate ipnet) and of addresses, the `{:?}` form of a text, and the last second after
-- the Unix epoch that the platform's `SystemTime` holds.
pub record Formats : Type 1 where
  pub IpNet : Type 0
  pub IpAddr : Type 0
  pub show_net : IpNet → Text
  pub parse_net : Text → Option IpNet
  pub show_addr : IpAddr → Text
  pub parse_addr : Text → Option IpAddr
  pub debug : Text → Text
  pub latest : ℕ

-- What is printed parses as what it was.
pub record IsReadable (f : Formats) : Type 0 where
  pub net : (n : f.IpNet) → f.parse_net (f.show_net n) ≡ some n
  pub addr : (a : f.IpAddr) → f.parse_addr (f.show_addr a) ≡ some a

module _ (f : Formats) where
  open f use {IpNet, IpAddr, show_net, parse_net, show_addr, parse_addr, debug, latest}

  abbrev pub Evidence : Type 0
  Evidence = TopologyEvidence IpNet IpAddr

  unfoldable pub parse_prefix : Text → Outcome IpNet
  parse_prefix text = ok_or (parse_net text) (malformed (bytes "prefix " ++ debug text))

  unfoldable pub parse_address : Text → Outcome IpAddr
  parse_address text = ok_or (parse_addr text) (malformed (bytes "address " ++ debug text))

  -- `WireDevice::from_key`
  unfoldable pub from_key : DeviceKey IpAddr → WireDevice
  from_key (DeviceKey.mac mac) = WireDevice.mac mac
  from_key (DeviceKey.address address) = WireDevice.address (show_addr address)
  from_key (DeviceKey.scoped_address address zone) =
      WireDevice.scoped_address (show_addr address) zone

  -- `WireDevice::to_key`
  unfoldable pub to_key : WireDevice → Outcome (DeviceKey IpAddr)
  unfolding key_of_mac parse_address
  to_key (WireDevice.mac mac) = ok (key_of_mac mac)
  to_key (WireDevice.address address) = do a ← parse_address address; ok (DeviceKey.address a)
  to_key (WireDevice.scoped_address address zone) = do
    a ← parse_address address
    ok (DeviceKey.scoped_address a zone)

  -- The `match` of `from_evidence`.
  unfoldable pub fact_to_wire : Fact IpNet IpAddr → WireFact
  unfolding from_key role_signal_wire capability_wire
  fact_to_wire (Fact.network prefix) = WireFact.network (show_net prefix)
  fact_to_wire (Fact.vlan id) = WireFact.vlan id
  fact_to_wire (Fact.vlan_network vlan network) = WireFact.vlan_network vlan (show_net network)
  fact_to_wire (Fact.interface_network interface prefix) =
      WireFact.interface_network interface (show_net prefix)
  fact_to_wire (Fact.device_address device address) =
      WireFact.device_address (from_key device) (show_addr address)
  fact_to_wire (Fact.device_hostname device hostname) =
      WireFact.device_hostname (from_key device) hostname
  fact_to_wire (Fact.device_vendor device vendor) = WireFact.device_vendor (from_key device) vendor
  fact_to_wire (Fact.device_description device text) =
      WireFact.device_description (from_key device) text
  fact_to_wire (Fact.device_role_signal device signal) =
      let (name, label) = role_signal_wire signal in
      WireFact.device_role_signal (from_key device) name label
  fact_to_wire (Fact.device_capability device capability detail) =
      WireFact.device_capability (from_key device) (capability_wire capability) detail
  fact_to_wire (Fact.gateway_for device network) =
      WireFact.gateway_for (from_key device) (show_net network)
  fact_to_wire (Fact.routes_to device network next_hop) =
      WireFact.routes_to (from_key device) (show_net network) (Option.map show_addr next_hop)
  fact_to_wire (Fact.attached_to device network) =
      WireFact.attached_to (from_key device) (show_net network)
  fact_to_wire (Fact.bridge_link bridge_id root_id port) =
      WireFact.bridge_link bridge_id root_id port
  fact_to_wire (Fact.observed_behind device via) =
      WireFact.observed_behind (from_key device) (from_key via)
  fact_to_wire (Fact.forwards_toward device toward distance previous) =
      WireFact.forwards_toward (from_key device) (show_addr toward) distance
        (Option.map from_key previous)
  fact_to_wire (Fact.opaque_boundary device why) = WireFact.opaque_boundary (from_key device) why
  fact_to_wire (Fact.service address port protocol detail) =
      WireFact.service (show_addr address) port protocol detail
  fact_to_wire (Fact.resolved_as name address) = WireFact.resolved_as name (show_addr address)

  unfoldable pub from_evidence : Evidence → WireEvidence
  from_evidence evidence = record {
    fact = fact_to_wire evidence.fact;
    source = source_wire evidence.source;
    confidence = confidence_wire evidence.confidence;
    vantage = evidence.vantage;
    observed_at = unix_seconds evidence.observed_at;
    detail = evidence.detail;
  }

  -- The `match` of `to_evidence`.
  unfoldable pub fact_from_wire : WireFact → Outcome (Fact IpNet IpAddr)
  unfolding to_key parse_prefix parse_address traverse role_signal_from_wire capability_from_wire
      protocol_from_wire
  fact_from_wire (WireFact.network prefix) = do p ← parse_prefix prefix; ok (Fact.network p)
  fact_from_wire (WireFact.vlan id) = ok (Fact.vlan id)
  fact_from_wire (WireFact.vlan_network vlan network) = do
    n ← parse_prefix network
    ok (Fact.vlan_network vlan n)
  fact_from_wire (WireFact.interface_network interface prefix) = do
    p ← parse_prefix prefix
    ok (Fact.interface_network interface p)
  fact_from_wire (WireFact.device_address device address) = do
    key ← to_key device
    a ← parse_address address
    ok (Fact.device_address key a)
  fact_from_wire (WireFact.device_hostname device hostname) = do
    key ← to_key device
    ok (Fact.device_hostname key hostname)
  fact_from_wire (WireFact.device_vendor device vendor) = do
    key ← to_key device
    ok (Fact.device_vendor key vendor)
  fact_from_wire (WireFact.device_description device text) = do
    key ← to_key device
    ok (Fact.device_description key text)
  fact_from_wire (WireFact.device_role_signal device signal label) = do
    key ← to_key device
    s ← role_signal_from_wire debug signal label
    ok (Fact.device_role_signal key s)
  fact_from_wire (WireFact.device_capability device capability detail) = do
    key ← to_key device
    c ← capability_from_wire debug capability
    ok (Fact.device_capability key c detail)
  fact_from_wire (WireFact.gateway_for device network) = do
    key ← to_key device
    n ← parse_prefix network
    ok (Fact.gateway_for key n)
  fact_from_wire (WireFact.routes_to device network next_hop) = do
    key ← to_key device
    n ← parse_prefix network
    hop ← traverse parse_address next_hop
    ok (Fact.routes_to key n hop)
  fact_from_wire (WireFact.attached_to device network) = do
    key ← to_key device
    n ← parse_prefix network
    ok (Fact.attached_to key n)
  fact_from_wire (WireFact.bridge_link bridge_id root_id port) =
      ok (Fact.bridge_link bridge_id root_id port)
  fact_from_wire (WireFact.observed_behind device via) = do
    key ← to_key device
    v ← to_key via
    ok (Fact.observed_behind key v)
  fact_from_wire (WireFact.forwards_toward device toward distance previous) = do
    key ← to_key device
    t ← parse_address toward
    p ← traverse to_key previous
    ok (Fact.forwards_toward key t distance p)
  fact_from_wire (WireFact.opaque_boundary device why) = do
    key ← to_key device
    ok (Fact.opaque_boundary key why)
  fact_from_wire (WireFact.service address port protocol detail) = do
    a ← parse_address address
    p ← protocol_from_wire debug protocol
    ok (Fact.service a port p detail)
  fact_from_wire (WireFact.resolved_as name address) = do
    a ← parse_address address
    ok (Fact.resolved_as name a)

  -- `UNIX_EPOCH + Duration::from_secs(secs)` panics on a time that `SystemTime` cannot hold.
  unfoldable pub time_of : ℕ → Outcome SystemTime
  time_of secs = if leb secs latest then ok (SystemTime.after_epoch secs 0) else panicked

  -- The time that `TopologyEvidence::new` takes from the clock is overwritten at once.
  unfoldable pub to_evidence : WireEvidence → Outcome Evidence
  to_evidence w = do
    fact ← fact_from_wire w.fact
    source ← source_from_wire debug w.source
    confidence ← confidence_from_wire debug w.confidence
    time ← time_of w.observed_at
    ok (record {
      fact = fact;
      source = source;
      confidence = confidence;
      vantage = w.vantage;
      observed_at = time;
      detail = w.detail;
      origin = none;
    })
