-- ===== src/Federation/Wire/Convert/RoundTrip.antt =====
-- Evidence over the wire and back: src/federation/wire.rs.
use idnx.Common.{ℕ, ◌≤◌, ◌≡◌, refl, ap, Option, none, some, arith, to_ascii_lowercase}
use mathlib.Core.Option
use idnx.Topology.Evidence.{SystemTime, unix_seconds, DeviceKey, key_of_mac, Fact, TopologyEvidence}
use idnx.Federation.Wire.Errors.{ok, traverse}
use idnx.Federation.Wire.Names.Reading.{
  source_from_wire-source_wire, confidence_from_wire-confidence_wire,
  capability_from_wire-capability_wire,
}
use idnx.Federation.Wire.Names.Sound.{
  IsKnownProtocol, HasKnownLabel, protocol_from_wire-IsKnownProtocol,
  role_signal_from_wire-role_signal_wire,
}
use idnx.Federation.Wire.Convert.{
  Formats, IsReadable, Evidence, parse_prefix, parse_address, from_key, to_key, fact_to_wire,
  from_evidence, fact_from_wire, time_of, to_evidence,
}

module _ {IpAddr : Type 0} where
  -- `DeviceKey::mac` stores hardware addresses in lower case.
  abbrev pub IsCanonical : DeviceKey IpAddr → Type 0
  IsCanonical (DeviceKey.mac mac) = to_ascii_lowercase mac ≡ mac
  IsCanonical _ = Unit

  abbrev pub IsCanonicalOption : Option (DeviceKey IpAddr) → Type 0
  IsCanonicalOption none = Unit
  IsCanonicalOption (some key) = IsCanonical key

-- Keys in lower case, and only protocols and labels that have a static string.
abbrev pub IsExpressible : {IpNet IpAddr : Type 0} → Fact IpNet IpAddr → Type 0
IsExpressible (Fact.device_address device address) = IsCanonical device
IsExpressible (Fact.device_hostname device hostname) = IsCanonical device
IsExpressible (Fact.device_vendor device vendor) = IsCanonical device
IsExpressible (Fact.device_description device text) = IsCanonical device
IsExpressible (Fact.device_role_signal device signal) = IsCanonical device × HasKnownLabel signal
IsExpressible (Fact.device_capability device capability detail) = IsCanonical device
IsExpressible (Fact.gateway_for device network) = IsCanonical device
IsExpressible (Fact.routes_to device network next_hop) = IsCanonical device
IsExpressible (Fact.attached_to device network) = IsCanonical device
IsExpressible (Fact.observed_behind device via) = IsCanonical device × IsCanonical via
IsExpressible (Fact.forwards_toward device toward distance previous) =
    IsCanonical device × IsCanonicalOption previous
IsExpressible (Fact.opaque_boundary device why) = IsCanonical device
IsExpressible (Fact.service address port protocol detail) = IsKnownProtocol protocol
IsExpressible _ = Unit

-- What the receiver holds: whole seconds after the epoch, and no origin yet.
abbrev pub received :
    {IpNet IpAddr : Type 0} → TopologyEvidence IpNet IpAddr → TopologyEvidence IpNet IpAddr
received evidence = record evidence {
  observed_at = SystemTime.after_epoch (unix_seconds evidence.observed_at) 0;
  origin = none;
}

module _ (f : Formats) (readable : IsReadable f) where
  open f use {IpNet, IpAddr, show_net, show_addr, debug, latest}

  parse_prefix-show_net : (n : IpNet) → parse_prefix f (show_net n) ≡ ok n
  unfolding parse_prefix
  parse_prefix-show_net n = rw (readable.net n)

  parse_address-show_addr : (a : IpAddr) → parse_address f (show_addr a) ≡ ok a
  unfolding parse_address
  parse_address-show_addr a = rw (readable.addr a)

  to_key-from_key : (key : DeviceKey IpAddr) → IsCanonical key → to_key f (from_key f key) ≡ ok key
  unfolding to_key from_key key_of_mac
  to_key-from_key (DeviceKey.mac mac) h = ap (λ m. ok (DeviceKey.mac m)) h
  to_key-from_key (DeviceKey.address a) h = rw parse_address-show_addr
  to_key-from_key (DeviceKey.scoped_address a zone) h = rw parse_address-show_addr

  hops : (o : Option IpAddr) → traverse (parse_address f) (Option.map show_addr o) ≡ ok o
  unfolding traverse
  hops none = refl
  hops (some a) = rw parse_address-show_addr

  keys :
      (o : Option (DeviceKey IpAddr))
      → IsCanonicalOption o
      → traverse (to_key f) (Option.map (from_key f) o) ≡ ok o
  unfolding traverse
  keys none h = refl
  keys (some key) h = rw (to_key-from_key key h)

  fact_from_wire-fact_to_wire :
      (fact : Fact IpNet IpAddr)
      → IsExpressible fact
      → fact_from_wire f (fact_to_wire f fact) ≡ ok fact
  unfolding fact_from_wire fact_to_wire
  fact_from_wire-fact_to_wire (Fact.network prefix) h = rw parse_prefix-show_net
  fact_from_wire-fact_to_wire (Fact.vlan_network vlan n) h = rw parse_prefix-show_net
  fact_from_wire-fact_to_wire (Fact.interface_network interface prefix) h = rw parse_prefix-show_net
  fact_from_wire-fact_to_wire (Fact.device_address device a) h =
      rw (to_key-from_key device h, parse_address-show_addr)
  fact_from_wire-fact_to_wire (Fact.device_hostname device hostname) h =
      rw (to_key-from_key device h)
  fact_from_wire-fact_to_wire (Fact.device_vendor device vendor) h = rw (to_key-from_key device h)
  fact_from_wire-fact_to_wire (Fact.device_description device text) h =
      rw (to_key-from_key device h)
  fact_from_wire-fact_to_wire (Fact.device_role_signal device signal) h =
      rw (to_key-from_key device h.0, role_signal_from_wire-role_signal_wire debug signal h.1)
  fact_from_wire-fact_to_wire (Fact.device_capability device capability detail) h =
      rw (to_key-from_key device h, capability_from_wire-capability_wire)
  fact_from_wire-fact_to_wire (Fact.gateway_for device n) h =
      rw (to_key-from_key device h, parse_prefix-show_net)
  fact_from_wire-fact_to_wire (Fact.routes_to device n next_hop) h =
      rw (to_key-from_key device h, parse_prefix-show_net, hops)
  fact_from_wire-fact_to_wire (Fact.attached_to device n) h =
      rw (to_key-from_key device h, parse_prefix-show_net)
  fact_from_wire-fact_to_wire (Fact.observed_behind device via) h =
      rw (to_key-from_key device h.0, to_key-from_key via h.1)
  fact_from_wire-fact_to_wire (Fact.forwards_toward device toward distance previous) h =
      rw (to_key-from_key device h.0, parse_address-show_addr, keys previous h.1)
  fact_from_wire-fact_to_wire (Fact.opaque_boundary device why) h = rw (to_key-from_key device h)
  fact_from_wire-fact_to_wire (Fact.service a port protocol detail) h =
      rw (parse_address-show_addr, protocol_from_wire-IsKnownProtocol debug protocol h)
  fact_from_wire-fact_to_wire (Fact.resolved_as name a) h = rw parse_address-show_addr
  fact_from_wire-fact_to_wire _ h = refl

  time_of_fits : (secs : ℕ) → secs ≤ latest → time_of f secs ≡ ok (SystemTime.after_epoch secs 0)
  unfolding time_of
  time_of_fits secs h = ground arith

  -- Where prefixes and addresses parse as they print, expressible evidence whose time the receiver's clock type can hold is read back from its wire
  -- form as it was, in whole seconds and without an origin.
  pub to_evidence-from_evidence :
      (evidence : Evidence f)
      → IsExpressible evidence.fact
      → unix_seconds evidence.observed_at ≤ latest
      → to_evidence f (from_evidence f evidence) ≡ ok (received evidence)
  unfolding to_evidence from_evidence
  to_evidence-from_evidence evidence expressible fits = rw (
    fact_from_wire-fact_to_wire evidence.fact expressible,
    source_from_wire-source_wire,
    confidence_from_wire-confidence_wire,
    time_of_fits (unix_seconds evidence.observed_at) fits,
  )
