-- ===== src/Federation/Wire/Convert/Accepts.antt =====
-- The records that `to_evidence` of src/federation/wire.rs accepts.
use idnx.Common.{Text, Option, none, some, arith, to_ascii_lowercase_idem}
use idnx.Topology.Evidence.{DeviceKey, key_of_mac}
use idnx.Federation.Wire.Errors.{
  Outcome, traverse, ◌>>=◌, Ensures, Ensures-bind, Ensures-skip, Ensures-of_ok, IsSafe,
  ok_or-IsSafe,
}
use idnx.Federation.Wire.Names.Reading.{
  role_signal_from_wire, protocol_from_wire, capability_from_wire, label_from_wire,
}
use idnx.Federation.Wire.Names.Sound.{
  IsKnownProtocol, HasKnownLabel, IsKnownProtocol-protocol_from_wire,
  role_signal_from_wire-HasKnownLabel,
}
use idnx.Federation.Wire.Records.{WireDevice, WireFact}
use idnx.Federation.Wire.Convert.{Formats, parse_prefix, parse_address, to_key, fact_from_wire}
use idnx.Federation.Wire.Convert.RoundTrip.{IsCanonical, IsCanonicalOption, IsExpressible}

module _ (f : Formats) where
  open f use {IpNet, IpAddr, debug, latest}

  prefix-IsSafe : (text : Text) → IsSafe (parse_prefix f text)
  unfolding parse_prefix
  prefix-IsSafe text = ok_or-IsSafe _ _

  address-IsSafe : (text : Text) → IsSafe (parse_address f text)
  unfolding parse_address
  address-IsSafe text = ok_or-IsSafe _ _

  capability-IsSafe : (name : Text) → IsSafe (capability_from_wire debug name)
  unfolding capability_from_wire
  capability-IsSafe name = ok_or-IsSafe _ _

  protocol-IsSafe : (name : Text) → IsSafe (protocol_from_wire debug name)
  unfolding protocol_from_wire
  protocol-IsSafe name = ok_or-IsSafe _ _

  hop-IsSafe : (next_hop : Option Text) → IsSafe (traverse (parse_address f) next_hop)
  unfolding traverse
  hop-IsSafe none = tt
  hop-IsSafe (some a) = Ensures-skip _ (parse_address f a) _ (address-IsSafe a) (λ _. tt)

  label-IsSafe : (label : Option Text) → IsSafe (label_from_wire debug label)
  unfolding label_from_wire
  label-IsSafe none = tt
  label-IsSafe (some label) = ground arith

  signal-IsSafe :
      (name : Text) (label : Option Text) → IsSafe (role_signal_from_wire debug name label)
  unfolding role_signal_from_wire
  signal-IsSafe name label = ground (arith, label-IsSafe label)

  -- A key that was read is in lower case.
  to_key-IsCanonical : (device : WireDevice) → Ensures IsCanonical (to_key f device)
  unfolding to_key key_of_mac
  to_key-IsCanonical (WireDevice.mac mac) = to_ascii_lowercase_idem mac
  to_key-IsCanonical (WireDevice.address a) =
      Ensures-skip IsCanonical (parse_address f a) _ (address-IsSafe a) (λ _. tt)
  to_key-IsCanonical (WireDevice.scoped_address a zone) =
      Ensures-skip IsCanonical (parse_address f a) _ (address-IsSafe a) (λ _. tt)

  previous-IsCanonical :
      (previous : Option WireDevice) → Ensures IsCanonicalOption (traverse (to_key f) previous)
  unfolding traverse
  previous-IsCanonical none = tt
  previous-IsCanonical (some device) =
      Ensures-bind IsCanonical IsCanonicalOption (to_key f device) _ (to_key-IsCanonical device)
        (λ key h. h)

  signal-HasKnownLabel :
      (name : Text) (label : Option Text)
      → Ensures HasKnownLabel (role_signal_from_wire debug name label)
  signal-HasKnownLabel name label =
      Ensures-of_ok _ _ (signal-IsSafe name label)
        (role_signal_from_wire-HasKnownLabel debug name label)

  protocol-IsKnownProtocol : (name : Text) → Ensures IsKnownProtocol (protocol_from_wire debug name)
  protocol-IsKnownProtocol name =
      Ensures-of_ok _ _ (protocol-IsSafe name) (IsKnownProtocol-protocol_from_wire debug name)

  -- A first step that reads a device.
  keyed :
      {B : Type 0} (Q : B → Type 0) (device : WireDevice) (k : DeviceKey IpAddr → Outcome B)
      → ((key : DeviceKey IpAddr) → IsCanonical key → Ensures Q (k key))
      → Ensures Q (to_key f device >>= k)
  keyed Q device k h = Ensures-bind IsCanonical Q (to_key f device) k (to_key-IsCanonical device) h

  pub fact_from_wire-IsExpressible : (w : WireFact) → Ensures IsExpressible (fact_from_wire f w)
  unfolding fact_from_wire
  fact_from_wire-IsExpressible (WireFact.network prefix) =
      Ensures-skip IsExpressible (parse_prefix f prefix) _ (prefix-IsSafe prefix) (λ _. tt)
  fact_from_wire-IsExpressible (WireFact.vlan_network vlan network) =
      Ensures-skip IsExpressible (parse_prefix f network) _ (prefix-IsSafe network) (λ _. tt)
  fact_from_wire-IsExpressible (WireFact.interface_network interface prefix) =
      Ensures-skip IsExpressible (parse_prefix f prefix) _ (prefix-IsSafe prefix) (λ _. tt)
  fact_from_wire-IsExpressible (WireFact.device_address device address) =
      keyed IsExpressible device _ (λ key h.
        Ensures-skip IsExpressible (parse_address f address) _ (address-IsSafe address) (λ _. h))
  fact_from_wire-IsExpressible (WireFact.device_hostname device hostname) =
      keyed IsExpressible device _ (λ key h. h)
  fact_from_wire-IsExpressible (WireFact.device_vendor device vendor) =
      keyed IsExpressible device _ (λ key h. h)
  fact_from_wire-IsExpressible (WireFact.device_description device text) =
      keyed IsExpressible device _ (λ key h. h)
  fact_from_wire-IsExpressible (WireFact.device_role_signal device signal label) =
      keyed IsExpressible device _ (λ key h.
        Ensures-bind HasKnownLabel IsExpressible (role_signal_from_wire debug signal label) _
          (signal-HasKnownLabel signal label) (λ s known. (h, known)))
  fact_from_wire-IsExpressible (WireFact.device_capability device capability detail) =
      keyed IsExpressible device _ (λ key h.
        Ensures-skip IsExpressible (capability_from_wire debug capability) _
          (capability-IsSafe capability) (λ _. h))
  fact_from_wire-IsExpressible (WireFact.gateway_for device network) =
      keyed IsExpressible device _ (λ key h.
        Ensures-skip IsExpressible (parse_prefix f network) _ (prefix-IsSafe network) (λ _. h))
  fact_from_wire-IsExpressible (WireFact.routes_to device network next_hop) =
      keyed IsExpressible device _ (λ key h.
        Ensures-skip IsExpressible (parse_prefix f network) _ (prefix-IsSafe network) (λ _.
          Ensures-skip IsExpressible (traverse (parse_address f) next_hop) _ (hop-IsSafe next_hop)
            (λ _. h)))
  fact_from_wire-IsExpressible (WireFact.attached_to device network) =
      keyed IsExpressible device _ (λ key h.
        Ensures-skip IsExpressible (parse_prefix f network) _ (prefix-IsSafe network) (λ _. h))
  fact_from_wire-IsExpressible (WireFact.observed_behind device via) =
      keyed IsExpressible device _ (λ key h. keyed IsExpressible via _ (λ v h'. (h, h')))
  fact_from_wire-IsExpressible (WireFact.forwards_toward device toward distance previous) =
      keyed IsExpressible device _ (λ key h.
        Ensures-skip IsExpressible (parse_address f toward) _ (address-IsSafe toward) (λ _.
          Ensures-bind IsCanonicalOption IsExpressible (traverse (to_key f) previous) _
            (previous-IsCanonical previous) (λ p h'. (h, h'))))
  fact_from_wire-IsExpressible (WireFact.opaque_boundary device why) =
      keyed IsExpressible device _ (λ key h. h)
  fact_from_wire-IsExpressible (WireFact.service address port protocol detail) =
      Ensures-skip IsExpressible (parse_address f address) _ (address-IsSafe address) (λ _.
        Ensures-bind IsKnownProtocol IsExpressible (protocol_from_wire debug protocol) _
          (protocol-IsKnownProtocol protocol) (λ p h. h))
  fact_from_wire-IsExpressible (WireFact.resolved_as name address) =
      Ensures-skip IsExpressible (parse_address f address) _ (address-IsSafe address) (λ _. tt)
  fact_from_wire-IsExpressible _ = tt
