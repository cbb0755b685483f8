-- ===== src/Federation/Wire/Names/Reading.antt =====
-- The `_from_wire` functions of src/federation/wire.rs. `debug` is the `{:?}` form of a text.
use idnx.Common.{
  Text, bytes, text_eq, ◌≡◌, refl, Option, none, some, List, [], ◌∷◌, ◌++◌, if◌then◌else◌,
}
use idnx.Topology.Names.{Confidence, EvidenceSource, Capability, RoleSignal}
use idnx.Federation.Wire.Errors.{WireError, malformed, unknown, Outcome, ok, err, ok_or, ◌>>=◌}
use idnx.Federation.Wire.Names.{
  name_match, confidence_wire, source_wire, capability_wire, role_signal_wire,
}

-- The variants in the order of the match arms.
abbrev pub confidences : List Confidence
confidences =
    Confidence.observed ∷ Confidence.advertised ∷ Confidence.inferred ∷ Confidence.user_supplied
    ∷ []

abbrev pub sources : List EvidenceSource
sources =
    EvidenceSource.interface_address ∷ EvidenceSource.kernel_route ∷ EvidenceSource.default_gateway
    ∷ EvidenceSource.resolver_config ∷ EvidenceSource.dhcp_lease ∷ EvidenceSource.arp_cache
    ∷ EvidenceSource.ndp_cache ∷ EvidenceSource.arp_probe ∷ EvidenceSource.ndp_probe
    ∷ EvidenceSource.icmp_probe ∷ EvidenceSource.tcp_probe ∷ EvidenceSource.mdns
    ∷ EvidenceSource.unicast_dns ∷ EvidenceSource.ssdp ∷ EvidenceSource.nbns ∷ EvidenceSource.llmnr
    ∷ EvidenceSource.mndp ∷ EvidenceSource.lldp ∷ EvidenceSource.cdp ∷ EvidenceSource.stp
    ∷ EvidenceSource.router_advertisement ∷ EvidenceSource.snmp ∷ EvidenceSource.rip
    ∷ EvidenceSource.vendor_discovery ∷ EvidenceSource.nat_pmp ∷ EvidenceSource.ai_protocol
    ∷ EvidenceSource.mcp ∷ EvidenceSource.user_supplied ∷ []

abbrev pub capabilities : List Capability
capabilities =
    Capability.default_gateway ∷ Capability.ipv4_forwarding ∷ Capability.ipv6_router
    ∷ Capability.nat_gateway ∷ Capability.dhcp_server ∷ Capability.dns_server ∷ Capability.bridge
    ∷ Capability.wireless_ap ∷ Capability.management_interface ∷ Capability.ai_runtime
    ∷ Capability.ai_agent ∷ Capability.mcp_server ∷ []

-- The arms of `role_signal_from_wire` that look at no label.
abbrev pub plain_signals : List RoleSignal
plain_signals =
    RoleSignal.default_gateway ∷ RoleSignal.dhcp_router ∷ RoleSignal.router_advertisement
    ∷ RoleSignal.internet_gateway_device ∷ RoleSignal.snmp_forwarding
    ∷ RoleSignal.rip_route_advertisement ∷ RoleSignal.observed_forwarding
    ∷ RoleSignal.kernel_next_hop ∷ RoleSignal.spanning_tree_bridge ∷ RoleSignal.management_surface
    ∷ []

abbrev pub known_labels : List Text
known_labels = bytes "Router" ∷ bytes "Bridge" ∷ bytes "Switch" ∷ bytes "WLAN AP" ∷ []

abbrev pub protocols : List Text
protocols = bytes "tcp" ∷ bytes "udp" ∷ []

abbrev pub signal_name : RoleSignal → Text
signal_name s = (role_signal_wire s).0

module _ (debug : Text → Text) where
  -- `WireError::Unknown(format!("{kind} {text:?}"))`
  abbrev pub unknown_name : Text → Text → WireError
  unknown_name kind text = unknown (kind ++ bytes " " ++ debug text)

  unfoldable pub protocol_from_wire : Text → Outcome Text
  unfolding name_match
  protocol_from_wire text =
      ok_or (name_match (λ p. p) protocols text) (unknown_name (bytes "protocol") text)

  unfoldable pub confidence_from_wire : Text → Outcome Confidence
  unfolding name_match confidence_wire
  confidence_from_wire text =
      ok_or (name_match confidence_wire confidences text) (unknown_name (bytes "confidence") text)

  unfoldable pub source_from_wire : Text → Outcome EvidenceSource
  unfolding name_match source_wire
  source_from_wire text =
      ok_or (name_match source_wire sources text) (unknown_name (bytes "EvidenceSource") text)

  unfoldable pub capability_from_wire : Text → Outcome Capability
  unfolding name_match capability_wire
  capability_from_wire text =
      ok_or (name_match capability_wire capabilities text) (unknown_name (bytes "Capability") text)

  unfoldable pub label_from_wire : Option Text → Outcome RoleSignal
  unfolding name_match
  label_from_wire (some label) = do
    known ←
        ok_or (name_match (λ l. l) known_labels label)
          (unknown_name (bytes "link-layer capability") label)
    ok (RoleSignal.link_layer_capability known)
  label_from_wire none = err (malformed (bytes "link-layer capability"))

  unfoldable pub role_signal_from_wire : Text → Option Text → Outcome RoleSignal
  unfolding name_match role_signal_wire label_from_wire
  role_signal_from_wire text label = elim (name_match signal_name plain_signals text) [
    | some signal ↦ ok signal
    | none ↦
        if text_eq text (bytes "link_layer_capability")
        then label_from_wire label
        else err (unknown_name (bytes "role signal") text)
  ]

  pub confidence_from_wire-confidence_wire :
      (c : Confidence) → confidence_from_wire (confidence_wire c) ≡ ok c
  unfolding confidence_from_wire text_eq
  confidence_from_wire-confidence_wire Confidence.observed = refl
  confidence_from_wire-confidence_wire _ = refl

  pub source_from_wire-source_wire : (s : EvidenceSource) → source_from_wire (source_wire s) ≡ ok s
  unfolding source_from_wire text_eq
  source_from_wire-source_wire EvidenceSource.mdns = refl
  source_from_wire-source_wire _ = refl

  pub capability_from_wire-capability_wire :
      (c : Capability) → capability_from_wire (capability_wire c) ≡ ok c
  unfolding capability_from_wire text_eq
  capability_from_wire-capability_wire Capability.bridge = refl
  capability_from_wire-capability_wire _ = refl
