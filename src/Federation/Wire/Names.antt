-- ===== src/Federation/Wire/Names.antt =====
-- The names that enumerations have on the wire, and the reading of names: src/federation/wire.rs,
-- from `protocol_from_wire` to `role_signal_from_wire`.
pub mod Reading
pub mod Sound
use Prim.Native.String.{String}
use idnx.Common.{
  Text, bytes, text_eq, eq_of_text_eq, ◌≡◌, refl, Option, none, some, List, [], ◌∷◌, ◌++◌, arith,
  if◌then◌else◌, ◌⊎◌, inl, inr, Bool-cases,
}
use idnx.Topology.Names.{Confidence, EvidenceSource, Capability, RoleSignal}
use idnx.Federation.Wire.Errors.{WireError, Outcome, ok, err, panicked, ok_or}

-- A `match` over name literals, first match first: `to` is the name of each variant.
module _ {A : Type 0} (to : A → Text) where
  unfoldable pub name_match : List A → Text → Option A
  name_match [] text = none
  name_match (v ∷ vs) text = if text_eq (to v) text then some v else name_match vs text

  pub eq_of_name_match :
      (vs : List A) (text : Text) (v : A) → name_match vs text ≡ some v → to v ≡ text
  unfolding name_match
  eq_of_name_match [] text v h = cc
  eq_of_name_match (w ∷ vs) text v h =
      ground (arith, eq_of_text_eq (to w) text, eq_of_name_match vs text v)

unfoldable pub confidence_wire : Confidence → Text
confidence_wire Confidence.observed = bytes "observed"
confidence_wire Confidence.advertised = bytes "advertised"
confidence_wire Confidence.inferred = bytes "inferred"
confidence_wire Confidence.user_supplied = bytes "user_supplied"

unfoldable pub source_wire : EvidenceSource → Text
source_wire EvidenceSource.interface_address = bytes "interface_address"
source_wire EvidenceSource.kernel_route = bytes "kernel_route"
source_wire EvidenceSource.default_gateway = bytes "default_gateway"
source_wire EvidenceSource.resolver_config = bytes "resolver_config"
source_wire EvidenceSource.dhcp_lease = bytes "dhcp_lease"
source_wire EvidenceSource.arp_cache = bytes "arp_cache"
source_wire EvidenceSource.ndp_cache = bytes "ndp_cache"
source_wire EvidenceSource.arp_probe = bytes "arp_probe"
source_wire EvidenceSource.ndp_probe = bytes "ndp_probe"
source_wire EvidenceSource.icmp_probe = bytes "icmp_probe"
source_wire EvidenceSource.tcp_probe = bytes "tcp_probe"
source_wire EvidenceSource.mdns = bytes "mdns"
source_wire EvidenceSource.unicast_dns = bytes "unicast_dns"
source_wire EvidenceSource.ssdp = bytes "ssdp"
source_wire EvidenceSource.nbns = bytes "nbns"
source_wire EvidenceSource.llmnr = bytes "llmnr"
source_wire EvidenceSource.mndp = bytes "mndp"
source_wire EvidenceSource.lldp = bytes "lldp"
source_wire EvidenceSource.cdp = bytes "cdp"
source_wire EvidenceSource.stp = bytes "stp"
source_wire EvidenceSource.router_advertisement = bytes "router_advertisement"
source_wire EvidenceSource.snmp = bytes "snmp"
source_wire EvidenceSource.rip = bytes "rip"
source_wire EvidenceSource.vendor_discovery = bytes "vendor_discovery"
source_wire EvidenceSource.nat_pmp = bytes "nat_pmp"
source_wire EvidenceSource.ai_protocol = bytes "ai_protocol"
source_wire EvidenceSource.mcp = bytes "mcp"
source_wire EvidenceSource.user_supplied = bytes "user_supplied"

unfoldable pub capability_wire : Capability → Text
capability_wire Capability.default_gateway = bytes "default_gateway"
capability_wire Capability.ipv4_forwarding = bytes "ipv4_forwarding"
capability_wire Capability.ipv6_router = bytes "ipv6_router"
capability_wire Capability.nat_gateway = bytes "nat_gateway"
capability_wire Capability.dhcp_server = bytes "dhcp_server"
capability_wire Capability.dns_server = bytes "dns_server"
capability_wire Capability.bridge = bytes "bridge"
capability_wire Capability.wireless_ap = bytes "wireless_ap"
capability_wire Capability.management_interface = bytes "management_interface"
capability_wire Capability.ai_runtime = bytes "ai_runtime"
capability_wire Capability.ai_agent = bytes "ai_agent"
capability_wire Capability.mcp_server = bytes "mcp_server"

unfoldable pub role_signal_wire : RoleSignal → Text × Option Text
role_signal_wire RoleSignal.default_gateway = (bytes "default_gateway", none)
role_signal_wire RoleSignal.dhcp_router = (bytes "dhcp_router", none)
role_signal_wire RoleSignal.router_advertisement = (bytes "router_advertisement", none)
role_signal_wire (RoleSignal.link_layer_capability label) =
    (bytes "link_layer_capability", some label)
role_signal_wire RoleSignal.internet_gateway_device = (bytes "internet_gateway_device", none)
role_signal_wire RoleSignal.snmp_forwarding = (bytes "snmp_forwarding", none)
role_signal_wire RoleSignal.rip_route_advertisement = (bytes "rip_route_advertisement", none)
role_signal_wire RoleSignal.observed_forwarding = (bytes "observed_forwarding", none)
role_signal_wire RoleSignal.kernel_next_hop = (bytes "kernel_next_hop", none)
role_signal_wire RoleSignal.spanning_tree_bridge = (bytes "spanning_tree_bridge", none)
role_signal_wire RoleSignal.management_surface = (bytes "management_surface", none)
