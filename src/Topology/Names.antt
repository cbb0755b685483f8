-- ===== src/Topology/Names.antt =====
-- The enumerations of src/topology/evidence.rs.
use idnx.Common.{ℕ, Text}

-- In the order of the derived `Ord`, weakest first.
pub data Confidence : Type 0 where
  inferred advertised user_supplied observed : Confidence

pub data EvidenceSource : Type 0 where
  interface_address kernel_route default_gateway resolver_config dhcp_lease arp_cache ndp_cache
        arp_probe ndp_probe icmp_probe tcp_probe mdns unicast_dns ssdp nbns llmnr mndp lldp cdp stp
        router_advertisement snmp rip vendor_discovery nat_pmp ai_protocol mcp user_supplied :
      EvidenceSource

pub data Capability : Type 0 where
  default_gateway ipv4_forwarding ipv6_router nat_gateway dhcp_server dns_server bridge wireless_ap
        management_interface ai_runtime ai_agent mcp_server :
      Capability

pub data RoleSignal : Type 0 where
  default_gateway dhcp_router router_advertisement : RoleSignal
  link_layer_capability : Text → RoleSignal
  internet_gateway_device snmp_forwarding observed_forwarding kernel_next_hop
        rip_route_advertisement spanning_tree_bridge management_surface :
      RoleSignal

-- How strongly a signal says that its device is infrastructure.
unfoldable pub weight : RoleSignal → ℕ
weight RoleSignal.default_gateway = 100
weight RoleSignal.snmp_forwarding = 90
weight RoleSignal.rip_route_advertisement = 90
weight RoleSignal.spanning_tree_bridge = 90
weight RoleSignal.internet_gateway_device = 80
weight RoleSignal.dhcp_router = 80
weight RoleSignal.router_advertisement = 70
weight (RoleSignal.link_layer_capability _) = 70
weight RoleSignal.kernel_next_hop = 70
weight RoleSignal.observed_forwarding = 60
weight RoleSignal.management_surface = 30
