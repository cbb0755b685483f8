-- ===== src/Topology/Role.antt =====
-- src/topology/role.rs: the role that a device's observed behaviour gives it.
pub mod Scoring
use idnx.Common.{
  ℕ, ◌+◌, Bool, true, false, ◌&&◌, ◌||◌, List, [], ◌∷◌, ltb, any, bytes, contains, if◌then◌else◌,
}
use idnx.Topology.Names.{RoleSignal, weight}

pub data DeviceRole : Type 0 where
  router switch layer3_switch host : DeviceRole

-- `INFRASTRUCTURE_THRESHOLD`
abbrev pub infrastructure_threshold : ℕ
infrastructure_threshold = 70

-- What makes `routes` true.
unfoldable pub is_routing : RoleSignal → Bool
is_routing RoleSignal.default_gateway = true
is_routing RoleSignal.dhcp_router = true
is_routing RoleSignal.router_advertisement = true
is_routing RoleSignal.internet_gateway_device = true
is_routing RoleSignal.snmp_forwarding = true
is_routing RoleSignal.observed_forwarding = true
is_routing RoleSignal.kernel_next_hop = true
is_routing (RoleSignal.link_layer_capability c) = contains c (bytes "Router")
is_routing _ = false

-- What makes `bridges` true.
unfoldable pub is_bridging : RoleSignal → Bool
is_bridging RoleSignal.spanning_tree_bridge = true
is_bridging (RoleSignal.link_layer_capability c) = contains c (bytes "Bridge")
is_bridging _ = false

abbrev pub total_weight : List RoleSignal → ℕ
total_weight [] = 0
total_weight (s ∷ signals) = weight s + total_weight signals

abbrev pub role_for : Bool → Bool → DeviceRole
role_for true true = DeviceRole.layer3_switch
role_for true false = DeviceRole.router
role_for false true = DeviceRole.switch
role_for false false = DeviceRole.host

-- `score_role` of the set's elements. The early return for an empty set is the first clause.
unfoldable pub score_role : List RoleSignal → DeviceRole
score_role [] = DeviceRole.host
score_role (s ∷ signals) =
    if ltb (total_weight (s ∷ signals)) infrastructure_threshold
    then DeviceRole.host
    else role_for (any is_routing (s ∷ signals)) (any is_bridging (s ∷ signals))
