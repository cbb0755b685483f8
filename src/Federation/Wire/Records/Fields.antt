-- ===== src/Federation/Wire/Records/Fields.antt =====
-- The peer-controlled strings of a wire record, each with its field: the `text_fields` methods of
-- src/federation/wire.rs.
use idnx.Common.{Text, bytes, Option, none, some, List, [], ◌∷◌, ◌++◌}
use idnx.Federation.Wire.Records.{WireDevice, WireFact, WireEvidence}

-- A string with the name of its field.
abbrev pub TextField : Type 0
TextField = Text × Text

-- `if let Some(text) = text { out.push((name, text)) }`
abbrev pub optional_field : Text → Option Text → List TextField
optional_field name none = []
optional_field name (some text) = (name, text) ∷ []

-- `WireDevice::text_fields`
unfoldable pub device_fields : WireDevice → List TextField
device_fields (WireDevice.mac mac) = (bytes "mac", mac) ∷ []
device_fields (WireDevice.address address) = (bytes "device address", address) ∷ []
device_fields (WireDevice.scoped_address address zone) =
    (bytes "device address", address) ∷ (bytes "device zone", zone) ∷ []

unfoldable pub previous_fields : Option WireDevice → List TextField
unfolding device_fields
previous_fields none = []
previous_fields (some previous) = device_fields previous

-- `WireFact::text_fields`
unfoldable pub fact_fields : WireFact → List TextField
unfolding device_fields previous_fields
fact_fields (WireFact.network prefix) = (bytes "prefix", prefix) ∷ []
fact_fields (WireFact.vlan id) = []
fact_fields (WireFact.vlan_network id network) = (bytes "network", network) ∷ []
fact_fields (WireFact.interface_network interface prefix) =
    (bytes "interface", interface) ∷ (bytes "prefix", prefix) ∷ []
fact_fields (WireFact.device_address device address) =
    device_fields device ++ (bytes "address", address) ∷ []
fact_fields (WireFact.device_hostname device hostname) =
    device_fields device ++ (bytes "hostname", hostname) ∷ []
fact_fields (WireFact.device_vendor device vendor) =
    device_fields device ++ (bytes "vendor", vendor) ∷ []
fact_fields (WireFact.device_description device text) =
    device_fields device ++ (bytes "description", text) ∷ []
fact_fields (WireFact.device_role_signal device signal label) =
    device_fields device
    ++ ((bytes "role signal", signal) ∷ optional_field (bytes "role signal label") label)
fact_fields (WireFact.device_capability device capability detail) =
    device_fields device
    ++ ((bytes "capability", capability) ∷ optional_field (bytes "capability detail") detail)
fact_fields (WireFact.gateway_for device network) =
    device_fields device ++ (bytes "network", network) ∷ []
fact_fields (WireFact.routes_to device network next_hop) =
    device_fields device
    ++ ((bytes "network", network) ∷ optional_field (bytes "next hop") next_hop)
fact_fields (WireFact.attached_to device network) =
    device_fields device ++ (bytes "network", network) ∷ []
fact_fields (WireFact.bridge_link bridge_id root_id port) =
    (bytes "bridge id", bridge_id)
    ∷ (bytes "root id", root_id)
    ∷ optional_field (bytes "bridge port") port
fact_fields (WireFact.observed_behind device via) = device_fields device ++ device_fields via
fact_fields (WireFact.forwards_toward device toward distance previous) =
    device_fields device ++ ((bytes "probe destination", toward) ∷ previous_fields previous)
fact_fields (WireFact.opaque_boundary device why) =
    device_fields device ++ (bytes "boundary reason", why) ∷ []
fact_fields (WireFact.service address port protocol detail) =
    (bytes "address", address)
    ∷ (bytes "protocol", protocol)
    ∷ optional_field (bytes "service detail") detail
fact_fields (WireFact.resolved_as name address) =
    (bytes "resolved name", name) ∷ (bytes "address", address) ∷ []

-- `WireEvidence::text_fields`
unfoldable pub text_fields : WireEvidence → List TextField
unfolding fact_fields
text_fields w =
    fact_fields w.fact
    ++ ((bytes "source", w.source)
        ∷ (bytes "confidence", w.confidence)
        ∷ (bytes "vantage", w.vantage)
        ∷ optional_field (bytes "detail") w.detail)
