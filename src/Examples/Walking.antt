-- ===== src/Examples/Walking.antt =====
-- The theorems on SNMP requests, walks and routing tables at small inputs.
use idnx.Common.{
  ◌==◌, ℕ, ◌≡◌, ◌↔◌, refl, Text, bytes, true, false, List, [], ◌∷◌, length, map, All, Distinct,
  text_eq, some, none, arith, ◌≤◌, if◌then◌else◌,
}
use idnx.Probes.Snmp.{
  as_ipv4, Oid, BerValue, SnmpMessage, starts_with, oid_leb, is_end_of_mib_view, is_absent,
  pdu_get_request, pdu_get_next_request, pdu_get_response,
}
use idnx.Probes.Snmp.Encode.{
  build_snmp_request, encode_length, encode_tlv, integer_loop, encode_integer, component_loop,
  encode_component, encode_components, encode_oid,
}
use idnx.Probes.Snmp.Oids.{IsOid}
use idnx.Probes.Snmp.Varbinds.{encode_pdu_body, decode_pdu_body-encode_pdu_body}
use idnx.Probes.Snmp.Inside.{IsInside, tlv-IsInside}
use idnx.Probes.Snmp.Reader.{
  Reader, new, ok, length_of, read_length, tlv, expect, decode_integer_value, read_integer,
}
use idnx.Probes.Snmp.Decode.{
  components_from, decode_oid_value, decode_value, read_varbind, read_varbinds, decode_pdu_body,
  decode_snmp_response,
}
use idnx.Probes.Snmp.RoundTrip.{asked, decode_snmp_response-build_snmp_request}
use idnx.Probes.Snmp.Walk.{
  turn, first_row, walk_from, is_from, check_varbinds, check_message, check_decoded, receive,
  received, SnmpTarget, Step, Network, Arrival, listening, datagram, v4, accepted, complete,
  snmp_request, snmp_walk_target,
}
use idnx.Common.Dict
use idnx.Federation.Identity.{encode_hex, hex_digit}
use idnx.Probes.Snmp.Arp.{
  as_mac, set_cell, add_cell, cells_of, is_loopback, is_broadcast, is_device, entries_of, arp_cache,
  harvest_arp_cache, oid_ip_net_to_media_table,
}
use idnx.Probes.Snmp.Arp.Rows.{IsFromRows, harvest_arp_cache-IsFromRows}
use idnx.Probes.Snmp.Walk.Accepts.{Brings, snmp_request_iff}
use idnx.Probes.Snmp.Walk.Ascends.{
  Has, IsAscending, IsUnder, AreAnswered, keys, snmp_walk_target-AreAnswered,
}
use idnx.Probes.Snmp.Walk.Complete.{snmp_walk_target-wanted}
use idnx.Probes.Snmp.Walk.Order.{shorter, first, later}
use idnx.Probes.InetRoute.{
  from_subid, address_len, max_prefix_len, next_many, octets_of, address_of, read_octets,
  read_address, read_policy, if_admitted, active, InetRoute, InetRouteIndex, parse_index,
  InetAddressType, IpAddr,
}
use idnx.Probes.InetRoute.Layout.{encode_index, IsIndex}
use idnx.Probes.InetRoute.Exact.{parse_index_iff}
use idnx.Probes.InetRoute.Harvest.{
  type_column, status_column, set_number, set_other, set_column, update, add_row, assemble,
  routes_of, harvest_inet_routes, oid_inet_cidr_route_table,
}
use idnx.Probes.InetRoute.Stated.{IsStated, harvest_inet_routes-IsStated}

-- Text that is read back as it is.
abbrev same_text : List ℕ → Text
same_text bs = bs

-- `sysUpTime.0` of RFC 3418.
abbrev up_time : Oid
up_time = 1 ∷ 3 ∷ 6 ∷ 1 ∷ 2 ∷ 1 ∷ 1 ∷ 3 ∷ 0 ∷ []

up_time_is : IsOid up_time
up_time_is = (
  omega arith,
  omega arith,
  (
    omega arith,
    (omega arith, (omega arith, (omega arith, (omega arith, (omega arith, (omega arith, tt)))))),
  ),
)

request_size : length (build_snmp_request 1 (bytes "public") 70_000 pdu_get_request up_time) ≡ 42
unfolding build_snmp_request encode_length encode_tlv integer_loop encode_integer component_loop
    encode_component encode_components encode_oid
request_size = refl

decode_snmp_response-build_snmp_request_example :
    decode_snmp_response same_text
      (build_snmp_request 1 (bytes "public") 70_000 pdu_get_request up_time)
    ≡ ok (record {
      version = 1;
      community = bytes "public";
      pdu = asked pdu_get_request 70_000 up_time;
    })
decode_snmp_response-build_snmp_request_example =
    decode_snmp_response-build_snmp_request same_text 1 70_000 pdu_get_request (bytes "public")
      up_time refl up_time_is (omega arith) (omega arith) (omega (arith, request_size))

abbrev target : SnmpTarget
target = record { transport = record { address = 0x0a000001; port = 161 }; community = bytes "c" }

abbrev root : Oid
root = 1 ∷ 3 ∷ []

abbrev under : Oid
under = 1 ∷ 3 ∷ 5 ∷ []

abbrev outside : Oid
outside = 1 ∷ 4 ∷ []

-- The answers with the row under the root, the row outside and the end of the view.
abbrev answer_under : List ℕ
answer_under =
    48 ∷ 28 ∷ 2 ∷ 1 ∷ 1 ∷ 4 ∷ 1 ∷ 99 ∷ 162 ∷ 20 ∷ 2 ∷ 1 ∷ 7 ∷ 2 ∷ 1 ∷ 0 ∷ 2 ∷ 1 ∷ 0 ∷ 48 ∷ 9 ∷ 48
    ∷ 7 ∷ 6 ∷ 2 ∷ 43 ∷ 5 ∷ 2 ∷ 1 ∷ 7 ∷ []

abbrev answer_outside : List ℕ
answer_outside =
    48 ∷ 27 ∷ 2 ∷ 1 ∷ 1 ∷ 4 ∷ 1 ∷ 99 ∷ 162 ∷ 19 ∷ 2 ∷ 1 ∷ 7 ∷ 2 ∷ 1 ∷ 0 ∷ 2 ∷ 1 ∷ 0 ∷ 48 ∷ 8 ∷ 48
    ∷ 6 ∷ 6 ∷ 1 ∷ 44 ∷ 2 ∷ 1 ∷ 9 ∷ []

abbrev answer_end : List ℕ
answer_end =
    48 ∷ 26 ∷ 2 ∷ 1 ∷ 1 ∷ 4 ∷ 1 ∷ 99 ∷ 162 ∷ 18 ∷ 2 ∷ 1 ∷ 7 ∷ 2 ∷ 1 ∷ 0 ∷ 2 ∷ 1 ∷ 0 ∷ 48 ∷ 7 ∷ 48
    ∷ 5 ∷ 6 ∷ 1 ∷ 44 ∷ 130 ∷ 0 ∷ []

-- An agent with two rows, whose answer comes behind a datagram from elsewhere.
abbrev agent : List ℕ → Network
agent request = listening (
    datagram (v4 0x0a000002 161) answer_end
    ∷ datagram (v4 0x0a000001 161) (
        if text_eq request (build_snmp_request 1 (bytes "c") 7 pdu_get_next_request root)
        then answer_under
        else if text_eq request (build_snmp_request 1 (bytes "c") 7 pdu_get_next_request under)
        then answer_outside
        else answer_end)
    ∷ [])

abbrev steps : ℕ → Step
steps n = record { is_expired = false; request_id = 7; network = agent }

abbrev table : List (Oid × BerValue)
table = (under, BerValue.integer 7) ∷ (outside, BerValue.integer 9) ∷ []

abbrev message : Oid × BerValue → SnmpMessage
message v = record {
  version = 1;
  community = bytes "c";
  pdu = record {
    pdu_type = pdu_get_response;
    request_id = 7;
    error_status = 0;
    error_index = 0;
    varbinds = v ∷ [];
  };
}

asked_root :
    snmp_request same_text target pdu_get_next_request root 7 agent
    ≡ accepted (message (under, BerValue.integer 7))
unfolding build_snmp_request encode_length encode_tlv integer_loop encode_integer component_loop
    encode_component encode_components encode_oid text_eq is_from check_varbinds check_message
    check_decoded receive received snmp_request components_from decode_oid_value decode_value
    read_varbind read_varbinds decode_pdu_body decode_snmp_response length_of read_length tlv expect
    decode_integer_value read_integer
asked_root = refl

asked_under :
    snmp_request same_text target pdu_get_next_request under 7 agent
    ≡ accepted (message (outside, BerValue.integer 9))
unfolding build_snmp_request encode_length encode_tlv integer_loop encode_integer component_loop
    encode_component encode_components encode_oid text_eq is_from check_varbinds check_message
    check_decoded receive received snmp_request components_from decode_oid_value decode_value
    read_varbind read_varbinds decode_pdu_body decode_snmp_response length_of read_length tlv expect
    decode_integer_value read_integer
asked_under = refl

asked_outside :
    snmp_request same_text target pdu_get_next_request outside 7 agent
    ≡ accepted (message (outside, BerValue.unknown 130 []))
unfolding build_snmp_request encode_length encode_tlv integer_loop encode_integer component_loop
    encode_component encode_components encode_oid text_eq is_from check_varbinds check_message
    check_decoded receive received snmp_request components_from decode_oid_value decode_value
    read_varbind read_varbinds decode_pdu_body decode_snmp_response length_of read_length tlv expect
    decode_integer_value read_integer
asked_outside = refl

snmp_request_iff_example :
    (snmp_request same_text target pdu_get_next_request root 7 agent
      ≡ accepted (message (under, BerValue.integer 7)))
    ↔ ((arrivals : List Arrival) × (agent
            (build_snmp_request 1 (bytes "c") 7 pdu_get_next_request root)
          ≡ listening arrivals)
        × Brings same_text target pdu_get_next_request root 7 arrivals
            (message (under, BerValue.integer 7)))
snmp_request_iff_example =
    snmp_request_iff same_text target pdu_get_next_request root 7 agent
      (message (under, BerValue.integer 7))

snmp_walk_target-AreAnswered_example :
    (let w = snmp_walk_target same_text target root steps 9 in
      IsAscending root w.rows
      × Distinct (keys w.rows)
      × All (IsUnder root) w.rows
      × (length w.rows ≤ 9)
      × AreAnswered same_text target steps 0 root w.rows)
snmp_walk_target-AreAnswered_example = snmp_walk_target-AreAnswered same_text target steps root 9

snmp_walk_target-wanted_example :
    (let w = snmp_walk_target same_text target root steps 2 in
      (w.rows ≡ (under, BerValue.integer 7) ∷ []) × (complete w ≡ true))
unfolding starts_with oid_leb is_end_of_mib_view is_absent
snmp_walk_target-wanted_example =
    snmp_walk_target-wanted same_text target steps root [] table 2 (λ k. refl)
      (shorter, (later (first (omega arith)), tt)) ((refl, refl), ((refl, refl), tt))
      (
        λ n. (message (under, BerValue.integer 7), asked_root, refl, refl),
        (
          λ n. (message (outside, BerValue.integer 9), asked_under, refl, refl),
          (λ n. (message (outside, BerValue.unknown 130 []), asked_outside, refl, refl), tt),
        ),
      )
      (omega arith)

-- 198.51.100.0/24 by 192.0.2.254.
abbrev index : InetRouteIndex
index = record {
  destination = record {
    family = InetAddressType.ipv4;
    address = some (IpAddr.v4 (198 ∷ 51 ∷ 100 ∷ 0 ∷ []));
    zone = none;
  };
  prefix_len = 24;
  policy = 0 ∷ [];
  next_hop = record {
    family = InetAddressType.ipv4;
    address = some (IpAddr.v4 (192 ∷ 0 ∷ 2 ∷ 254 ∷ []));
    zone = none;
  };
}

parse_index_iff_example :
    (parse_index (1 ∷ 4 ∷ 198 ∷ 51 ∷ 100 ∷ 0 ∷ 24 ∷ 1 ∷ 0 ∷ 1 ∷ 4 ∷ 192 ∷ 0 ∷ 2 ∷ 254 ∷ [])
      ≡ some index)
    ↔ ((1 ∷ 4 ∷ 198 ∷ 51 ∷ 100 ∷ 0 ∷ 24 ∷ 1 ∷ 0 ∷ 1 ∷ 4 ∷ 192 ∷ 0 ∷ 2 ∷ 254 ∷ []
          ≡ encode_index index)
        × IsIndex index)
parse_index_iff_example =
    parse_index_iff (1 ∷ 4 ∷ 198 ∷ 51 ∷ 100 ∷ 0 ∷ 24 ∷ 1 ∷ 0 ∷ 1 ∷ 4 ∷ 192 ∷ 0 ∷ 2 ∷ 254 ∷ []) index

-- The answer with the status of that route, active.
abbrev answer_route : List ℕ
answer_route =
    48 ∷ 54 ∷ 2 ∷ 1 ∷ 1 ∷ 4 ∷ 1 ∷ 99 ∷ 162 ∷ 46 ∷ 2 ∷ 1 ∷ 7 ∷ 2 ∷ 1 ∷ 0 ∷ 2 ∷ 1 ∷ 0 ∷ 48 ∷ 35 ∷ 48
    ∷ 33 ∷ 6 ∷ 28 ∷ 43 ∷ 6 ∷ 1 ∷ 2 ∷ 1 ∷ 4 ∷ 24 ∷ 7 ∷ 1 ∷ 17 ∷ 1 ∷ 4 ∷ 129 ∷ 70 ∷ 51 ∷ 100 ∷ 0 ∷ 24
    ∷ 1 ∷ 0 ∷ 1 ∷ 4 ∷ 129 ∷ 64 ∷ 0 ∷ 2 ∷ 129 ∷ 126 ∷ 2 ∷ 1 ∷ 1 ∷ []

-- A router with one route.
abbrev router_steps : ℕ → Step
router_steps n = record {
  is_expired = false;
  request_id = 7;
  network = λ request.
      listening (datagram (v4 0x0a000001 161) (if n == 0 then answer_route else answer_end) ∷ []);
}

harvest_inet_routes-IsStated_example :
    (let rows =
        (snmp_walk_target same_text target oid_inet_cidr_route_table router_steps 512).rows in
      let routes = (harvest_inet_routes same_text target router_steps).0 in
      All (IsStated oid_inet_cidr_route_table rows) routes
      × Distinct (map (λ (r : InetRoute). encode_index r.index) routes))
harvest_inet_routes-IsStated_example = harvest_inet_routes-IsStated same_text target router_steps

harvested : map active (harvest_inet_routes same_text target router_steps).0 ≡ true ∷ []
unfolding build_snmp_request encode_length encode_tlv integer_loop encode_integer component_loop
    encode_component encode_components encode_oid text_eq is_from check_varbinds check_message
    check_decoded receive received snmp_request components_from decode_oid_value decode_value
    read_varbind read_varbinds decode_pdu_body decode_snmp_response length_of read_length tlv expect
    decode_integer_value read_integer starts_with oid_leb is_end_of_mib_view is_absent turn
    first_row walk_from snmp_walk_target from_subid address_len max_prefix_len next_many octets_of
    address_of read_octets read_address read_policy if_admitted parse_index type_column
    status_column set_number set_other set_column update add_row assemble routes_of
    harvest_inet_routes active
harvested = refl

-- An integer with more behind it.
abbrev field : Reader
field = new (2 ∷ 1 ∷ 7 ∷ 5 ∷ 0 ∷ [])

reads_field :
    tlv field (bytes "a value") ≡ ok ((2, new (7 ∷ [])), record { bytes = field.bytes; cursor = 3 })
unfolding tlv read_length
reads_field = refl

tlv-IsInside_example : IsInside field (new (7 ∷ [])) (record { bytes = field.bytes; cursor = 3 })
tlv-IsInside_example =
    tlv-IsInside field (bytes "a value") 2 (new (7 ∷ []))
      (record { bytes = field.bytes; cursor = 3 }) reads_field

-- A counter, and a name that is not there.
abbrev rows : List (Oid × BerValue)
rows = (up_time, BerValue.time_ticks 70_000) ∷ (up_time, BerValue.unknown 128 []) ∷ []

rows_size : length (encode_pdu_body 7 0 0 rows) ≡ 42
unfolding encode_length encode_tlv integer_loop encode_integer component_loop encode_component
    encode_components encode_oid
rows_size = refl

decode_pdu_body-encode_pdu_body_example :
    decode_pdu_body pdu_get_response (new (encode_pdu_body 7 0 0 rows))
    ≡ ok (record {
      pdu_type = pdu_get_response;
      request_id = 7;
      error_status = 0;
      error_index = 0;
      varbinds = rows;
    })
decode_pdu_body-encode_pdu_body_example =
    decode_pdu_body-encode_pdu_body pdu_get_response 7 0 0 rows (omega arith) (omega arith)
      (omega arith) ((up_time_is, omega arith), ((up_time_is, refl), tt)) (omega (arith, rows_size))

-- The rows of interface 3 with the MAC and the address of 192.0.2.1.
abbrev answer_mac : List ℕ
answer_mac =
    48 ∷ 46 ∷ 2 ∷ 1 ∷ 1 ∷ 4 ∷ 1 ∷ 99 ∷ 162 ∷ 38 ∷ 2 ∷ 1 ∷ 7 ∷ 2 ∷ 1 ∷ 0 ∷ 2 ∷ 1 ∷ 0 ∷ 48 ∷ 27 ∷ 48
    ∷ 25 ∷ 6 ∷ 15 ∷ 43 ∷ 6 ∷ 1 ∷ 2 ∷ 1 ∷ 4 ∷ 22 ∷ 1 ∷ 2 ∷ 3 ∷ 129 ∷ 64 ∷ 0 ∷ 2 ∷ 1 ∷ 4 ∷ 6 ∷ 0 ∷ 31
    ∷ 1 ∷ 2 ∷ 3 ∷ 4 ∷ []

abbrev answer_address : List ℕ
answer_address =
    48 ∷ 44 ∷ 2 ∷ 1 ∷ 1 ∷ 4 ∷ 1 ∷ 99 ∷ 162 ∷ 36 ∷ 2 ∷ 1 ∷ 7 ∷ 2 ∷ 1 ∷ 0 ∷ 2 ∷ 1 ∷ 0 ∷ 48 ∷ 25 ∷ 48
    ∷ 23 ∷ 6 ∷ 15 ∷ 43 ∷ 6 ∷ 1 ∷ 2 ∷ 1 ∷ 4 ∷ 22 ∷ 1 ∷ 3 ∷ 3 ∷ 129 ∷ 64 ∷ 0 ∷ 2 ∷ 1 ∷ 64 ∷ 4 ∷ 192
    ∷ 0 ∷ 2 ∷ 1 ∷ []

abbrev cache_steps : ℕ → Step
cache_steps n = record {
  is_expired = false;
  request_id = 7;
  network = λ request. listening (
      datagram (v4 0x0a000001 161)
        (if n == 0 then answer_mac else if n == 1 then answer_address else answer_end)
      ∷ []);
}

cached :
    (harvest_arp_cache same_text target cache_steps).0
    ≡ record { ip = (192, 0, 2, 1); mac = bytes "00:1f:01:02:03:04"; if_index = 3 } ∷ []
unfolding build_snmp_request encode_length encode_tlv integer_loop encode_integer component_loop
    encode_component encode_components encode_oid text_eq is_from check_varbinds check_message
    check_decoded receive received snmp_request components_from decode_oid_value decode_value
    read_varbind read_varbinds decode_pdu_body decode_snmp_response length_of read_length tlv expect
    decode_integer_value read_integer starts_with oid_leb is_end_of_mib_view is_absent turn
    first_row walk_from snmp_walk_target as_ipv4 as_mac set_cell add_cell cells_of is_loopback
    is_broadcast is_device entries_of arp_cache harvest_arp_cache Dict.get Dict.put encode_hex
    hex_digit
cached = refl

harvest_arp_cache-IsFromRows_example :
    (let rows =
        (snmp_walk_target same_text target oid_ip_net_to_media_table cache_steps 512).rows in
      All (IsFromRows (Has rows)) (harvest_arp_cache same_text target cache_steps).0)
harvest_arp_cache-IsFromRows_example = harvest_arp_cache-IsFromRows same_text target cache_steps
