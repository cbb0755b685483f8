-- ===== src/Probes/InetRoute/Harvest.antt =====
-- `harvest_inet_routes` of src/probes/snmp.rs: the rows of a walk, put together by their index.
use idnx.Common.{
  ℕ, Text, ◌+◌, ◌==◌, ltb, none, some, List, [], ◌∷◌, length, drop, text_eq, if◌then◌else◌,
}
use idnx.Probes.Snmp.{Oid, BerValue, oid_leb}
use idnx.Probes.Snmp.Reader.{byte_at}
use idnx.Probes.Snmp.Walk.{SnmpTarget, Step, WalkEnd, snmp_walk_target}
use idnx.Probes.InetRoute.{
  InetRouteIndex, InetRoute, Column, missing, valid, invalid, not_an_integer, not_enumerated,
  RouteType, from_value, parse_index,
}

-- `OID_INET_CIDR_ROUTE_TABLE`
abbrev pub oid_inet_cidr_route_table : Oid
oid_inet_cidr_route_table = 1 ∷ 3 ∷ 6 ∷ 1 ∷ 2 ∷ 1 ∷ 4 ∷ 24 ∷ 7 ∷ 1 ∷ []

-- A row of which no column was read.
abbrev pub empty_route : InetRouteIndex → Oid → InetRoute
empty_route index oid = record {
  index = index;
  instance_oid = oid;
  if_index = none;
  route_type = missing;
  proto = none;
  metric = none;
  status = missing;
}

unfoldable pub type_column : ℕ → Column RouteType
type_column n = elim (from_value n) [ none ↦ invalid (not_enumerated n) | some kind ↦ valid kind ]

-- `RowStatus` enumerates 1 to 6.
unfoldable pub status_column : ℕ → Column ℕ
status_column n =
    if ltb n 1
    then invalid (not_enumerated n)
    else if ltb 6 n
    then invalid (not_enumerated n)
    else valid n

unfoldable pub set_number : ℕ → ℕ → InetRoute → InetRoute
set_number column n r =
    if column == 7
    then record r { if_index = some n }
    else if column == 9
    then record r { proto = some n }
    else if column == 12
    then record r { metric = some n }
    else if column == 8
    then record r { route_type = type_column n }
    else if column == 17
    then record r { status = status_column n }
    else r

unfoldable pub set_other : ℕ → InetRoute → InetRoute
set_other column r =
    if column == 8
    then record r { route_type = invalid not_an_integer }
    else if column == 17
    then record r { status = invalid not_an_integer }
    else r

unfoldable pub set_column : ℕ → BerValue → InetRoute → InetRoute
set_column column (BerValue.integer n) r = set_number column n r
set_column column (BerValue.octet_string bs) r = set_other column r
set_column column BerValue.null r = set_other column r
set_column column (BerValue.object_identifier oid) r = set_other column r
set_column column (BerValue.ip_address a b c d) r = set_other column r
set_column column (BerValue.counter32 n) r = set_other column r
set_column column (BerValue.gauge32 n) r = set_other column r
set_column column (BerValue.time_ticks n) r = set_other column r
set_column column (BerValue.unknown tag bs) r = set_other column r

-- `BTreeMap` by ascending keys: `entry(key).or_insert(fresh)`, and a change of the entry.
unfoldable pub update :
    Oid → InetRoute → (InetRoute → InetRoute) → List (Oid × InetRoute) → List (Oid × InetRoute)
update key fresh change [] = (key, change fresh) ∷ []
update key fresh change ((k, r) ∷ table) =
    let rest = update key fresh change table in
    if text_eq key k
    then (k, change r) ∷ table
    else if oid_leb key k
    then (key, change fresh) ∷ (k, r) ∷ table
    else (k, r) ∷ rest

-- One row of the walk: without a column, or with an index that does not parse, it is passed over.
unfoldable pub add_row : Oid → Oid × BerValue → List (Oid × InetRoute) → List (Oid × InetRoute)
add_row root (oid, value) table = elim (byte_at oid (length root)) [
  | none ↦ table
  | some column ↦ elim (parse_index (drop (length root + 1) oid)) [
    | none ↦ table
    | some index ↦
        update (drop (length root + 1) oid) (empty_route index oid) (set_column column value) table
  ]
]

unfoldable pub assemble :
    Oid → List (Oid × BerValue) → List (Oid × InetRoute) → List (Oid × InetRoute)
assemble root [] table = table
assemble root (row ∷ rows) table = assemble root rows (add_row root row table)

unfoldable pub routes_of : List (Oid × InetRoute) → List InetRoute
routes_of [] = []
routes_of ((key, r) ∷ table) = r ∷ routes_of table

-- The routes, and why the walk stopped, which `walk_table` records.
unfoldable pub harvest_inet_routes :
    (List ℕ → Text) → SnmpTarget → (ℕ → Step) → List InetRoute × WalkEnd
harvest_inet_routes lossy target steps =
    let w = snmp_walk_target lossy target oid_inet_cidr_route_table steps 512 in
    (routes_of (assemble oid_inet_cidr_route_table w.rows []), w.end)
