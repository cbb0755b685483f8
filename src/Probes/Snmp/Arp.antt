-- ===== src/Probes/Snmp/Arp.antt =====
-- The ARP cache of `harvest_snmp_target` in src/probes/snmp.rs: the rows of `ipNetToMediaTable`, put
-- together by what is behind their column.
pub mod Rows
use idnx.Common.{
  ℕ, Text, bytes, Bool, true, false, ◌==◌, Option, none, some, List, [], ◌∷◌, ◌++◌, drop, text_eq,
  if◌then◌else◌,
}
use idnx.Common.Dict
use idnx.Common.Dict.{Dict}
use idnx.Federation.Identity.{encode_hex}
use idnx.Probes.Snmp.{Oid, BerValue, as_ipv4}
use idnx.Probes.Snmp.Walk.{SnmpTarget, Step, WalkEnd, snmp_walk_target}

abbrev pub Ipv4Addr : Type 0
Ipv4Addr = ℕ × ℕ × ℕ × ℕ

-- `as_mac`: six octets in hex, with colons.
unfoldable pub as_mac : BerValue → Option Text
as_mac (BerValue.octet_string (a ∷ b ∷ c ∷ d ∷ e ∷ f ∷ [])) = some (
    encode_hex (a ∷ [])
    ++ (bytes ":"
        ++ (encode_hex (b ∷ [])
            ++ (bytes ":"
                ++ (encode_hex (c ∷ [])
                    ++ (bytes ":"
                        ++ (encode_hex (d ∷ [])
                            ++ (bytes ":"
                                ++ (encode_hex (e ∷ [])
                                    ++ (bytes ":" ++ encode_hex (f ∷ [])))))))))))
as_mac other = none

pub record SnmpArpEntry : Type 0 where
  pub ip : Ipv4Addr
  pub mac : Text
  pub if_index : ℕ

-- The cells of one row that were read.
pub record ArpCells : Type 0 where
  pub ip : Option Ipv4Addr
  pub mac : Option Text
  pub if_index : ℕ

unfoldable pub set_cell : ℕ → BerValue → ArpCells → ArpCells
set_cell column value cells =
    if column == 2
    then record cells { mac = as_mac value }
    else if column == 3
    then record cells { ip = as_ipv4 value }
    else cells

-- `entry(key).or_insert(…)`
abbrev pub cells_or : ℕ → Option ArpCells → ArpCells
cells_or if_index none = record { ip = none; mac = none; if_index = if_index }
cells_or if_index (some cells) = cells

-- The column, the interface and the rest of an identifier of at least 11 components.
unfoldable pub add_cell : Oid → BerValue → Dict ArpCells → Dict ArpCells
add_cell [] value cells = cells
add_cell (column ∷ []) value cells = cells
add_cell (column ∷ if_index ∷ rest) value cells =
    Dict.put cells (if_index ∷ rest)
      (set_cell column value (cells_or if_index (Dict.get cells (if_index ∷ rest))))

unfoldable pub cells_of : List (Oid × BerValue) → Dict ArpCells → Dict ArpCells
cells_of [] cells = cells
cells_of ((oid, value) ∷ rows) cells = cells_of rows (add_cell (drop 9 oid) value cells)

-- `is_loopback` and `is_broadcast`
unfoldable pub is_loopback : Ipv4Addr → Bool
is_loopback (a, b, c, d) = a == 127

unfoldable pub is_broadcast : Ipv4Addr → Bool
is_broadcast (a, b, c, d) = text_eq (a ∷ b ∷ c ∷ d ∷ []) (255 ∷ 255 ∷ 255 ∷ 255 ∷ [])

-- A row with an address and a MAC that name a device.
unfoldable pub is_device : Ipv4Addr → Text → Bool
is_device ip mac =
    if is_loopback ip
    then false
    else if is_broadcast ip
    then false
    else if text_eq mac (bytes "00:00:00:00:00:00")
    then false
    else true

abbrev pub entry_of : Option Ipv4Addr → Option Text → ℕ → List SnmpArpEntry
entry_of (some ip) (some mac) if_index =
    if is_device ip mac then record { ip = ip; mac = mac; if_index = if_index } ∷ [] else []
entry_of (some ip) none if_index = []
entry_of none mac if_index = []

unfoldable pub entries_of : Dict ArpCells → List SnmpArpEntry
entries_of [] = []
entries_of ((key, cells) ∷ rows) = entry_of cells.ip cells.mac cells.if_index ++ entries_of rows

unfoldable pub arp_cache : List (Oid × BerValue) → List SnmpArpEntry
arp_cache rows = entries_of (cells_of rows [])

-- `OID_IP_NET_TO_MEDIA_TABLE`
abbrev pub oid_ip_net_to_media_table : Oid
oid_ip_net_to_media_table = 1 ∷ 3 ∷ 6 ∷ 1 ∷ 2 ∷ 1 ∷ 4 ∷ 22 ∷ 1 ∷ []

-- The cache, and why the walk stopped, which `walk_table` records.
unfoldable pub harvest_arp_cache :
    (List ℕ → Text) → SnmpTarget → (ℕ → Step) → List SnmpArpEntry × WalkEnd
harvest_arp_cache lossy target steps =
    let w = snmp_walk_target lossy target oid_ip_net_to_media_table steps 512 in
    (arp_cache w.rows, w.end)
