-- ===== src/Probes/Snmp.antt =====
-- src/probes/snmp.rs: object identifiers and the values that an agent returns. An `i64` is its two's
-- complement, below 2 ^ 64, and an `i32` below 2 ^ 32.
pub mod Encode
pub mod Reader
pub mod Decode
pub mod Integers
pub mod Oids
pub mod Fields
pub mod RoundTrip
pub mod Inside
pub mod Turns
pub mod Values
pub mod Varbinds
pub mod Arp
pub mod Walk
use idnx.Common.{
  ℕ, ◌%◌, ◌^◌, Bool, true, false, ◌||◌, ◌==◌, ltb, Option, none, some, List, [], ◌∷◌, if◌then◌else◌,
}

-- `Oid`: its components.
abbrev pub Oid : Type 0
Oid = List ℕ

-- `Oid::starts_with`
unfoldable pub starts_with : Oid → Oid → Bool
starts_with oid [] = true
starts_with [] (p ∷ prefix) = false
starts_with (c ∷ oid) (p ∷ prefix) =
    let rest = starts_with oid prefix in if c == p then rest else false

-- The order of `Oid`, `<=`.
unfoldable pub oid_leb : Oid → Oid → Bool
oid_leb [] other = true
oid_leb (c ∷ oid) [] = false
oid_leb (c ∷ oid) (d ∷ other) =
    let rest = oid_leb oid other in if ltb c d then true else if ltb d c then false else rest

-- The tags of the values and of the PDUs.
abbrev pub tag_integer : ℕ
tag_integer = 2

abbrev pub tag_octet_string : ℕ
tag_octet_string = 4

abbrev pub tag_null : ℕ
tag_null = 5

abbrev pub tag_object_identifier : ℕ
tag_object_identifier = 6

abbrev pub tag_sequence : ℕ
tag_sequence = 48

abbrev pub tag_ip_address : ℕ
tag_ip_address = 64

abbrev pub tag_counter32 : ℕ
tag_counter32 = 65

abbrev pub tag_gauge32 : ℕ
tag_gauge32 = 66

abbrev pub tag_timeticks : ℕ
tag_timeticks = 67

abbrev pub tag_no_such_object : ℕ
tag_no_such_object = 128

abbrev pub tag_no_such_instance : ℕ
tag_no_such_instance = 129

abbrev pub tag_end_of_mib_view : ℕ
tag_end_of_mib_view = 130

abbrev pub pdu_get_request : ℕ
pdu_get_request = 160

abbrev pub pdu_get_next_request : ℕ
pdu_get_next_request = 161

abbrev pub pdu_get_response : ℕ
pdu_get_response = 162

pub data BerValue : Type 0 where
  integer : ℕ → BerValue
  octet_string : List ℕ → BerValue
  null : BerValue
  object_identifier : Oid → BerValue
  ip_address : ℕ → ℕ → ℕ → ℕ → BerValue
  counter32 : ℕ → BerValue
  gauge32 : ℕ → BerValue
  time_ticks : ℕ → BerValue
  unknown : ℕ → List ℕ → BerValue

abbrev pub unknown_tag : BerValue → Option ℕ
unknown_tag (integer i) = none
unknown_tag (octet_string bs) = none
unknown_tag null = none
unknown_tag (object_identifier oid) = none
unknown_tag (ip_address a b c d) = none
unknown_tag (counter32 n) = none
unknown_tag (gauge32 n) = none
unknown_tag (time_ticks n) = none
unknown_tag (unknown tag bs) = some tag

abbrev pub is_tag : Option ℕ → ℕ → Bool
is_tag none tag = false
is_tag (some found) tag = found == tag

unfoldable pub is_end_of_mib_view : BerValue → Bool
is_end_of_mib_view value = is_tag (unknown_tag value) tag_end_of_mib_view

unfoldable pub is_absent : BerValue → Bool
is_absent value =
    is_tag (unknown_tag value) tag_no_such_object || is_tag (unknown_tag value) tag_no_such_instance

-- `as_ipv4`: the four octets.
unfoldable pub as_ipv4 : BerValue → Option (ℕ × ℕ × ℕ × ℕ)
as_ipv4 (ip_address a b c d) = some (a, b, c, d)
as_ipv4 (octet_string (a ∷ b ∷ c ∷ d ∷ [])) = some (a, b, c, d)
as_ipv4 other = none

unfoldable pub as_u32 : BerValue → Option ℕ
as_u32 (integer i) = some (i % 2 ^ 32)
as_u32 (counter32 n) = some n
as_u32 (gauge32 n) = some n
as_u32 (time_ticks n) = some n
as_u32 other = none

pub record SnmpPdu : Type 0 where
  pub pdu_type : ℕ
  pub request_id : ℕ
  pub error_status : ℕ
  pub error_index : ℕ
  pub varbinds : List (Oid × BerValue)

pub record SnmpMessage : Type 0 where
  pub version : ℕ
  pub community : List ℕ
  pub pdu : SnmpPdu
