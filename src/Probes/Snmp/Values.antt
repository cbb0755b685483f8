-- ===== src/Probes/Snmp/Values.antt =====
-- Values and identifiers in BER, under `decode_value` of src/probes/snmp.rs.
use idnx.Common.{ℕ, ◌+◌, ◌*◌, ◌%◌, ◌^◌, ◌<◌, ◌≡◌, refl, ap, false, ◌==◌, List, [], ◌∷◌, arith, any}
use idnx.Probes.Snmp.{Oid, BerValue, tag_object_identifier}
use idnx.Probes.Snmp.Encode.{encode_tlv, integer_loop, encode_oid, encode_components}
use idnx.Probes.Snmp.Reader.{decode_integer_value}
use idnx.Probes.Snmp.Decode.{decode_value, decode_oid_value}
use idnx.Probes.Snmp.Integers.{decode_integer_value-integer_loop}
use idnx.Probes.Snmp.Oids.{IsOid, decode_oid_value-encode_components}

-- The tag of a value in BER.
abbrev pub tag_of : BerValue → ℕ
tag_of (BerValue.integer i) = 2
tag_of (BerValue.octet_string bs) = 4
tag_of BerValue.null = 5
tag_of (BerValue.object_identifier oid) = 6
tag_of (BerValue.ip_address a b c d) = 64
tag_of (BerValue.counter32 n) = 65
tag_of (BerValue.gauge32 n) = 66
tag_of (BerValue.time_ticks n) = 67
tag_of (BerValue.unknown tag bs) = tag

-- The contents of an identifier in BER.
abbrev pub oid_bytes : Oid → List ℕ
oid_bytes [] = []
oid_bytes (c ∷ []) = []
oid_bytes (c ∷ d ∷ comps) = ((c * 40 + d) % 2 ^ 32 % 256) ∷ encode_components comps

-- The contents of a value in BER.
abbrev pub bytes_of : BerValue → List ℕ
bytes_of (BerValue.integer i) = integer_loop 8 i []
bytes_of (BerValue.octet_string bs) = bs
bytes_of BerValue.null = []
bytes_of (BerValue.object_identifier oid) = oid_bytes oid
bytes_of (BerValue.ip_address a b c d) = a ∷ b ∷ c ∷ d ∷ []
bytes_of (BerValue.counter32 n) = integer_loop 8 n []
bytes_of (BerValue.gauge32 n) = integer_loop 8 n []
bytes_of (BerValue.time_ticks n) = integer_loop 8 n []
bytes_of (BerValue.unknown tag bs) = bs

abbrev known_tags : List ℕ
known_tags = 2 ∷ 4 ∷ 5 ∷ 6 ∷ 64 ∷ 65 ∷ 66 ∷ 67 ∷ []

-- The number is of its type's range, and a value is unknown only under another tag.
abbrev pub IsValue : BerValue → Type 0
IsValue (BerValue.integer i) = i < 2 ^ 64
IsValue (BerValue.object_identifier oid) = IsOid oid
IsValue (BerValue.counter32 n) = n < 2 ^ 32
IsValue (BerValue.gauge32 n) = n < 2 ^ 32
IsValue (BerValue.time_ticks n) = n < 2 ^ 32
IsValue (BerValue.unknown tag bs) = any (λ (known : ℕ). tag == known) known_tags ≡ false
IsValue _ = Unit

abbrev pub IsVarbind : Oid × BerValue → Type 0
IsVarbind (oid, value) = IsOid oid × IsValue value

pub decode_oid_value-oid_bytes : (oid : Oid) → IsOid oid → decode_oid_value (oid_bytes oid) ≡ oid
decode_oid_value-oid_bytes [] is = absurd (cc)
decode_oid_value-oid_bytes (c ∷ []) is = absurd (cc)
decode_oid_value-oid_bytes (c ∷ d ∷ comps) is = decode_oid_value-encode_components c d comps is

number_back : (n : ℕ) → n < 2 ^ 32 → decode_integer_value (integer_loop 8 n []) % 2 ^ 32 ≡ n
number_back n fits = rw (decode_integer_value-integer_loop n (omega arith)) (omega arith)

-- A value is decoded from its tag and contents.
pub decode_value-bytes_of : (v : BerValue) → IsValue v → decode_value (tag_of v) (bytes_of v) ≡ v
unfolding decode_value
decode_value-bytes_of (BerValue.integer i) is =
    ap BerValue.integer (decode_integer_value-integer_loop i is)
decode_value-bytes_of (BerValue.octet_string bs) is = refl
decode_value-bytes_of BerValue.null is = refl
decode_value-bytes_of (BerValue.object_identifier oid) is =
    ap BerValue.object_identifier (decode_oid_value-oid_bytes oid is)
decode_value-bytes_of (BerValue.ip_address a b c d) is = refl
decode_value-bytes_of (BerValue.counter32 n) is = ap BerValue.counter32 (number_back n is)
decode_value-bytes_of (BerValue.gauge32 n) is = ap BerValue.gauge32 (number_back n is)
decode_value-bytes_of (BerValue.time_ticks n) is = ap BerValue.time_ticks (number_back n is)
decode_value-bytes_of (BerValue.unknown tag bs) is = ground arith

pub encode_oid_lem :
    (oid : Oid) → IsOid oid → encode_oid oid ≡ encode_tlv tag_object_identifier (oid_bytes oid)
unfolding encode_oid
encode_oid_lem [] is = absurd (cc)
encode_oid_lem (c ∷ []) is = absurd (cc)
encode_oid_lem (c ∷ d ∷ comps) is = refl
