-- ===== src/Probes/Snmp/Encode.antt =====
-- The BER encoders of src/probes/snmp.rs.
use idnx.Common.{
  ℕ, zero, suc, ◌+◌, ◌-◌, ◌*◌, ◌/◌, ◌%◌, ◌^◌, Text, Bool, ◌&&◌, ◌||◌, ◌==◌, ltb, List, [], ◌∷◌,
  ◌++◌, length, if◌then◌else◌,
}
use idnx.Probes.Snmp.{
  Oid, tag_integer, tag_octet_string, tag_null, tag_object_identifier, tag_sequence,
}

unfoldable pub encode_length : ℕ → List ℕ
encode_length len =
    if ltb len 128
    then len ∷ []
    else if ltb len 256
    then 129 ∷ len ∷ []
    else if ltb len 65536
    then 130 ∷ (len / 256) ∷ (len % 256) ∷ []
    else 131 ∷ (len / 65536 % 256) ∷ (len / 256 % 256) ∷ (len % 256) ∷ []

unfoldable pub encode_tlv : ℕ → List ℕ → List ℕ
encode_tlv tag value = tag ∷ (encode_length (length value) ++ value)

-- `v >> 8` of an `i64`, which keeps the sign.
abbrev pub shift_byte : ℕ → ℕ
shift_byte v = if ltb v (2 ^ 63) then v / 256 else v / 256 + 255 * 2 ^ 56

-- Whether the byte that was pushed last shows the sign of what is left.
abbrev pub is_last : ℕ → ℕ → Bool
is_last v byte = v == 0 && ltb byte 128 || v == 2 ^ 64 - 1 && ltb 127 byte

-- The loop of `encode_integer`, on fuel; the bytes are kept reversed.
unfoldable pub integer_loop : ℕ → ℕ → List ℕ → List ℕ
integer_loop zero v reversed = reversed
integer_loop (suc fuel) v reversed =
    let rest = integer_loop fuel (shift_byte v) ((v % 256) ∷ reversed) in
    if is_last (shift_byte v) (v % 256) then (v % 256) ∷ reversed else rest

unfoldable pub encode_integer : ℕ → List ℕ
encode_integer val = encode_tlv tag_integer (integer_loop 8 val [])

abbrev pub encode_octet_string : List ℕ → List ℕ
encode_octet_string val = encode_tlv tag_octet_string val

abbrev pub encode_null : List ℕ
encode_null = tag_null ∷ 0 ∷ []

-- The groups of seven bits above the last, on fuel, and the stack popped in front of `after`.
unfoldable pub component_loop : ℕ → ℕ → List ℕ → List ℕ
component_loop zero val after = after
component_loop (suc fuel) val after =
    let rest = component_loop fuel (val / 128) ((val % 128 + 128) ∷ after) in
    if val == 0 then after else rest

unfoldable pub encode_component : ℕ → List ℕ
encode_component comp =
    if ltb comp 128 then comp ∷ [] else component_loop 5 (comp / 128) ((comp % 128) ∷ [])

unfoldable pub encode_components : List ℕ → List ℕ
encode_components [] = []
encode_components (c ∷ comps) = encode_component c ++ encode_components comps

-- `encode_oid`; the first two components share a byte.
unfoldable pub encode_oid : Oid → List ℕ
encode_oid [] = tag_object_identifier ∷ 0 ∷ []
encode_oid (c ∷ []) = tag_object_identifier ∷ 0 ∷ []
encode_oid (c ∷ d ∷ comps) =
    encode_tlv tag_object_identifier (((c * 40 + d) % 2 ^ 32 % 256) ∷ encode_components comps)

-- `as i64` of an `i32`.
abbrev pub extend : ℕ → ℕ
extend i = if ltb i (2 ^ 31) then i else i + (2 ^ 64 - 2 ^ 32)

abbrev pub varbind_list : Oid → List ℕ
varbind_list oid = encode_tlv tag_sequence (encode_tlv tag_sequence (encode_oid oid ++ encode_null))

abbrev pub request_pdu : ℕ → Oid → List ℕ
request_pdu request_id oid =
    encode_integer (extend request_id)
    ++ (encode_integer 0 ++ (encode_integer 0 ++ varbind_list oid))

unfoldable pub build_snmp_request : ℕ → Text → ℕ → ℕ → Oid → List ℕ
build_snmp_request version community request_id pdu_type oid = encode_tlv tag_sequence (
    encode_integer (extend version)
    ++ (encode_octet_string community ++ encode_tlv pdu_type (request_pdu request_id oid)))
