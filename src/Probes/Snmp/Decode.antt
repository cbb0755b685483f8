-- ===== src/Probes/Snmp/Decode.antt =====
-- The decoders of src/probes/snmp.rs.
use idnx.Common.{
  ℕ, zero, suc, ◌+◌, ◌*◌, ◌/◌, ◌%◌, ◌^◌, Text, bytes, ◌==◌, ltb, List, [], ◌∷◌, ◌++◌, length,
  if◌then◌else◌,
}
use idnx.Probes.Snmp.{
  Oid, BerValue, SnmpPdu, SnmpMessage, tag_integer, tag_octet_string, tag_null,
  tag_object_identifier, tag_sequence, tag_ip_address, tag_counter32, tag_gauge32, tag_timeticks,
}
use idnx.Probes.Snmp.Reader
use idnx.Probes.Snmp.Reader.{
  Result, ok, err, ◌>>=◌, BerError, too_many_varbinds, tlv, expect, finished, done, rest,
  read_integer, decode_integer_value,
}

-- The components after the first two; one that is left open at the end is dropped.
unfoldable pub components_from : ℕ → List ℕ → List ℕ
components_from current [] = []
components_from current (b ∷ bs) =
    let next = current * 128 % 2 ^ 32 + b % 128 in
    let more = components_from (if ltb b 128 then 0 else next) bs in
    if ltb b 128 then next ∷ more else more

unfoldable pub decode_oid_value : List ℕ → Oid
decode_oid_value [] = []
decode_oid_value (b ∷ bs) = (b / 40) ∷ (b % 40) ∷ components_from 0 bs

-- Four octets as an address, anything else under its tag.
abbrev pub address_value : List ℕ → BerValue
address_value (a ∷ b ∷ c ∷ d ∷ []) = BerValue.ip_address a b c d
address_value other = BerValue.unknown tag_ip_address other

unfoldable pub decode_value : ℕ → List ℕ → BerValue
decode_value tag bs =
    if tag == tag_integer
    then BerValue.integer (decode_integer_value bs)
    else if tag == tag_octet_string
    then BerValue.octet_string bs
    else if tag == tag_null
    then BerValue.null
    else if tag == tag_object_identifier
    then BerValue.object_identifier (decode_oid_value bs)
    else if tag == tag_ip_address
    then address_value bs
    else if tag == tag_counter32
    then BerValue.counter32 (decode_integer_value bs % 2 ^ 32)
    else if tag == tag_gauge32
    then BerValue.gauge32 (decode_integer_value bs % 2 ^ 32)
    else if tag == tag_timeticks
    then BerValue.time_ticks (decode_integer_value bs % 2 ^ 32)
    else BerValue.unknown tag bs

abbrev pub max_varbinds : ℕ
max_varbinds = 128

-- One turn of the loop over the list: the varbind, and the reader behind it.
unfoldable pub read_varbind : Reader.Reader → Result ((Oid × BerValue) × Reader.Reader)
read_varbind r = do
  (varbind, after) ← expect r tag_sequence (bytes "a varbind")
  (name, then') ← expect varbind tag_object_identifier (bytes "a varbind's OID")
  ((tag, value), end) ← tlv then' (bytes "a varbind's value")
  _ ← finished end (bytes "a varbind")
  ok ((decode_oid_value (rest name), decode_value tag (rest value)), after)

-- The loop over the list, on fuel, with what was read so far.
unfoldable pub read_varbinds :
    ℕ → Reader.Reader → List (Oid × BerValue) → Result (List (Oid × BerValue))
read_varbinds zero r varbinds = ok varbinds
read_varbinds (suc fuel) r varbinds =
    let next = λ (v : Oid × BerValue) (after : Reader.Reader).
      read_varbinds fuel after (varbinds ++ v ∷ []) in
    if done r then ok varbinds else (do
      (v, after) ← read_varbind r
      if ltb max_varbinds (length varbinds + 1) then err too_many_varbinds else next v after)

-- `decode_pdu_body`; a turn of the loop takes bytes away, so as many turns as there are bytes are enough.
unfoldable pub decode_pdu_body : ℕ → Reader.Reader → Result SnmpPdu
decode_pdu_body pdu_type pdu = do
  (request_id, r1) ← read_integer pdu (bytes "the request id")
  (error_status, r2) ← read_integer r1 (bytes "the error status")
  (error_index, r3) ← read_integer r2 (bytes "the error index")
  (list, r4) ← expect r3 tag_sequence (bytes "the varbind list")
  _ ← finished r4 (bytes "the PDU")
  varbinds ← read_varbinds (length (Reader.Reader.bytes list)) list []
  ok (record {
    pdu_type = pdu_type;
    request_id = request_id % 2 ^ 32;
    error_status = error_status % 2 ^ 32;
    error_index = error_index % 2 ^ 32;
    varbinds = varbinds;
  })

-- `lossy` is `String::from_utf8_lossy`.
module _ (lossy : List ℕ → Text) where
  unfoldable pub decode_snmp_response : List ℕ → Result SnmpMessage
  decode_snmp_response datagram = do
    (message, after) ← expect (Reader.new datagram) tag_sequence (bytes "the message")
    _ ← finished after (bytes "the datagram")
    (version, m1) ← read_integer message (bytes "the version")
    (community, m2) ← expect m1 tag_octet_string (bytes "the community")
    ((pdu_type, pdu), m3) ← tlv m2 (bytes "the PDU")
    _ ← finished m3 (bytes "the message")
    body ← decode_pdu_body pdu_type pdu
    ok (record { version = version % 2 ^ 32; community = lossy (rest community); pdu = body })
