-- ===== src/Probes/Snmp/RoundTrip.antt =====
-- A request as src/probes/snmp.rs builds it, under the decoder of the same file.
use mathlib.Core.List.{append-nil}
use idnx.Common.{
  ℕ, zero, suc, ◌+◌, ◌*◌, ◌%◌, ◌^◌, ◌≤◌, ◌<◌, ◌≡◌, refl, Text, bytes, true, false, inl, inr,
  Bool-cases, List, [], ◌∷◌, ◌++◌, length, length-append, arith,
}
use idnx.Probes.Snmp.{
  Oid, BerValue, SnmpPdu, tag_integer, tag_octet_string, tag_null, tag_object_identifier,
  tag_sequence,
}
use idnx.Probes.Snmp.Encode.{
  encode_length, encode_tlv, encode_integer, integer_loop, encode_oid, encode_components,
  encode_null, extend, varbind_list, request_pdu, build_snmp_request, encode_octet_string,
  shift_byte, is_last,
}
use idnx.Probes.Snmp.Reader
use idnx.Probes.Snmp.Reader.{Reader, Result, ok, err, ◌>>=◌, read_integer, done, finished}
use idnx.Probes.Snmp.Decode.{
  decode_value, read_varbind, read_varbinds, decode_pdu_body, decode_snmp_response,
}
use idnx.Probes.Snmp.Integers.{decode_integer_value-integer_loop}
use idnx.Probes.Snmp.Oids.{IsOid, decode_oid_value-encode_components}
use idnx.Probes.Snmp.Fields.{IsBefore, new-IsBefore, done-IsBefore, tlv-IsBefore, expect-IsBefore}

-- No field is longer than its contents.
pub length-encode_tlv : (tag : ℕ) (value : List ℕ) → length value < length (encode_tlv tag value)
unfolding encode_tlv
length-encode_tlv tag value = omega (arith, length-append (encode_length (length value)) value)

length-integer_loop :
    (fuel v : ℕ) (acc : List ℕ) → length (integer_loop fuel v acc) ≤ fuel + length acc
unfolding integer_loop
length-integer_loop zero v acc = omega arith
length-integer_loop (suc fuel) v acc = elim (Bool-cases (is_last (shift_byte v) (v % 256))) [
  | inl last ↦ rw last (omega arith)
  | inr more ↦ rw more (omega (arith, length-integer_loop fuel (shift_byte v) ((v % 256) ∷ acc)))
]

pub read_integer-IsBefore :
    (r : Reader) (what : Text) (v : ℕ) (tail : List ℕ)
    → v < 2 ^ 64
    → IsBefore r (encode_integer v ++ tail)
    → (after : Reader) × (read_integer r what ≡ ok (v, after)) × IsBefore after tail
unfolding encode_integer read_integer
read_integer-IsBefore r what v tail fits h =
    let few = length-integer_loop 8 v [] in
    let (after, reads, before) =
      expect-IsBefore r what tag_integer (integer_loop 8 v []) tail (omega arith) h in
    (after, rw (reads, decode_integer_value-integer_loop v fits) refl, before)

-- A field with nothing behind it.
pub alone : (r : Reader) (bs : List ℕ) → IsBefore r bs → IsBefore r (bs ++ [])
alone r bs h = rw (append-nil bs) h

encode_null_lem : encode_null ≡ encode_tlv tag_null []
unfolding encode_tlv encode_length
encode_null_lem = refl

read_varbind-IsBefore :
    (r : Reader) (oid : Oid) (tail : List ℕ)
    → IsOid oid
    → length (encode_oid oid ++ encode_null) < 2 ^ 24
    → IsBefore r (encode_tlv tag_sequence (encode_oid oid ++ encode_null) ++ tail)
    → (after : Reader) × (read_varbind r ≡ ok ((oid, BerValue.null), after)) × IsBefore after tail
unfolding encode_oid read_varbind decode_value
read_varbind-IsBefore r [] tail is few h = absurd (cc)
read_varbind-IsBefore r (c ∷ []) tail is few h = absurd (cc)
read_varbind-IsBefore r (c ∷ d ∷ comps) tail is few h =
    let body : List ℕ = ((c * 40 + d) % 2 ^ 32 % 256) ∷ encode_components comps in
    let shorter = length-encode_tlv tag_object_identifier body in
    let both = length-append (encode_tlv tag_object_identifier body) encode_null in
    let (after, reads, before) =
      expect-IsBefore r (bytes "a varbind") tag_sequence (encode_oid (c ∷ d ∷ comps) ++ encode_null)
        tail few h in
    let inner = new-IsBefore (encode_oid (c ∷ d ∷ comps) ++ encode_null) (omega arith) in
    let (name, named, before_value) =
      expect-IsBefore (Reader.new (encode_oid (c ∷ d ∷ comps) ++ encode_null))
        (bytes "a varbind's OID") tag_object_identifier body encode_null (omega arith) inner in
    let (end, valued, before_end) =
      tlv-IsBefore name (bytes "a varbind's value") tag_null [] [] (omega arith)
        (alone name (encode_tlv tag_null []) (rw encode_null_lem at before_value)) in
    (
      after,
      rw
          (
            reads,
            named,
            valued,
            done-IsBefore end before_end,
            decode_oid_value-encode_components c d comps is,
          )
          refl,
      before,
    )

one_varbind :
    (fuel : ℕ) (r after : Reader) (v : Oid × BerValue)
    → 1 ≤ fuel
    → done r ≡ false
    → read_varbind r ≡ ok (v, after)
    → done after ≡ true
    → read_varbinds fuel r [] ≡ ok (v ∷ [])
unfolding read_varbinds
one_varbind zero r after v some' open' reads end = absurd (omega arith)
one_varbind (suc zero) r after v some' open' reads end = rw (open', reads) refl
one_varbind (suc (suc fuel)) r after v some' open' reads end = rw (open', reads, end) refl

-- The PDU of a request for this identifier.
abbrev pub asked : ℕ → ℕ → Oid → SnmpPdu
asked pdu_type request_id oid = record {
  pdu_type = pdu_type;
  request_id = request_id;
  error_status = 0;
  error_index = 0;
  varbinds = (oid, BerValue.null) ∷ [];
}

pub extend-lt : (i : ℕ) → i < 2 ^ 32 → extend i < 2 ^ 64
extend-lt i fits = ground arith

pub extend_back : (i : ℕ) → i < 2 ^ 32 → extend i % 2 ^ 32 ≡ i
extend_back i fits = ground arith

varbinds-request :
    (oid : Oid)
    → IsOid oid
    → length (encode_tlv tag_sequence (encode_tlv tag_sequence (encode_oid oid ++ encode_null)))
      < 2 ^ 24
    → read_varbinds
        (length (encode_tlv tag_sequence (encode_oid oid ++ encode_null)))
        (Reader.new (encode_tlv tag_sequence (encode_oid oid ++ encode_null)))
        []
      ≡ ok ((oid, BerValue.null) ∷ [])
varbinds-request oid is few =
    let item = encode_oid oid ++ encode_null in
    let outer = length-encode_tlv tag_sequence (encode_tlv tag_sequence item) in
    let inner = length-encode_tlv tag_sequence item in
    let before = new-IsBefore (encode_tlv tag_sequence item) (omega arith) in
    let (after, reads, before_end) =
      read_varbind-IsBefore (Reader.new (encode_tlv tag_sequence item)) oid [] is (omega arith)
        (alone (Reader.new (encode_tlv tag_sequence item)) (encode_tlv tag_sequence item) before) in
    one_varbind (length (encode_tlv tag_sequence item)) (Reader.new (encode_tlv tag_sequence item))
      after (oid, BerValue.null) (omega arith) (opens item before) reads
      (done-IsBefore after before_end)
  where
    opens :
        (item : List ℕ)
        → IsBefore (Reader.new (encode_tlv tag_sequence item)) (encode_tlv tag_sequence item)
        → done (Reader.new (encode_tlv tag_sequence item)) ≡ false
    opens item before = let longer = length-encode_tlv tag_sequence item in ground arith

decode_pdu_body-request :
    (pdu_type request_id : ℕ) (oid : Oid)
    → IsOid oid
    → request_id < 2 ^ 32
    → length (request_pdu request_id oid) < 2 ^ 24
    → decode_pdu_body pdu_type (Reader.new (request_pdu request_id oid))
      ≡ ok (asked pdu_type request_id oid)
unfolding decode_pdu_body
decode_pdu_body-request pdu_type request_id oid is fits few =
    let first =
      length-append (encode_integer (extend request_id))
        (encode_integer 0 ++ (encode_integer 0 ++ varbind_list oid)) in
    let second = length-append (encode_integer 0) (encode_integer 0 ++ varbind_list oid) in
    let third = length-append (encode_integer 0) (varbind_list oid) in
    let inner =
      length-encode_tlv tag_sequence (encode_tlv tag_sequence (encode_oid oid ++ encode_null)) in
    let before = new-IsBefore (request_pdu request_id oid) (omega arith) in
    let (r1, reads1, before1) =
      read_integer-IsBefore (Reader.new (request_pdu request_id oid)) (bytes "the request id")
        (extend request_id) _ (extend-lt request_id fits) before in
    let (r2, reads2, before2) =
      read_integer-IsBefore r1 (bytes "the error status") 0 _ (omega arith) before1 in
    let (r3, reads3, before3) =
      read_integer-IsBefore r2 (bytes "the error index") 0 _ (omega arith) before2 in
    let (r4, reads4, before4) =
      expect-IsBefore r3 (bytes "the varbind list") tag_sequence
        (encode_tlv tag_sequence (encode_oid oid ++ encode_null)) [] (omega arith)
        (alone r3 (varbind_list oid) before3) in
    rw
      (
        reads1,
        reads2,
        reads3,
        reads4,
        done-IsBefore r4 before4,
        varbinds-request oid is (omega arith),
        extend_back request_id fits,
      )
      refl

module _ (lossy : List ℕ → Text) where
  -- Where the community is a text, the identifier fits BER's first byte, the version and the request id are
  -- of 32 bits and the datagram is below 16 MiB, a request that was built is decoded to its version,
  -- community, type and id, no error, and the identifier with a null.
  pub decode_snmp_response-build_snmp_request :
      (version request_id pdu_type : ℕ) (community : Text) (oid : Oid)
      → lossy community ≡ community
      → IsOid oid
      → version < 2 ^ 32
      → request_id < 2 ^ 32
      → length (build_snmp_request version community request_id pdu_type oid) < 2 ^ 24
      → decode_snmp_response lossy (build_snmp_request version community request_id pdu_type oid)
        ≡ ok (record {
          version = version;
          community = community;
          pdu = asked pdu_type request_id oid;
        })
  unfolding build_snmp_request decode_snmp_response
  decode_snmp_response-build_snmp_request version request_id pdu_type community oid text is fits
        fits' few =
      let pdu = encode_tlv pdu_type (request_pdu request_id oid) in
      let message = encode_integer (extend version) ++ (encode_octet_string community ++ pdu) in
      let l1 = length-encode_tlv tag_sequence message in
      let l2 =
        length-append (encode_integer (extend version)) (encode_octet_string community ++ pdu) in
      let l3 = length-append (encode_octet_string community) pdu in
      let l4 = length-encode_tlv tag_octet_string community in
      let l5 = length-encode_tlv pdu_type (request_pdu request_id oid) in
      let before = new-IsBefore (encode_tlv tag_sequence message) (omega arith) in
      let (r1, reads1, before1) =
        expect-IsBefore (Reader.new (encode_tlv tag_sequence message)) (bytes "the message")
          tag_sequence message [] (omega arith)
          (alone _ (encode_tlv tag_sequence message) before) in
      let (m1, reads2, before2) =
        read_integer-IsBefore (Reader.new message) (bytes "the version") (extend version) _
          (extend-lt version fits) (new-IsBefore message (omega arith)) in
      let (m2, reads3, before3) =
        expect-IsBefore m1 (bytes "the community") tag_octet_string community pdu (omega arith)
          before2 in
      let (m3, reads4, before4) =
        tlv-IsBefore m2 (bytes "the PDU") pdu_type (request_pdu request_id oid) [] (omega arith)
          (alone m2 pdu before3) in
      rw
        (
          reads1,
          done-IsBefore r1 before1,
          reads2,
          reads3,
          reads4,
          done-IsBefore m3 before4,
          decode_pdu_body-request pdu_type request_id oid is fits' (omega arith),
          text,
          extend_back version fits,
        )
        refl
