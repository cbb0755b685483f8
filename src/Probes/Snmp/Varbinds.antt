-- ===== src/Probes/Snmp/Varbinds.antt =====
-- A list of varbinds in BER, under `decode_pdu_body` of src/probes/snmp.rs.
use mathlib.Core.Path.{subst}
use mathlib.Core.List.{append-nil, append_assoc}
use idnx.Common.{
  ℕ, zero, suc, ◌+◌, ◌^◌, ◌≤◌, ◌<◌, ◌≡◌, refl, ap, bytes, Bool, true, false, inl, inr, ltb, leb,
  Bool-cases, List, [], ◌∷◌, ◌++◌, length, length-append, arith, All, if◌then◌else◌,
}
use idnx.Probes.Snmp.{Oid, BerValue, tag_object_identifier, tag_sequence}
use idnx.Probes.Snmp.Encode.{encode_tlv, encode_integer, encode_oid, extend}
use idnx.Probes.Snmp.Reader
use idnx.Probes.Snmp.Reader.{
  Reader, Result, BerError, ok, err, too_many_varbinds, ◌>>=◌, done, decode_integer_value,
}
use idnx.Probes.Snmp.Decode.{read_varbind, read_varbinds, decode_pdu_body}
use idnx.Probes.Snmp.Oids.{IsOid}
use idnx.Probes.Snmp.Fields.{
  IsBefore, new-IsBefore, more-IsBefore, done-IsBefore, tlv-IsBefore, expect-IsBefore,
}
use idnx.Probes.Snmp.RoundTrip.{
  length-encode_tlv, read_integer-IsBefore, alone, extend-lt, extend_back,
}
use idnx.Probes.Snmp.Values.{
  tag_of, oid_bytes, bytes_of, IsValue, IsVarbind, decode_oid_value-oid_bytes,
  decode_value-bytes_of, encode_oid_lem,
}

-- One varbind in BER, and a list of them.
abbrev pub encode_varbind : Oid × BerValue → List ℕ
encode_varbind (oid, value) =
    encode_tlv tag_sequence (encode_oid oid ++ encode_tlv (tag_of value) (bytes_of value))

abbrev pub encode_varbinds : List (Oid × BerValue) → List ℕ
encode_varbinds [] = []
encode_varbinds (v ∷ vs) = encode_varbind v ++ encode_varbinds vs

-- A varbind in BER is read as itself, and the reader stands behind it.
read_varbind-encode_varbind :
    (r : Reader) (oid : Oid) (value : BerValue) (tail : List ℕ)
    → IsOid oid
    → IsValue value
    → length (encode_varbind (oid, value)) < 2 ^ 24
    → IsBefore r (encode_varbind (oid, value) ++ tail)
    → (after : Reader) × (read_varbind r ≡ ok ((oid, value), after)) × IsBefore after tail
unfolding read_varbind
read_varbind-encode_varbind r oid value tail is is_value few h =
    let name_field = encode_tlv tag_object_identifier (oid_bytes oid) in
    let value_field = encode_tlv (tag_of value) (bytes_of value) in
    let body = encode_oid oid ++ value_field in
    let l1 = length-encode_tlv tag_sequence body in
    let l2 = length-append (encode_oid oid) value_field in
    let l3 = length-encode_tlv tag_object_identifier (oid_bytes oid) in
    let l4 = length-encode_tlv (tag_of value) (bytes_of value) in
    let l5 = ap length (encode_oid_lem oid is) in
    let (after, reads, before) =
      expect-IsBefore r (bytes "a varbind") tag_sequence body tail (omega arith) h in
    let inner : IsBefore (Reader.new body) (name_field ++ value_field) =
      subst (λ (bs : List ℕ). IsBefore (Reader.new body) (bs ++ value_field))
        (encode_oid_lem oid is) (new-IsBefore body (omega arith)) in
    let (name, named, before_value) =
      expect-IsBefore (Reader.new body) (bytes "a varbind's OID") tag_object_identifier
        (oid_bytes oid) value_field (omega arith) inner in
    let (end, valued, before_end) =
      tlv-IsBefore name (bytes "a varbind's value") (tag_of value) (bytes_of value) [] (omega arith)
        (alone name value_field before_value) in
    (
      after,
      rw
          (
            reads,
            named,
            valued,
            done-IsBefore end before_end,
            decode_oid_value-oid_bytes oid is,
            decode_value-bytes_of value is_value,
          )
          refl,
      before,
    )

opens : (r : Reader) (bs : List ℕ) → 1 ≤ length bs → IsBefore r bs → done r ≡ false
opens r [] some' h = absurd (omega arith)
opens r (b ∷ bs) some' h = more-IsBefore r b bs h

-- The loop reads them all, unless there are too many.
read_varbinds-encode_varbinds :
    (vs : List (Oid × BerValue)) (fuel : ℕ) (r : Reader) (seen : List (Oid × BerValue))
    → All IsVarbind vs
    → length (encode_varbinds vs) ≤ fuel
    → length (encode_varbinds vs) < 2 ^ 24
    → length seen ≤ 128
    → IsBefore r (encode_varbinds vs)
    → read_varbinds fuel r seen
      ≡ (if leb (length seen + length vs) 128 then ok (seen ++ vs) else err too_many_varbinds)
unfolding read_varbinds
read_varbinds-encode_varbinds [] zero r seen are enough few fits h =
    let small : leb (length seen + 0) 128 ≡ true = ground arith in rw (small, append-nil seen) refl
read_varbinds-encode_varbinds [] (suc fuel) r seen are enough few fits h =
    let small : leb (length seen + 0) 128 ≡ true = ground arith in
    rw (small, append-nil seen, done-IsBefore r h) refl
read_varbinds-encode_varbinds ((oid, value) ∷ vs) zero r seen are enough few fits h =
    let l1 = length-append (encode_varbind (oid, value)) (encode_varbinds vs) in
    let l2 =
      length-encode_tlv tag_sequence
        (encode_oid oid ++ encode_tlv (tag_of value) (bytes_of value)) in
    absurd (omega arith)
read_varbinds-encode_varbinds ((oid, value) ∷ vs) (suc fuel) r seen are enough few fits h =
    let l1 = length-append (encode_varbind (oid, value)) (encode_varbinds vs) in
    let l2 =
      length-encode_tlv tag_sequence
        (encode_oid oid ++ encode_tlv (tag_of value) (bytes_of value)) in
    let open' = opens r (encode_varbind (oid, value) ++ encode_varbinds vs) (omega arith) h in
    let (after, reads, before) =
      read_varbind-encode_varbind r oid value (encode_varbinds vs) are.0.0 are.0.1 (omega arith)
        h in
    elim (Bool-cases (ltb 128 (length seen + 1))) [
      | inl many ↦
          let over : leb (length seen + suc (length vs)) 128 ≡ false = ground arith in
          rw (open', reads, many, over) refl
      | inr more ↦
          let longer = length-append seen ((oid, value) ∷ []) in
          let same : length (seen ++ (oid, value) ∷ []) + length vs
              ≡ length seen + suc (length vs) =
            omega arith in
          let rest =
            read_varbinds-encode_varbinds vs fuel after (seen ++ (oid, value) ∷ []) are.1
              (omega arith) (omega arith) (ground arith) before in
          rw (open', reads, more) (rw (same, append_assoc seen ((oid, value) ∷ []) vs) at rest)
    ]

then_ok {ℓ} :
    {A B : Type ℓ} (b : Bool) (x : A) (f : A → B) (e : BerError)
    → ((if b then ok x else err e) >>= (λ (y : A). ok (f y))) ≡ (if b then ok (f x) else err e)
then_ok true x f e = refl
then_ok false x f e = refl

-- The contents of a PDU in BER.
abbrev pub encode_pdu_body : ℕ → ℕ → ℕ → List (Oid × BerValue) → List ℕ
encode_pdu_body request_id error_status error_index varbinds =
    encode_integer (extend request_id)
    ++ (encode_integer (extend error_status)
        ++ (encode_integer (extend error_index)
            ++ encode_tlv tag_sequence (encode_varbinds varbinds)))

-- Where the three numbers are of 32 bits, each identifier fits BER's first byte and has components of 32 bits,
-- each number is of its type's range, a value is unknown only under a tag that the decoder has no type for, and
-- the whole is below 16 MiB, the BER of a PDU's contents is decoded to its numbers and all its varbinds, in
-- order, each with its identifier and value, if they are at most 128, and refused as too many otherwise.
pub decode_pdu_body-encode_pdu_body :
    (pdu_type request_id error_status error_index : ℕ) (varbinds : List (Oid × BerValue))
    → request_id < 2 ^ 32
    → error_status < 2 ^ 32
    → error_index < 2 ^ 32
    → All IsVarbind varbinds
    → length (encode_pdu_body request_id error_status error_index varbinds) < 2 ^ 24
    → decode_pdu_body pdu_type
        (Reader.new (encode_pdu_body request_id error_status error_index varbinds))
      ≡ (if leb (length varbinds) 128
          then ok (record {
            pdu_type = pdu_type;
            request_id = request_id;
            error_status = error_status;
            error_index = error_index;
            varbinds = varbinds;
          })
          else err too_many_varbinds)
unfolding decode_pdu_body
decode_pdu_body-encode_pdu_body pdu_type request_id error_status error_index varbinds fits fits'
      fits'' are few =
    let list = encode_varbinds varbinds in
    let third = encode_integer (extend error_index) ++ encode_tlv tag_sequence list in
    let second = encode_integer (extend error_status) ++ third in
    let l1 = length-append (encode_integer (extend request_id)) second in
    let l2 = length-append (encode_integer (extend error_status)) third in
    let l3 = length-append (encode_integer (extend error_index)) (encode_tlv tag_sequence list) in
    let l4 = length-encode_tlv tag_sequence list in
    let before =
      new-IsBefore (encode_pdu_body request_id error_status error_index varbinds) (omega arith) in
    let (r1, reads1, before1) =
      read_integer-IsBefore _ (bytes "the request id") (extend request_id) second
        (extend-lt request_id fits) before in
    let (r2, reads2, before2) =
      read_integer-IsBefore r1 (bytes "the error status") (extend error_status) third
        (extend-lt error_status fits') before1 in
    let (r3, reads3, before3) =
      read_integer-IsBefore r2 (bytes "the error index") (extend error_index) _
        (extend-lt error_index fits'') before2 in
    let (r4, reads4, before4) =
      expect-IsBefore r3 (bytes "the varbind list") tag_sequence list [] (omega arith)
        (alone r3 (encode_tlv tag_sequence list) before3) in
    let none_yet : 0 + length varbinds ≡ length varbinds = omega arith in
    let all = rw none_yet at (
      read_varbinds-encode_varbinds varbinds (length list) (Reader.new list) [] are (omega arith)
        (omega arith) (omega arith) (new-IsBefore list (omega arith))) in
    rw
      (
        reads1,
        reads2,
        reads3,
        reads4,
        done-IsBefore r4 before4,
        all,
        extend_back request_id fits,
        extend_back error_status fits',
        extend_back error_index fits'',
      )
      (then_ok (leb (length varbinds) 128) varbinds _ too_many_varbinds)
