-- ===== src/Probes/Snmp/Walk/Accepts.antt =====
-- What `snmp_request` of src/probes/snmp.rs returns, by what arrives.
use idnx.Common.{
  ℕ, ◌≤◌, ◌≡◌, ◌↔◌, ◌⊎◌, refl, ap, ◌∙◌, Text, true, false, ltb, inl, inr, Bool-cases, List, [], ◌∷◌,
  ◌++◌, length, All, arith,
}
use idnx.Probes.Snmp.{Oid, SnmpMessage}
use idnx.Probes.Snmp.Reader.{Result, ok, err, BerError}
use idnx.Probes.Snmp.Encode.{build_snmp_request}
use idnx.Probes.Snmp.Decode.{decode_snmp_response}
use idnx.Probes.Snmp.Walk.{
  Peer, SnmpTarget, Arrival, datagram, oversized_datagram, recv_error, Network, unbound, unsent,
  listening, accepted, max_response_bytes, is_from, check_decoded, receive, received, snmp_request,
}
use idnx.Probes.Snmp.Walk.Messages.{IsAnswer, check_message_iff, accepted-check_message}

-- Something that was not sent from the target.
abbrev pub IsForeign : SnmpTarget → Arrival → Type 0
IsForeign target (datagram from bs) = is_from target.transport from ≡ false
IsForeign target oversized_datagram = ⊥
IsForeign target (recv_error e) = ⊥

module _ (lossy : List ℕ → Text) where
  -- Among what arrived, the first datagram of the target is within the bound and decodes to this message,
  -- and the message answers the request.
  pub record Brings (target : SnmpTarget) (pdu_type : ℕ) (oid : Oid) (request_id : ℕ)
      (arrivals : List Arrival) (m : SnmpMessage) : Type 0 where
    pub skipped : List Arrival
    pub from : Peer
    pub bs : List ℕ
    pub later : List Arrival
    pub are : arrivals ≡ skipped ++ datagram from bs ∷ later
    pub foreign : All (IsForeign target) skipped
    pub sent : is_from target.transport from ≡ true
    pub fits : length bs ≤ max_response_bytes
    pub decoded : decode_snmp_response lossy bs ≡ ok m
    pub answers : IsAnswer target pdu_type oid request_id m

  Brings-first :
      (target : SnmpTarget) (pdu_type : ℕ) (oid : Oid) (request_id : ℕ) (from : Peer) (bs : List ℕ)
      (later : List Arrival) (m : SnmpMessage)
      → is_from target.transport from ≡ true
      → receive lossy target pdu_type oid request_id (datagram from bs ∷ later) ≡ accepted m
      → Brings target pdu_type oid request_id (datagram from bs ∷ later) m
  unfolding receive check_decoded
  Brings-first target pdu_type oid request_id from bs later m sent h =
      elim (Bool-cases (ltb max_response_bytes (length bs))) [
        | inl large ↦ absurd (cc (rw (sent, large) at h))
        | inr small ↦ elim (Result-cases (decode_snmp_response lossy bs)) [
          | inl (m', e) ↦
              let (same, is) =
                (check_message_iff target pdu_type oid request_id m' m).0
                  (rw (sent, small, e) at h) in
              record {
                skipped = [];
                from = from;
                bs = bs;
                later = later;
                are = refl;
                foreign = tt;
                sent = sent;
                fits = ground arith;
                decoded = e ∙ ap ok same;
                answers = is;
              }
          | inr (e', e) ↦ absurd (cc (rw (sent, small, e) at h))
        ]
      ]
    where
      Result-cases :
          (r : Result SnmpMessage)
          → ((m : SnmpMessage) × (r ≡ ok m)) ⊎ ((e : BerError) × (r ≡ err e))
      Result-cases (ok m) = inl (m, refl)
      Result-cases (err e) = inr (e, refl)

  Brings-later :
      {target : SnmpTarget} {pdu_type : ℕ} {oid : Oid} {request_id : ℕ} {arrivals : List Arrival}
      {m : SnmpMessage} (from : Peer) (bs : List ℕ)
      → is_from target.transport from ≡ false
      → Brings target pdu_type oid request_id arrivals m
      → Brings target pdu_type oid request_id (datagram from bs ∷ arrivals) m
  Brings-later from bs foreign h = record {
    skipped = datagram from bs ∷ h.skipped;
    from = h.from;
    bs = h.bs;
    later = h.later;
    are = ap (λ (t : List Arrival). datagram from bs ∷ t) h.are;
    foreign = (foreign, h.foreign);
    sent = h.sent;
    fits = h.fits;
    decoded = h.decoded;
    answers = h.answers;
  }

  receive-Brings :
      (target : SnmpTarget) (pdu_type : ℕ) (oid : Oid) (request_id : ℕ) (arrivals : List Arrival)
      (m : SnmpMessage)
      → receive lossy target pdu_type oid request_id arrivals ≡ accepted m
      → Brings target pdu_type oid request_id arrivals m
  unfolding receive
  receive-Brings target pdu_type oid request_id [] m h = absurd (cc h)
  receive-Brings target pdu_type oid request_id (oversized_datagram ∷ arrivals) m h = absurd (cc h)
  receive-Brings target pdu_type oid request_id (recv_error e ∷ arrivals) m h = absurd (cc h)
  receive-Brings target pdu_type oid request_id (datagram from bs ∷ arrivals) m h =
      elim (Bool-cases (is_from target.transport from)) [
        | inl sent ↦ Brings-first target pdu_type oid request_id from bs arrivals m sent h
        | inr foreign ↦
            Brings-later from bs foreign
              (receive-Brings target pdu_type oid request_id arrivals m (rw foreign at h))
      ]

  skips :
      (target : SnmpTarget) (pdu_type : ℕ) (oid : Oid) (request_id : ℕ)
      (skipped arrivals : List Arrival)
      → All (IsForeign target) skipped
      → receive lossy target pdu_type oid request_id (skipped ++ arrivals)
        ≡ receive lossy target pdu_type oid request_id arrivals
  unfolding receive
  skips target pdu_type oid request_id [] arrivals foreign = refl
  skips target pdu_type oid request_id (oversized_datagram ∷ skipped) arrivals foreign =
      absurd foreign.0
  skips target pdu_type oid request_id (recv_error e ∷ skipped) arrivals foreign = absurd foreign.0
  skips target pdu_type oid request_id (datagram from bs ∷ skipped) arrivals foreign =
      rw foreign.0 (skips target pdu_type oid request_id skipped arrivals foreign.1)

  Brings-receive :
      (target : SnmpTarget) (pdu_type : ℕ) (oid : Oid) (request_id : ℕ) (arrivals : List Arrival)
      (m : SnmpMessage)
      → Brings target pdu_type oid request_id arrivals m
      → receive lossy target pdu_type oid request_id arrivals ≡ accepted m
  unfolding receive check_decoded
  Brings-receive target pdu_type oid request_id arrivals m h =
      let small : ltb max_response_bytes (length h.bs) ≡ false = (let f = h.fits in ground arith) in
      ap (receive lossy target pdu_type oid request_id) h.are
      ∙ skips target pdu_type oid request_id h.skipped _ h.foreign
      ∙ rw (h.sent, small, h.decoded)
          (accepted-check_message target pdu_type oid request_id m h.answers)

  -- A message is accepted exactly if the request was sent and, of what then arrived, the first datagram of
  -- the target's address and port comes before any receive error, is within 8,192 bytes, decodes to the
  -- message, and the message is of SNMPv2c, with the target's community, a response, with the request id
  -- and, without an error status, with one varbind, which for a GET is of the identifier asked for.
  pub snmp_request_iff :
      (target : SnmpTarget) (pdu_type : ℕ) (oid : Oid) (request_id : ℕ) (network : List ℕ → Network)
      (m : SnmpMessage)
      → (snmp_request lossy target pdu_type oid request_id network ≡ accepted m) ↔ (
          (arrivals : List Arrival) × (network
              (build_snmp_request 1 target.community request_id pdu_type oid)
            ≡ listening arrivals)
          × Brings target pdu_type oid request_id arrivals m)
  unfolding snmp_request received
  snmp_request_iff target pdu_type oid request_id network m =
      heard (network (build_snmp_request 1 target.community request_id pdu_type oid))
    where
      heard :
          (n : Network)
          → (received lossy target pdu_type oid request_id n ≡ accepted m) ↔ (
              (arrivals : List Arrival) × (n ≡ listening arrivals)
              × Brings target pdu_type oid request_id arrivals m)
      heard (unbound e) = (λ h. absurd (cc h), λ (arrivals, is, _). absurd (cc is))
      heard (unsent e) = (λ h. absurd (cc h), λ (arrivals, is, _). absurd (cc is))
      heard (listening arrivals) = (
        λ h. (arrivals, refl, receive-Brings target pdu_type oid request_id arrivals m h),
        λ (others, is, h).
            let same : arrivals ≡ others = cc is in
            rw same (Brings-receive target pdu_type oid request_id others m h),
      )
