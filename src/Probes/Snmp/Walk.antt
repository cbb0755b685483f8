-- ===== src/Probes/Snmp/Walk.antt =====
-- The requests and the walk of src/probes/snmp.rs. The network is a parameter: what comes of sending a
-- datagram, with everything that then arrives before the deadline.
pub mod Messages
pub mod Accepts
pub mod Order
pub mod Ascends
pub mod Table
pub mod Complete
use idnx.Common.{
  ℕ, zero, suc, Text, bytes, Bool, true, false, ◌==◌, ltb, List, [], ◌∷◌, ◌++◌, length, text_eq,
  if◌then◌else◌,
}
use idnx.Probes.Snmp.{
  Oid, BerValue, SnmpMessage, starts_with, oid_leb, is_end_of_mib_view, is_absent, pdu_get_request,
  pdu_get_next_request, pdu_get_response,
}
use idnx.Probes.Snmp.Encode.{build_snmp_request}
use idnx.Probes.Snmp.Reader.{Result, ok, err, BerError}
use idnx.Probes.Snmp.Decode.{decode_snmp_response}

-- An IPv4 socket address; any other is `v6`.
pub data Peer : Type 0 where
  v4 : ℕ → ℕ → Peer
  v6 : Peer

pub record SocketAddrV4 : Type 0 where
  pub address : ℕ
  pub port : ℕ

-- `SnmpTarget`, whose device the requests do not read.
pub record SnmpTarget : Type 0 where
  pub transport : SocketAddrV4
  pub community : Text

-- What `recv_from` returns. The buffer holds one byte more than a response may have, so that of a longer
-- datagram that much is known.
pub data Arrival : Type 0 where
  datagram : Peer → List ℕ → Arrival
  oversized_datagram : Arrival
  recv_error : Text → Arrival

-- A socket that was not bound, a datagram that was not sent, or what arrives until the time is out.
pub data Network : Type 0 where
  unbound unsent : Text → Network
  listening : List Arrival → Network

-- The errors of a request, by name in place of their text, and the end of a walk without a varbind.
pub data RequestError : Type 0 where
  bind_error send_error receive_error : Text → RequestError
  timed_out oversized_response different_community different_request_id different_oid no_varbind :
      RequestError
  undecoded : BerError → RequestError
  wrong_version wrong_pdu_type many_varbinds : ℕ → RequestError

pub data Answer : Type 0 where
  accepted : SnmpMessage → Answer
  refused : RequestError → Answer

abbrev pub max_response_bytes : ℕ
max_response_bytes = 8192

unfoldable pub is_from : SocketAddrV4 → Peer → Bool
is_from dest v6 = false
is_from dest (v4 address port) =
    let same_port = port == dest.port in if address == dest.address then same_port else false

-- Whether the first varbind is about this identifier.
unfoldable pub answers_about : Oid → List (Oid × BerValue) → Bool
answers_about oid [] = false
answers_about oid ((found, value) ∷ varbinds) = text_eq found oid

-- The checks on the varbinds, of an answer without an error status.
unfoldable pub check_varbinds : ℕ → Oid → SnmpMessage → Answer
check_varbinds pdu_type oid m =
    if length m.pdu.varbinds == 1
    then (if pdu_type == pdu_get_request
        then (if answers_about oid m.pdu.varbinds then accepted m else refused different_oid)
        else accepted m)
    else refused (many_varbinds (length m.pdu.varbinds))

-- The checks on a message that was decoded.
unfoldable pub check_message : SnmpTarget → ℕ → Oid → ℕ → SnmpMessage → Answer
check_message target pdu_type oid request_id m =
    if m.version == 1
    then (if text_eq m.community target.community
        then (if m.pdu.pdu_type == pdu_get_response
            then (if m.pdu.request_id == request_id
                then (if m.pdu.error_status == 0 then check_varbinds pdu_type oid m else accepted m)
                else refused different_request_id)
            else refused (wrong_pdu_type m.pdu.pdu_type))
        else refused different_community)
    else refused (wrong_version m.version)

unfoldable pub check_decoded : SnmpTarget → ℕ → Oid → ℕ → Result SnmpMessage → Answer
check_decoded target pdu_type oid request_id (ok m) = check_message target pdu_type oid request_id m
check_decoded target pdu_type oid request_id (err e) = refused (undecoded e)

-- The rows that a walk collected, and why it stopped.
pub data WalkEnd : Type 0 where
  end_of_mib_view left_subtree oid_did_not_advance : WalkEnd
  agent_error : ℕ → WalkEnd
  invalid : RequestError → WalkEnd
  bounded : Text → WalkEnd

pub record Walk : Type 0 where
  pub rows : List (Oid × BerValue)
  pub end : WalkEnd

-- `Walk::complete`
unfoldable pub complete : Walk → Bool
complete w = elim w.end [ end_of_mib_view ↦ true | left_subtree ↦ true | _ ↦ false ]

-- What one turn of the walk comes to: its end, or one more row.
pub data Turn : Type 0 where
  stop : WalkEnd → Turn
  row : Oid → BerValue → Turn

unfoldable pub first_row : Oid → Oid → List (Oid × BerValue) → Turn
first_row root current [] = stop (invalid no_varbind)
first_row root current ((next, value) ∷ varbinds) =
    if is_end_of_mib_view value
    then stop end_of_mib_view
    else if is_absent value
    then stop left_subtree
    else if starts_with next root
    then (if oid_leb next current then stop oid_did_not_advance else row next value)
    else stop left_subtree

unfoldable pub turn : Oid → Oid → Answer → Turn
turn root current (refused reason) = stop (invalid reason)
turn root current (accepted m) =
    if m.pdu.error_status == 0
    then first_row root current m.pdu.varbinds
    else stop (agent_error m.pdu.error_status)

-- What the walk meets in one turn: whether its time is out, the identifier that the request draws from the
-- clock, and the network.
pub record Step : Type 0 where
  pub is_expired : Bool
  pub request_id : ℕ
  pub network : List ℕ → Network

-- `lossy` is `String::from_utf8_lossy`.
module _ (lossy : List ℕ → Text) where
  -- The loop over the datagrams: one from elsewhere is skipped.
  unfoldable pub receive : SnmpTarget → ℕ → Oid → ℕ → List Arrival → Answer
  receive target pdu_type oid request_id [] = refused timed_out
  receive target pdu_type oid request_id (oversized_datagram ∷ arrivals) =
      refused oversized_response
  receive target pdu_type oid request_id (recv_error e ∷ arrivals) = refused (receive_error e)
  receive target pdu_type oid request_id (datagram from bs ∷ arrivals) =
      let later = receive target pdu_type oid request_id arrivals in
      if is_from target.transport from
      then (if ltb max_response_bytes (length bs)
          then refused oversized_response
          else check_decoded target pdu_type oid request_id (decode_snmp_response lossy bs))
      else later

  unfoldable pub received : SnmpTarget → ℕ → Oid → ℕ → Network → Answer
  received target pdu_type oid request_id (unbound e) = refused (bind_error e)
  received target pdu_type oid request_id (unsent e) = refused (send_error e)
  received target pdu_type oid request_id (listening arrivals) =
      receive target pdu_type oid request_id arrivals

  unfoldable pub snmp_request : SnmpTarget → ℕ → Oid → ℕ → (List ℕ → Network) → Answer
  snmp_request target pdu_type oid request_id network =
      received target pdu_type oid request_id
        (network (build_snmp_request 1 target.community request_id pdu_type oid))

  -- The walk, with the steps it has left, the next step's number, and what it has so far.
  unfoldable pub walk_from :
      SnmpTarget → Oid → (ℕ → Step) → ℕ → ℕ → Oid → List (Oid × BerValue) → Walk
  walk_from target root steps zero n current rows = record {
    rows = rows;
    end = bounded (bytes "the walk's step limit");
  }
  walk_from target root steps (suc left) n current rows =
      let next = λ (oid : Oid) (value : BerValue).
        walk_from target root steps left (suc n) oid (rows ++ (oid, value) ∷ []) in
      let step = steps n in
      if step.is_expired
      then record { rows = rows; end = bounded (bytes "the walk's total time budget") }
      else (elim (turn root current
          (snmp_request target pdu_get_next_request current step.request_id step.network)) [
            | stop e ↦ record { rows = rows; end = e }
            | row oid value ↦ next oid value
          ])

  unfoldable pub snmp_walk_target : SnmpTarget → Oid → (ℕ → Step) → ℕ → Walk
  snmp_walk_target target root steps max_steps = walk_from target root steps max_steps 0 root []
