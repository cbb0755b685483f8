-- ===== src/Probes/Usm/Checks.antt =====
-- The checks that an answer passes: `correlate`, `correlate_scoped` and `discovery_report_reason` of
-- src/probes/usm_state.rs, and `ReportReason::from_oid` of src/probes/snmp_v3.rs.
pub mod Accepts
use idnx.Common.{
  Text, ℕ, ◌≡◌, ◌↔◌, refl, Option, none, some, Bool, true, false, not, List, [], ◌∷◌, arith, ◌==◌,
  ◌&&◌, text_eq, text_eq_iff, if◌then◌else◌, ==_iff,
}

pub data ReportReason : Type 0 where
  unknown_engine_id unknown_user_name unsupported_security_level wrong_digest not_in_time_window
        decryption_error unknown_security_model invalid_message other :
      ReportReason

-- An object identifier, by its components.
abbrev pub Oid : Type 0
Oid = List ℕ

abbrev pub usm_stats : ℕ → Oid
usm_stats n = 1 ∷ 3 ∷ 6 ∷ 1 ∷ 6 ∷ 3 ∷ 15 ∷ 1 ∷ 1 ∷ n ∷ 0 ∷ []

abbrev pub mpd_stats : ℕ → Oid
mpd_stats n = 1 ∷ 3 ∷ 6 ∷ 1 ∷ 6 ∷ 3 ∷ 11 ∷ 2 ∷ 1 ∷ n ∷ 0 ∷ []

-- `ReportReason::from_oid`
unfoldable pub from_oid : Oid → ReportReason
from_oid oid =
    if text_eq oid (usm_stats 1)
    then unsupported_security_level
    else if text_eq oid (usm_stats 2)
    then not_in_time_window
    else if text_eq oid (usm_stats 3)
    then unknown_user_name
    else if text_eq oid (usm_stats 4)
    then unknown_engine_id
    else if text_eq oid (usm_stats 5)
    then wrong_digest
    else if text_eq oid (usm_stats 6)
    then decryption_error
    else if text_eq oid (mpd_stats 1)
    then unknown_security_model
    else if text_eq oid (mpd_stats 2)
    then invalid_message
    else other

-- An IPv4 socket address, by the number of its address and its port.
pub record SocketAddr : Type 0 where
  pub address : ℕ
  pub port : ℕ

-- Identifiers are `i32`s by their bit patterns: they are only compared.
pub record Expectation : Type 0 where
  pub source : SocketAddr
  pub engine_id : List ℕ
  pub message_id : ℕ
  pub request_id : ℕ
  pub pdu_type : ℕ
  pub oid : Option Oid

-- The fields of `DecodedMessage` that are read here.
pub record DecodedMessage : Type 0 where
  pub message_id : ℕ
  pub engine_id : List ℕ

-- `ScopedPdu` with its PDU, and values of a type `V`.
pub record ScopedPdu (V : Type 0) : Type 0 where
  pub context_engine_id : List ℕ
  pub pdu_type : ℕ
  pub request_id : ℕ
  pub error_status : ℕ
  pub varbinds : List (Oid × V)

pub data Refusal : Type 0 where
  wrong_source wrong_engine wrong_message_id wrong_request_id wrong_pdu_type wrong_varbind
        not_authenticated digest_failed untimely :
      Refusal
  malformed : Text → Refusal

pub data Checked (A : Type 0) : Type 0 where
  ok : A → Checked A
  err : Refusal → Checked A

abbrev pub addr_eq : SocketAddr → SocketAddr → Bool
addr_eq a b = a.address == b.address && a.port == b.port

unfoldable pub correlate : DecodedMessage → SocketAddr → Expectation → Checked (Unit {0})
correlate message from expectation =
    if not (addr_eq from expectation.source)
    then err wrong_source
    else if not (message.message_id == expectation.message_id)
    then err wrong_message_id
    else if not (text_eq message.engine_id expectation.engine_id)
    then err wrong_engine
    else ok tt

abbrev pub is_empty : List ℕ → Bool
is_empty [] = true
is_empty (_ ∷ _) = false

unfoldable pub is_discovery_report : ReportReason → Bool
is_discovery_report unknown_engine_id = true
is_discovery_report _ = false

-- `PDU_REPORT` of src/probes/snmp_v3.rs
abbrev pub pdu_report : ℕ
pdu_report = 0xa8

module _ {V : Type 0} where
  -- Exactly one varbind, about this object.
  abbrev pub answers : Oid → List (Oid × V) → Bool
  answers expected ((found, _) ∷ []) = text_eq found expected
  answers expected _ = false

  abbrev pub check_oid : Option Oid → ScopedPdu V → Checked (Unit {0})
  check_oid none scoped = ok tt
  check_oid (some expected) scoped =
      if scoped.error_status == 0 && not (answers expected scoped.varbinds)
      then err wrong_varbind
      else ok tt

  unfoldable pub correlate_scoped : ScopedPdu V → List ℕ → Expectation → Checked (Unit {0})
  correlate_scoped scoped engine_id expectation =
      if not (is_empty scoped.context_engine_id) && not (text_eq scoped.context_engine_id engine_id)
      then err wrong_engine
      else if not (scoped.pdu_type == expectation.pdu_type)
      then err wrong_pdu_type
      else if not (scoped.request_id == expectation.request_id)
      then err wrong_request_id
      else check_oid expectation.oid scoped

  abbrev pub reason_of : List (Oid × V) → Checked ReportReason
  reason_of ((oid, _) ∷ []) =
      let reason = from_oid oid in
      if is_discovery_report reason then ok reason else err wrong_varbind
  reason_of _ = err wrong_varbind

  unfoldable pub discovery_report_reason : ScopedPdu V → Expectation → Checked ReportReason
  discovery_report_reason scoped expectation =
      if not (scoped.pdu_type == pdu_report)
      then err wrong_pdu_type
      else if not (scoped.request_id == expectation.request_id)
      then err wrong_request_id
      else reason_of scoped.varbinds
