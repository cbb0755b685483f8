-- ===== src/Probes/Usm/Checks/Accepts.antt =====
-- The answers that the checks of src/probes/usm_state.rs let through.
use idnx.Common.{
  ℕ, ◌≡◌, ◌≢◌, ◌↔◌, ◌⊎◌, inl, inr, refl, Option, none, some, true, List, [], ◌∷◌, arith,
  text_eq_iff, text_eq_refl, Bool-cases,
}
use idnx.Probes.Usm.Checks.{
  ReportReason, unknown_engine_id, Oid, usm_stats, from_oid, SocketAddr, Expectation,
  DecodedMessage, ScopedPdu, ok, correlate, answers, check_oid, is_empty, correlate_scoped,
  is_discovery_report, pdu_report, reason_of, discovery_report_reason,
}

-- A message is correlated exactly if it came from the address that was asked, with the message
-- identifier that was sent and from the engine that was asked.
pub correlate_iff :
    (message : DecodedMessage) (from : SocketAddr) (expectation : Expectation)
    → (correlate message from expectation ≡ ok tt) ↔ (
        (from ≡ expectation.source)
        × (message.message_id ≡ expectation.message_id)
        × (message.engine_id ≡ expectation.engine_id))
unfolding correlate
correlate_iff message from expectation = (
  λ h. ground (arith, text_eq_iff message.engine_id expectation.engine_id),
  λ h. ground (arith, text_eq_iff message.engine_id expectation.engine_id),
)

unknown_engine_oid : (oid : Oid) → from_oid oid ≡ unknown_engine_id → oid ≡ usm_stats 4
unfolding from_oid
unknown_engine_oid oid h = ground (arith, text_eq_iff oid (usm_stats 4))

empty_iff : (l : List ℕ) → (is_empty l ≡ true) ↔ (l ≡ [])
empty_iff [] = (λ h. refl, λ h. refl)
empty_iff (x ∷ l) = (λ h. cc, λ h. cc)

module _ {V : Type 0} where
  -- About exactly the object that was asked for, if one was and the agent reports no error.
  abbrev pub IsAbout : Option Oid → ScopedPdu V → Type 0
  IsAbout none scoped = Unit
  IsAbout (some expected) scoped =
      (scoped.error_status ≢ 0) ⊎ ((value : V) × (scoped.varbinds ≡ (expected, value) ∷ []))

  answers_one :
      (expected : Oid) (varbinds : List (Oid × V))
      → answers expected varbinds ≡ true
      → (value : V) × (varbinds ≡ (expected, value) ∷ [])
  answers_one expected ((found, value) ∷ []) h = (value, ground (arith, text_eq_iff found expected))
  answers_one expected [] h = cc
  answers_one expected (x ∷ y ∷ rest) h = ground arith

  check_oid-IsAbout :
      (oid : Option Oid) (scoped : ScopedPdu V) → check_oid oid scoped ≡ ok tt → IsAbout oid scoped
  check_oid-IsAbout none scoped h = tt
  check_oid-IsAbout (some expected) scoped h =
      elim (Bool-cases (answers expected scoped.varbinds)) [
        | inl yes' ↦ inr (answers_one expected scoped.varbinds yes')
        | inr no' ↦ inl (ground arith)
      ]

  IsAbout-check_oid :
      (oid : Option Oid) (scoped : ScopedPdu V) → IsAbout oid scoped → check_oid oid scoped ≡ ok tt
  IsAbout-check_oid none scoped h = refl
  IsAbout-check_oid (some expected) scoped (inl h) = ground arith
  IsAbout-check_oid (some expected) scoped (inr (value, e)) =
      let one : answers expected scoped.varbinds ≡ true = rw e (text_eq_refl expected) in
      ground arith

  -- An answer's scoped PDU is accepted exactly if its context is empty or the engine that answered,
  -- its type and request identifier are those expected, and, where an object was asked for and no
  -- error is reported, it holds one varbind, about that object.
  pub correlate_scoped_iff :
      (scoped : ScopedPdu V) (engine_id : List ℕ) (expectation : Expectation)
      → (correlate_scoped scoped engine_id expectation ≡ ok tt) ↔ (
          ((scoped.context_engine_id ≡ []) ⊎ (scoped.context_engine_id ≡ engine_id))
          × (scoped.pdu_type ≡ expectation.pdu_type)
          × (scoped.request_id ≡ expectation.request_id)
          × IsAbout expectation.oid scoped)
  unfolding correlate_scoped
  correlate_scoped_iff scoped engine_id expectation = (
    λ h. (
      ground (
        arith,
        empty_iff scoped.context_engine_id,
        text_eq_iff scoped.context_engine_id engine_id,
      ),
      ground arith,
      ground arith,
      check_oid-IsAbout expectation.oid scoped (ground arith),
    ),
    λ h. ground (
      arith,
      empty_iff scoped.context_engine_id,
      text_eq_iff scoped.context_engine_id engine_id,
      IsAbout-check_oid expectation.oid scoped h.3,
      h.0,
      h.1,
      h.2,
    ),
  )

  reason_of_ok :
      (varbinds : List (Oid × V)) (reason : ReportReason)
      → reason_of varbinds ≡ ok reason
      → (reason ≡ unknown_engine_id) × ((value : V) × (varbinds ≡ (usm_stats 4, value) ∷ []))
  unfolding is_discovery_report
  reason_of_ok ((oid, value) ∷ []) reason h =
      let known : from_oid oid ≡ unknown_engine_id = ground arith in
      (ground arith, (value, rw (unknown_engine_oid oid known)))
  reason_of_ok [] reason h = cc
  reason_of_ok (x ∷ y ∷ rest) reason h = ground arith

  -- A Report is taken as the answer to discovery only if it is a Report with the request identifier
  -- that was sent and one varbind, about usmStatsUnknownEngineIDs.0; and that is its reason.
  pub discovery_report_reason_ok :
      (scoped : ScopedPdu V) (expectation : Expectation) (reason : ReportReason)
      → discovery_report_reason scoped expectation ≡ ok reason
      → (scoped.pdu_type ≡ pdu_report)
        × (scoped.request_id ≡ expectation.request_id)
        × (reason ≡ unknown_engine_id)
        × ((value : V) × (scoped.varbinds ≡ (usm_stats 4, value) ∷ []))
  unfolding discovery_report_reason
  discovery_report_reason_ok scoped expectation reason h =
      let (known, about) =
        reason_of_ok scoped.varbinds reason (reads scoped expectation reason h) in
      (ground arith, ground arith, known, about)
    where
      reads :
          (scoped : ScopedPdu V) (expectation : Expectation) (reason : ReportReason)
          → discovery_report_reason scoped expectation ≡ ok reason
          → reason_of scoped.varbinds ≡ ok reason
      reads scoped expectation reason h = ground arith
