-- ===== src/Federation/Wire/Convert/Resend.antt =====
-- Accepted records of src/federation/wire.rs, sending them on, and panics.
use idnx.Common.{Text, ◌≤◌, ◌<◌, ◌≡◌, ◌≢◌, none, arith}
use idnx.Topology.Evidence.{SystemTime}
use idnx.Federation.Wire.Errors.{ok, panicked, Ensures-eq_ok, Ensures-ne-panicked, ok_or-IsSafe}
use idnx.Federation.Wire.Names.{source_wire, confidence_wire}
use idnx.Federation.Wire.Names.Reading.{source_from_wire, confidence_from_wire}
use idnx.Federation.Wire.Names.Sound.{
  source_wire-source_from_wire, confidence_wire-confidence_from_wire,
}
use idnx.Federation.Wire.Records.{WireEvidence}
use idnx.Federation.Wire.Convert.{Formats, Evidence, fact_from_wire, time_of, to_evidence}
use idnx.Federation.Wire.Convert.RoundTrip.{IsExpressible}
use idnx.Federation.Wire.Convert.Accepts.{fact_from_wire-IsExpressible}

module _ (f : Formats) where
  open f use {debug, latest}

  -- What the steps of a successful conversion returned.
  pub record Accepted (w : WireEvidence) (e : Evidence f) : Type 0 where
    pub fact : fact_from_wire f w.fact ≡ ok e.fact
    pub source : source_from_wire debug w.source ≡ ok e.source
    pub confidence : confidence_from_wire debug w.confidence ≡ ok e.confidence
    pub fits : w.observed_at ≤ latest
    pub time : e.observed_at ≡ SystemTime.after_epoch w.observed_at 0
    pub vantage : e.vantage ≡ w.vantage
    pub detail : e.detail ≡ w.detail
    pub origin : e.origin ≡ none

  pub to_evidence-Accepted :
      (w : WireEvidence) (e : Evidence f) → to_evidence f w ≡ ok e → Accepted w e
  unfolding to_evidence time_of
  to_evidence-Accepted w e h = ground arith

  -- An accepted record keeps the names of its source and its confidence, its vantage, its detail
  -- and its time; its fact is expressible, and it has no origin.
  pub to_evidence_keeps :
      (w : WireEvidence) (e : Evidence f)
      → to_evidence f w ≡ ok e
      → IsExpressible e.fact
        × (source_wire e.source ≡ w.source)
        × (confidence_wire e.confidence ≡ w.confidence)
        × (e.vantage ≡ w.vantage)
        × (e.detail ≡ w.detail)
        × (e.observed_at ≡ SystemTime.after_epoch w.observed_at 0)
        × (e.origin ≡ none)
  to_evidence_keeps w e h =
      let a = to_evidence-Accepted w e h in
      (
        Ensures-eq_ok IsExpressible (fact_from_wire f w.fact)
            (fact_from_wire-IsExpressible f w.fact) a.fact,
        source_wire-source_from_wire debug w.source e.source a.source,
        confidence_wire-confidence_from_wire debug w.confidence e.confidence a.confidence,
        a.vantage,
        a.detail,
        a.time,
        a.origin,
      )

  source-ne-panicked : (name : Text) → source_from_wire debug name ≢ panicked
  unfolding source_from_wire
  source-ne-panicked name = Ensures-ne-panicked _ _ (ok_or-IsSafe _ _)

  confidence-ne-panicked : (name : Text) → confidence_from_wire debug name ≢ panicked
  unfolding confidence_from_wire
  confidence-ne-panicked name = Ensures-ne-panicked _ _ (ok_or-IsSafe _ _)

  -- `to_evidence` panics only on a time that is later than the platform's clock type holds.
  pub late_of_panicked : (w : WireEvidence) → to_evidence f w ≡ panicked → latest < w.observed_at
  unfolding to_evidence time_of
  late_of_panicked w h = ground (
    arith,
    Ensures-ne-panicked IsExpressible (fact_from_wire f w.fact)
        (fact_from_wire-IsExpressible f w.fact),
    source-ne-panicked w.source,
    confidence-ne-panicked w.confidence,
  )
