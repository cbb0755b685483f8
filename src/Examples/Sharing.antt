-- ===== src/Examples/Sharing.antt =====
-- The wire conversions of src/federation/wire.rs, at one sighting of a neighbour.
use idnx.Common.{ℕ, ◌≡◌, refl, List, [], ◌∷◌, bytes, ◌≤◌, arith, to_ascii_lowercase, lower_byte}
use idnx.Topology.Evidence.{unix_seconds}
use idnx.Federation.Wire.Errors.{ok}
use idnx.Federation.Wire.Names.{source_wire}
use idnx.Federation.Wire.Records.{WireEvidence}
use idnx.Federation.Wire.Convert.{from_evidence, to_evidence}
use idnx.Federation.Wire.Convert.RoundTrip.{received, IsExpressible, to_evidence-from_evidence}
use idnx.Federation.Wire.Payload.Injective.{Fits, signing_payload_inj}
use idnx.Examples.Fixtures.{plain, plain-IsReadable, sighting, encode}

lower_mac : IsExpressible sighting.fact
unfolding to_ascii_lowercase lower_byte
lower_mac = refl

early : unix_seconds sighting.observed_at ≤ 10_000
unfolding unix_seconds
early = omega arith

abbrev sent : WireEvidence
sent = from_evidence plain sighting

to_evidence-from_evidence_example :
    to_evidence plain (from_evidence plain sighting) ≡ ok (received sighting)
to_evidence-from_evidence_example =
    to_evidence-from_evidence plain plain-IsReadable sighting lower_mac early

abbrev batch : List WireEvidence
batch = record sent { vantage = bytes "attic" } ∷ []

batch-Fits : Fits encode 1 (bytes "0a") (bytes "roof") 5 90 batch
unfolding from_evidence source_wire
batch-Fits = record {
  schema_fits = omega arith;
  peer_fits = omega arith;
  vantage_fits = omega arith;
  sequence_fits = omega arith;
  published_fits = omega arith;
  records_fit = omega arith;
  each_fits = (omega arith, tt);
}

signing_payload_inj_example :
    (◌≡◌ {A = ℕ} 1 1)
    × (bytes "0a" ≡ bytes "0a")
    × (bytes "roof" ≡ bytes "roof")
    × (◌≡◌ {A = ℕ} 5 5)
    × (◌≡◌ {A = ℕ} 90 90)
    × (batch ≡ batch)
signing_payload_inj_example =
    signing_payload_inj encode 1 1 (bytes "0a") (bytes "0a") (bytes "roof") (bytes "roof") 5 5 90 90
      batch batch ((λ e. refl, tt), tt) batch-Fits batch-Fits refl
