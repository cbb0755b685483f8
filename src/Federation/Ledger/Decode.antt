-- ===== src/Federation/Ledger/Decode.antt =====
-- The loop of `prepare` over a bundle's records, with the reasons sorted and each listed once.
use idnx.Common.{
  Text, bytes, Bool, true, false, List, [], ◌∷◌, ◌++◌, ltb, ◌==◌, text_eq, if◌then◌else◌, ◌||◌,
  ◌&&◌,
}
use idnx.Topology.Evidence.{PeerOrigin, from_peer}
use idnx.Federation.Wire.Errors.{WireError, malformed, unknown, Outcome}
use idnx.Federation.Wire.Records.{WireEvidence}
use idnx.Federation.Wire.Convert.{Formats, Evidence, to_evidence}

-- `WireError`'s `Display`
unfoldable pub error_text : WireError → Text
error_text (malformed what) = bytes "malformed " ++ what
error_text (unknown what) = bytes "unknown " ++ what

-- `String`'s order: by bytes, a prefix first.
unfoldable pub text_le : Text → Text → Bool
text_le [] t = true
text_le (a ∷ s) [] = false
text_le (a ∷ s) (b ∷ t) = ltb a b || (a == b && text_le s t)

unfoldable pub insert_sorted : Text → List Text → List Text
unfolding text_le
insert_sorted t [] = t ∷ []
insert_sorted t (u ∷ us) =
    let rest = insert_sorted t us in if text_le t u then t ∷ u ∷ us else u ∷ rest

-- `sort`
unfoldable pub sort : List Text → List Text
unfolding insert_sorted
sort [] = []
sort (t ∷ ts) = insert_sorted t (sort ts)

-- `dedup`: of equal neighbours the first stays.
unfoldable pub dedup : List Text → List Text
dedup [] = []
dedup (t ∷ []) = t ∷ []
dedup (t ∷ u ∷ us) = let rest = dedup (u ∷ us) in if text_eq t u then rest else t ∷ rest

pub data Decoded (f : Formats) : Type 0 where
  decoded : List (Evidence f) → List Text → Decoded f
  decode_panicked : Decoded f

module _ (f : Formats) (origin : PeerOrigin) where
  -- The evidence and the reasons so far; a conversion that panics ends it.
  unfoldable pub decode_records : List WireEvidence → List (Evidence f) → List Text → Decoded f
  unfolding from_peer error_text
  decode_records [] evidence undecoded = decoded evidence undecoded
  decode_records (w ∷ ws) evidence undecoded = elim (to_evidence f w) [
    | Outcome.ok e ↦ decode_records ws (evidence ++ from_peer e origin ∷ []) undecoded
    | Outcome.err x ↦ decode_records ws evidence (undecoded ++ error_text x ∷ [])
    | Outcome.panicked ↦ decode_panicked
  ]
