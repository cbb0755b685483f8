-- ===== src/Examples/Signing.antt =====
-- Identities and bundles of src/federation/identity.rs and bundle.rs, with the toy scheme's key 7.
use idnx.Common.{ℕ, ◌≡◌, List, [], ◌∷◌, some, bytes, length, true, to_ascii_lowercase}
use idnx.Topology.Evidence.{SystemTime}
use idnx.Federation.Identity.{decode_hex, to_hex}
use idnx.Federation.Bundle.{
  EvidenceBundle, schema_version_now, payload_of, signed_by, verify, publish, id,
}
use idnx.Federation.Bundle.Signed.{verify-publish, verify-IsSignedBy}
use idnx.Examples.Fixtures.{plain, toy, toy-IsSound, sighting, encode}

abbrev letter : EvidenceBundle
letter = publish toy encode plain 7 (bytes "roof") 5 (sighting ∷ []) (SystemTime.after_epoch 90 0)

verify-publish_example :
    verify toy encode
      (publish toy encode plain 7 (bytes "roof") 5 (sighting ∷ []) (SystemTime.after_epoch 90 0))
    ≡ signed_by (id toy 7)
verify-publish_example =
    verify-publish toy encode toy-IsSound plain 7 (bytes "roof") 5 (sighting ∷ [])
      (SystemTime.after_epoch 90 0)

letter_verifies : verify toy encode letter ≡ signed_by (id toy 7)
letter_verifies =
    verify-publish toy encode toy-IsSound plain 7 (bytes "roof") 5 (sighting ∷ [])
      (SystemTime.after_epoch 90 0)

verify-IsSignedBy_example :
    (letter.schema_version ≡ schema_version_now)
    × (to_hex (id toy 7) ≡ to_ascii_lowercase letter.peer)
    × ((signature : List ℕ) × (decode_hex letter.signature ≡ some signature)
        × (length signature ≡ 64)
        × (toy.checks (id toy 7).key (payload_of encode letter) signature ≡ true))
verify-IsSignedBy_example = verify-IsSignedBy toy encode letter (id toy 7) letter_verifies
