-- ===== src/Federation/Bundle/Signed.antt =====
-- Publishing and verifying bundles: src/federation/bundle.rs.
use idnx.Common.{
  ℕ, Text, ◌<◌, ◌≡◌, refl, some, true, List, arith, All, length, to_ascii_lowercase, Option-cases,
  inl, inr,
}
use idnx.Topology.Evidence.{SystemTime}
use idnx.Federation.Identity.{
  Crypto, PeerId, IdResult, decode_hex, from_hex, verify_signature, to_hex,
}
use idnx.Federation.Identity.Hex.{decode_hex-encode_hex, to_hex-from_hex}
use idnx.Federation.Wire.Records.{WireEvidence}
use idnx.Federation.Wire.Convert.{Formats, Evidence}
use idnx.Federation.Bundle.{
  EvidenceBundle, signed_by, schema_version_now, payload_of, verify, id, publish,
}

-- What Ed25519 promises of honest keys: their sizes, and that a signature checks.
pub record IsSound (c : Crypto) : Type 0 where
  pub key_size : (k : c.SigningKey) → length (c.verifying_key k) ≡ 32
  pub key_bytes : (k : c.SigningKey) → All (λ b. b < 256) (c.verifying_key k)
  pub key_valid : (k : c.SigningKey) → c.is_key (c.verifying_key k) ≡ true
  pub signature_size : (k : c.SigningKey) (m : List ℕ) → length (c.sign k m) ≡ 64
  pub signature_bytes : (k : c.SigningKey) (m : List ℕ) → All (λ b. b < 256) (c.sign k m)
  pub signature_checks :
      (k : c.SigningKey) (m : List ℕ) → c.checks (c.verifying_key k) m (c.sign k m) ≡ true

module _ (c : Crypto) (encode : WireEvidence → List ℕ) where
  from_hex-to_hex :
      IsSound c → (k : c.SigningKey) → from_hex c (to_hex (id c k)) ≡ IdResult.ok (id c k)
  unfolding from_hex to_hex
  from_hex-to_hex sound k = ground (
    arith,
    decode_hex-encode_hex (c.verifying_key k) (sound.key_bytes k),
    sound.key_size k,
    sound.key_valid k,
  )

  signed_bundle :
      (b : EvidenceBundle) (peer : PeerId) (signature : List ℕ)
      → b.schema_version ≡ schema_version_now
      → from_hex c b.peer ≡ IdResult.ok peer
      → decode_hex b.signature ≡ some signature
      → length signature ≡ 64
      → c.checks peer.key (payload_of encode b) signature ≡ true
      → verify c encode b ≡ signed_by peer
  unfolding verify verify_signature
  signed_bundle b peer signature hv hp hs hl hc = ground arith

  -- Where honest signatures check and have their sizes, a bundle that was published verifies, and as
  -- the publisher's.
  pub verify-publish :
      IsSound c
      → (f : Formats) (k : c.SigningKey) (vantage : Text) (sequence : ℕ)
        (evidence : List (Evidence f)) (now : SystemTime)
      → verify c encode (publish c encode f k vantage sequence evidence now) ≡ signed_by (id c k)
  unfolding publish
  verify-publish sound f k vantage sequence evidence now =
      signed_bundle (publish c encode f k vantage sequence evidence now) (id c k) (c.sign k _) refl
        (from_hex-to_hex sound k) (decode_hex-encode_hex (c.sign k _) (sound.signature_bytes k _))
        (sound.signature_size k _) (sound.signature_checks k _)

  -- A bundle that verifies as a peer's has this schema version, names that peer by its hex form in
  -- any case, and carries 64 bytes that check as the peer's signature of all its other fields.
  pub verify-IsSignedBy :
      (b : EvidenceBundle) (peer : PeerId)
      → verify c encode b ≡ signed_by peer
      → (b.schema_version ≡ schema_version_now)
        × (to_hex peer ≡ to_ascii_lowercase b.peer)
        × ((signature : List ℕ) × (decode_hex b.signature ≡ some signature)
            × (length signature ≡ 64)
            × (c.checks peer.key (payload_of encode b) signature ≡ true))
  unfolding verify verify_signature
  verify-IsSignedBy b peer h = elim (Option-cases (decode_hex b.signature)) [
    | inl e ↦ absurd (ground arith)
    | inr (signature, e) ↦ (
      ground arith,
      ground (arith, to_hex-from_hex c b.peer peer),
      (signature, e, ground arith, ground arith),
    )
  ]
