-- ===== src/Federation/Bundle.antt =====
-- src/federation/bundle.rs: signed bundles of evidence.
pub mod Signed
use idnx.Common.{
  ℕ, Text, bytes, Option, none, some, Bool, true, false, List, [], ◌∷◌, map, ◌==◌, if◌then◌else◌,
}
use idnx.Topology.Evidence.{SystemTime, unix_seconds}
use idnx.Federation.Identity
use idnx.Federation.Identity.{
  IdentityError, Crypto, PeerId, IdResult, encode_hex, decode_hex, from_hex, verify_signature,
  to_hex,
}
use idnx.Federation.Wire.Records.{WireEvidence}
use idnx.Federation.Wire.Convert.{Formats, Evidence, from_evidence}
use idnx.Federation.Wire.Payload.{signing_payload}

-- `SCHEMA_VERSION` of src/federation/wire.rs
abbrev pub schema_version_now : ℕ
schema_version_now = 1

pub record EvidenceBundle : Type 0 where
  pub schema_version : ℕ
  pub peer : Text
  pub vantage : Text
  pub sequence : ℕ
  pub published_at : ℕ
  pub records : List WireEvidence
  pub signature : Text

pub data BundleError : Type 0 where
  unsupported_schema : ℕ → BundleError
  identity : IdentityError → BundleError

pub data Verdict : Type 0 where
  signed_by : PeerId → Verdict
  invalid : BundleError → Verdict

-- The bytes that the signature of a bundle covers.
abbrev pub payload_of : (WireEvidence → List ℕ) → EvidenceBundle → List ℕ
payload_of encode b =
    signing_payload encode b.schema_version b.peer b.vantage b.sequence b.published_at b.records

-- `PeerKey::id`
abbrev pub id : (c : Crypto) → c.SigningKey → PeerId
id c key = record { key = c.verifying_key key }

-- `encode` is the JSON form of a record.
module _ (c : Crypto) (encode : WireEvidence → List ℕ) where
  check_signature : EvidenceBundle → PeerId → List ℕ → Verdict
  check_signature b peer signature =
      elim (verify_signature c peer (payload_of encode b) signature) [
        | IdResult.ok _ ↦ signed_by peer
        | IdResult.err e ↦ invalid (identity e)
      ]

  decode_signature : EvidenceBundle → PeerId → Verdict
  unfolding check_signature
  decode_signature b peer = elim (decode_hex b.signature) [
    | none ↦ invalid (identity IdentityError.bad_signature)
    | some signature ↦ check_signature b peer signature
  ]

  -- `EvidenceBundle::verify`
  unfoldable pub verify : EvidenceBundle → Verdict
  unfolding decode_signature
  verify b =
      if b.schema_version == schema_version_now
      then elim (from_hex c b.peer) [
        | IdResult.err e ↦ invalid (identity e)
        | IdResult.ok peer ↦ decode_signature b peer
      ]
      else invalid (unsupported_schema b.schema_version)

  module _ (f : Formats) where
    -- `EvidenceBundle::publish`; `now` is `SystemTime::now()`.
    unfoldable pub publish :
        c.SigningKey → Text → ℕ → List (Evidence f) → SystemTime → EvidenceBundle
    publish key vantage sequence evidence now =
        let records = map (from_evidence f) evidence in
        let peer = to_hex (id c key) in
        let published_at = unix_seconds now in
        let signature =
          c.sign key (
            signing_payload encode schema_version_now peer vantage sequence published_at records) in
        record {
          schema_version = schema_version_now;
          peer = peer;
          vantage = vantage;
          sequence = sequence;
          published_at = published_at;
          records = records;
          signature = encode_hex signature;
        }
