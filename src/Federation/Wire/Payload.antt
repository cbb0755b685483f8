-- ===== src/Federation/Wire/Payload.antt =====
-- `signing_payload` and `push_field` of src/federation/wire.rs: the bytes that are signed.
pub mod Injective
use idnx.Common.{ℕ, Text, bytes, List, [], ◌∷◌, ◌++◌, length}
use idnx.Common.Bytes.{to_be_bytes}
use idnx.Federation.Wire.Records.{WireEvidence}

unfoldable pub push_field : List ℕ → List ℕ → List ℕ
push_field payload field = (payload ++ to_be_bytes 8 (length field)) ++ field

-- `b"idnx-federation-v1\n"`
abbrev pub domain : List ℕ
domain = bytes "idnx-federation-v1" ++ 10 ∷ []

-- `encode` is `serde_json::to_vec(record).unwrap_or_default()`.
module _ (encode : WireEvidence → List ℕ) where
  unfoldable pub push_records : List ℕ → List WireEvidence → List ℕ
  unfolding push_field
  push_records payload [] = payload
  push_records payload (w ∷ ws) = push_records (push_field payload (encode w)) ws

  unfoldable pub signing_payload : ℕ → Text → Text → ℕ → ℕ → List WireEvidence → List ℕ
  signing_payload schema_version peer vantage sequence published_at records =
      let start = domain ++ to_be_bytes 2 schema_version in
      let with_peer = push_field start peer in
      let with_vantage = push_field with_peer vantage in
      let with_sequence = with_vantage ++ to_be_bytes 8 sequence in
      let with_time = with_sequence ++ to_be_bytes 8 published_at in
      let with_count = with_time ++ to_be_bytes 8 (length records) in
      push_records with_count records
