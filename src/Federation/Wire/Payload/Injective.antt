-- ===== src/Federation/Wire/Payload/Injective.antt =====
-- What the signed bytes of src/federation/wire.rs determine.
use mathlib.Core.List.{append-nil, append_assoc}
use mathlib.Core.Path.{ap₂}
use idnx.Common.{
  ℕ, Text, ◌^◌, ◌<◌, ◌≡◌, refl, sym, ◌∙◌, List, [], ◌∷◌, ◌++◌, arith, length, All, All-map,
}
use idnx.Common.Bytes.{to_be_bytes, word_inj, append_inj}
use idnx.Federation.Wire.Records.{WireEvidence}
use idnx.Federation.Wire.Payload.{push_field, domain, push_records, signing_payload}

-- A length that a `u64` holds.
abbrev pub IsShort {ℓ} : {A : Type ℓ} → List A → Type 0
IsShort xs = length xs < 256 ^ 8

-- One field in front of what follows it.
abbrev field : List ℕ → List ℕ → List ℕ
field text rest = to_be_bytes 8 (length text) ++ (text ++ rest)

field_inj :
    (s t us vs : List ℕ) → IsShort s → IsShort t → field s us ≡ field t vs → (s ≡ t) × (us ≡ vs)
field_inj s t us vs hs ht e =
    let (lengths, rest) = word_inj 8 (length s) (length t) (s ++ us) (t ++ vs) hs ht e in
    append_inj s t us vs lengths rest

module _ (encode : WireEvidence → List ℕ) where
  abbrev encoded : List WireEvidence → List ℕ
  encoded [] = []
  encoded (w ∷ ws) = field (encode w) (encoded ws)

  push_records-encoded :
      (ws : List WireEvidence) (payload : List ℕ)
      → push_records encode payload ws ≡ payload ++ encoded ws
  unfolding push_records push_field
  push_records-encoded [] payload = sym (append-nil payload)
  push_records-encoded (w ∷ ws) payload =
      push_records-encoded ws (push_field payload (encode w)) ∙ simp append_assoc

  -- Everything behind the domain string, nested to the right.
  abbrev body : ℕ → Text → Text → ℕ → ℕ → List WireEvidence → List ℕ
  body schema peer vantage sequence published records =
      to_be_bytes 2 schema
      ++ field peer (
          field vantage (
            to_be_bytes 8 sequence
            ++ (to_be_bytes 8 published ++ (to_be_bytes 8 (length records) ++ encoded records))))

  signing_payload-body :
      (schema : ℕ) (peer vantage : Text) (sequence published : ℕ) (records : List WireEvidence)
      → signing_payload encode schema peer vantage sequence published records
        ≡ domain ++ body schema peer vantage sequence published records
  unfolding signing_payload push_field
  signing_payload-body schema peer vantage sequence published records =
      push_records-encoded records _ ∙ simp append_assoc

  -- The bounds that the Rust types give: a `u16`, two `u64`s, and lengths in memory.
  pub record Fits (schema : ℕ) (peer vantage : Text) (sequence published : ℕ)
      (records : List WireEvidence) : Type 0 where
    pub schema_fits : schema < 256 ^ 2
    pub peer_fits : IsShort peer
    pub vantage_fits : IsShort vantage
    pub sequence_fits : sequence < 256 ^ 8
    pub published_fits : published < 256 ^ 8
    pub records_fit : IsShort records
    pub each_fits : All (λ w. IsShort (encode w)) records

  -- A record of the one list and a record of the other that have one encoding are the same.
  abbrev pub IsFaithful : List WireEvidence → List WireEvidence → Type 0
  IsFaithful vs ws = All (λ v. All (λ w. encode v ≡ encode w → v ≡ w) ws) vs

  encoded_inj :
      (vs ws : List WireEvidence)
      → IsFaithful vs ws
      → All (λ w. IsShort (encode w)) vs
      → All (λ w. IsShort (encode w)) ws
      → length vs ≡ length ws
      → encoded vs ≡ encoded ws
      → vs ≡ ws
  encoded_inj [] [] faithful hv hw n e = refl
  encoded_inj (v ∷ vs) (w ∷ ws) faithful hv hw n e =
      let (head, tail) = field_inj (encode v) (encode w) (encoded vs) (encoded ws) hv.0 hw.0 e in
      let below : IsFaithful vs ws = All-map _ _ vs (λ u h. h.1) faithful.1 in
      ap₂ ◌∷◌ (faithful.0.0 head) (encoded_inj vs ws below hv.1 hw.1 (omega arith) tail)
  encoded_inj [] (w ∷ ws) faithful hv hw n e = absurd (omega arith)
  encoded_inj (v ∷ vs) [] faithful hv hw n e = absurd (omega arith)

  module _ (schema schema' : ℕ) (peer peer' vantage vantage' : Text)
      (sequence sequence' published published' : ℕ) (records records' : List WireEvidence)
      (faithful : IsFaithful records records')
      (fits : Fits schema peer vantage sequence published records)
      (fits' : Fits schema' peer' vantage' sequence' published' records') where
    body_inj :
        body schema peer vantage sequence published records
          ≡ body schema' peer' vantage' sequence' published' records'
        → (schema ≡ schema')
          × (peer ≡ peer')
          × (vantage ≡ vantage')
          × (sequence ≡ sequence')
          × (published ≡ published')
          × (records ≡ records')
    body_inj e =
        let (e1, r1) = word_inj 2 schema schema' _ _ fits.schema_fits fits'.schema_fits e in
        let (e2, r2) = field_inj peer peer' _ _ fits.peer_fits fits'.peer_fits r1 in
        let (e3, r3) = field_inj vantage vantage' _ _ fits.vantage_fits fits'.vantage_fits r2 in
        let (e4, r4) =
          word_inj 8 sequence sequence' _ _ fits.sequence_fits fits'.sequence_fits r3 in
        let (e5, r5) =
          word_inj 8 published published' _ _ fits.published_fits fits'.published_fits r4 in
        let (e6, r6) =
          word_inj 8 (length records) (length records') _ _ fits.records_fit fits'.records_fit r5 in
        (
          e1,
          e2,
          e3,
          e4,
          e5,
          encoded_inj records records' faithful fits.each_fits fits'.each_fits e6 r6,
        )

    -- Where two different records of the bundles have different encodings, and every number and length
    -- is in its Rust type, two bundles with the same signed bytes have the same
    -- schema version, peer, vantage, sequence, time and records.
    pub signing_payload_inj :
        signing_payload encode schema peer vantage sequence published records
          ≡ signing_payload encode schema' peer' vantage' sequence' published' records'
        → (schema ≡ schema')
          × (peer ≡ peer')
          × (vantage ≡ vantage')
          × (sequence ≡ sequence')
          × (published ≡ published')
          × (records ≡ records')
    signing_payload_inj e =
        body_inj
          (append_inj domain domain _ _ refl (
            sym (signing_payload-body schema peer vantage sequence published records)
            ∙ e
            ∙ signing_payload-body schema' peer' vantage' sequence' published' records')).1
