-- ===== src/Federation/Limits/Bounds.antt =====
-- The bundles that pass `check_message` of src/federation/transport.rs.
use idnx.Common.{
  ℕ, ◌≤◌, ◌≡◌, ◌↔◌, refl, Text, bytes, Option, some, none, List, [], ◌∷◌, ◌++◌, arith, length, All,
  contains, starts_with,
}
use idnx.Federation.Wire.Records.{WireEvidence, WireFact, WireDevice}
use idnx.Federation.Wire.Records.Fields.{
  TextField, text_fields, fact_fields, device_fields, previous_fields, optional_field,
}
use idnx.Federation.Bundle.{EvidenceBundle}
use idnx.Federation.Limits.{
  Checked, passed, refused, ◌before◌, check_record_count, check_text, limit_of, check_fields,
  check_all_records, check_message, max_records, max_text_bytes, max_vantage_bytes,
}

abbrev IsBounded : TextField → Type 0
IsBounded f = length f.1 ≤ limit_of f.0

check_text_iff :
    (field text : Text) (limit : ℕ) → (check_text field text limit ≡ passed) ↔ (length text ≤ limit)
unfolding check_text
check_text_iff field text limit = (λ h. ground arith, λ h. ground arith)

before_iff : (a b : Checked) → ((a before b) ≡ passed) ↔ ((a ≡ passed) × (b ≡ passed))
before_iff passed b = (λ h. (refl, h), λ h. h.1)
before_iff (refused e) b = (λ h. cc, λ h. cc)

check_fields_iff : (fields : List TextField) → (check_fields fields ≡ passed) ↔ All IsBounded fields
unfolding check_fields
check_fields_iff [] = (λ h. tt, λ h. refl)
check_fields_iff ((field, value) ∷ fields) =
    let both = before_iff (check_text field value (limit_of field)) (check_fields fields) in
    let here = check_text_iff field value (limit_of field) in
    let rest = check_fields_iff fields in
    (λ h. (here.0 (both.0 h).0, rest.0 (both.0 h).1), λ h. both.1 (here.1 h.0, rest.1 h.1))

-- No field of a fact has a vantage's name, so each has the bound of a text.
abbrev IsText : TextField → Type 0
IsText f = limit_of f.0 ≡ max_text_bytes

All-append {κ} :
    {A : Type 0} (P : A → Type κ) (xs ys : List A) → All P xs → All P ys → All P (xs ++ ys)
All-append P [] ys h k = k
All-append P (x ∷ xs) ys h k = (h.0, All-append P xs ys h.1 k)

device_texts : (d : WireDevice) → All IsText (device_fields d)
unfolding device_fields limit_of contains starts_with
device_texts (WireDevice.mac m) = (refl, tt)
device_texts (WireDevice.address a) = (refl, tt)
device_texts (WireDevice.scoped_address a z) = (refl, (refl, tt))

with_device :
    (d : WireDevice) (more : List TextField)
    → All IsText more
    → All IsText (device_fields d ++ more)
with_device d more h = All-append IsText (device_fields d) more (device_texts d) h

optional_texts :
    (name : Text) (o : Option Text)
    → limit_of name ≡ max_text_bytes
    → All IsText (optional_field name o)
optional_texts name none h = tt
optional_texts name (some t) h = (h, tt)

fact_texts : (fact : WireFact) → All IsText (fact_fields fact)
unfolding fact_fields limit_of contains starts_with previous_fields
fact_texts (WireFact.network p) = (refl, tt)
fact_texts (WireFact.vlan id) = tt
fact_texts (WireFact.vlan_network id n) = (refl, tt)
fact_texts (WireFact.interface_network i p) = (refl, (refl, tt))
fact_texts (WireFact.device_address d a) = with_device d _ (refl, tt)
fact_texts (WireFact.device_hostname d h) = with_device d _ (refl, tt)
fact_texts (WireFact.device_vendor d v) = with_device d _ (refl, tt)
fact_texts (WireFact.device_description d t) = with_device d _ (refl, tt)
fact_texts (WireFact.device_role_signal d s l) =
    with_device d _ (refl, optional_texts (bytes "role signal label") l refl)
fact_texts (WireFact.device_capability d c t) =
    with_device d _ (refl, optional_texts (bytes "capability detail") t refl)
fact_texts (WireFact.gateway_for d n) = with_device d _ (refl, tt)
fact_texts (WireFact.routes_to d n h) =
    with_device d _ (refl, optional_texts (bytes "next hop") h refl)
fact_texts (WireFact.attached_to d n) = with_device d _ (refl, tt)
fact_texts (WireFact.bridge_link b r p) =
    (refl, (refl, optional_texts (bytes "bridge port") p refl))
fact_texts (WireFact.observed_behind d v) = with_device d _ (device_texts v)
fact_texts (WireFact.forwards_toward d t n none) = with_device d _ (refl, tt)
fact_texts (WireFact.forwards_toward d t n (some p)) = with_device d _ (refl, device_texts p)
fact_texts (WireFact.opaque_boundary d w) = with_device d _ (refl, tt)
fact_texts (WireFact.service a p q t) =
    (refl, (refl, optional_texts (bytes "service detail") t refl))
fact_texts (WireFact.resolved_as n a) = (refl, (refl, tt))

abbrev AreShort : List TextField → Type 0
AreShort fields = All (λ (f : TextField). length f.1 ≤ max_text_bytes) fields

texts_iff : (fields : List TextField) → All IsText fields → All IsBounded fields ↔ AreShort fields
texts_iff [] h = (λ k. tt, λ k. tt)
texts_iff (f ∷ fields) h =
    let rest = texts_iff fields h.1 in
    (λ k. (rw h.0 at k.0, rest.0 k.1), λ k. (rw h.0 k.0, rest.1 k.1))

abbrev IsShortOption : Option Text → Type 0
IsShortOption none = Unit
IsShortOption (some text) = length text ≤ max_text_bytes

-- Every string of the record is at most 1024 bytes, and its vantage at most 64.
pub record IsRecordBounded (w : WireEvidence) : Type 0 where
  pub fact : AreShort (fact_fields w.fact)
  pub source : length w.source ≤ max_text_bytes
  pub confidence : length w.confidence ≤ max_text_bytes
  pub vantage : length w.vantage ≤ max_vantage_bytes
  pub detail : IsShortOption w.detail

All-split {κ} :
    {A : Type 0} (P : A → Type κ) (xs ys : List A) → All P (xs ++ ys) → All P xs × All P ys
All-split P [] ys h = (tt, h)
All-split P (x ∷ xs) ys h = let (front, back) = All-split P xs ys h.1 in ((h.0, front), back)

fields-IsRecordBounded : (w : WireEvidence) → All IsBounded (text_fields w) → IsRecordBounded w
unfolding text_fields limit_of contains starts_with
fields-IsRecordBounded w h =
    let (fact, rest) = All-split IsBounded (fact_fields w.fact) _ h in
    record {
      fact = (texts_iff (fact_fields w.fact) (fact_texts w.fact)).0 fact;
      source = rest.0;
      confidence = rest.1.0;
      vantage = rest.1.1.0;
      detail = short w.detail rest.1.1.1;
    }
  where
    short : (o : Option Text) → All IsBounded (optional_field (bytes "detail") o) → IsShortOption o
    short none k = tt
    short (some text) k = k.0

IsRecordBounded-fields : (w : WireEvidence) → IsRecordBounded w → All IsBounded (text_fields w)
unfolding text_fields limit_of contains starts_with
IsRecordBounded-fields w h =
    All-append IsBounded (fact_fields w.fact) _
      ((texts_iff (fact_fields w.fact) (fact_texts w.fact)).1 h.fact)
      (h.source, (h.confidence, (h.vantage, long w.detail h.detail)))
  where
    long : (o : Option Text) → IsShortOption o → All IsBounded (optional_field (bytes "detail") o)
    long none k = tt
    long (some text) k = (k, tt)

check_all_records_iff :
    (ws : List WireEvidence) → (check_all_records ws ≡ passed) ↔ All IsRecordBounded ws
unfolding check_all_records
check_all_records_iff [] = (λ h. tt, λ h. refl)
check_all_records_iff (w ∷ ws) =
    let both = before_iff (check_fields (text_fields w)) (check_all_records ws) in
    let here = check_fields_iff (text_fields w) in
    let rest = check_all_records_iff ws in
    (
      λ h. (fields-IsRecordBounded w (here.0 (both.0 h).0), rest.0 (both.0 h).1),
      λ h. both.1 (here.1 (IsRecordBounded-fields w h.0), rest.1 h.1),
    )

check_record_count_iff : (n : ℕ) → (check_record_count n ≡ passed) ↔ (n ≤ max_records)
unfolding check_record_count
check_record_count_iff n = (λ h. ground arith, λ h. ground arith)

-- A message's bundle passes exactly if it has at most 20,000 records, its vantage is at most 64
-- bytes, its peer and signature are at most 1024 bytes, and so are all the strings of every record,
-- whose vantages are at most 64 bytes.
pub check_message_iff :
    (b : EvidenceBundle)
    → (check_message b ≡ passed) ↔ (
        (length b.records ≤ max_records)
        × (length b.vantage ≤ max_vantage_bytes)
        × (length b.peer ≤ max_text_bytes)
        × (length b.signature ≤ max_text_bytes)
        × All IsRecordBounded b.records)
unfolding check_message
check_message_iff b =
    let count = check_record_count_iff (length b.records) in
    let vantage = check_text_iff (bytes "vantage") b.vantage max_vantage_bytes in
    let peer = check_text_iff (bytes "peer") b.peer max_text_bytes in
    let signature = check_text_iff (bytes "signature") b.signature max_text_bytes in
    let records = check_all_records_iff b.records in
    let last =
      before_iff (check_text (bytes "signature") b.signature max_text_bytes)
        (check_all_records b.records) in
    let third = before_iff (check_text (bytes "peer") b.peer max_text_bytes) _ in
    let second = before_iff (check_text (bytes "vantage") b.vantage max_vantage_bytes) _ in
    let first = before_iff (check_record_count (length b.records)) _ in
    (
      λ h.
          let h1 = first.0 h in
          let h2 = second.0 h1.1 in
          let h3 = third.0 h2.1 in
          let h4 = last.0 h3.1 in
          (count.0 h1.0, vantage.0 h2.0, peer.0 h3.0, signature.0 h4.0, records.0 h4.1),
      λ h.
          let (n, v, p, s, ws) = h in
          let h4 = last.1 (signature.1 s, records.1 ws) in
          first.1 (count.1 n, second.1 (vantage.1 v, third.1 (peer.1 p, h4))),
    )
