-- ===== src/Federation/Limits.antt =====
-- The bounds on what a peer sends: src/federation/limits.rs, and `check_message` of
-- src/federation/transport.rs.
pub mod Bounds
use idnx.Common.{
  ℕ, ◌*◌, Text, bytes, Bool, true, false, List, [], ◌∷◌, ltb, length, contains, if◌then◌else◌,
}
use idnx.Federation.Wire.Records.{WireEvidence}
use idnx.Federation.Wire.Records.Fields.{TextField, text_fields}
use idnx.Federation.Bundle.{EvidenceBundle}

-- `MAX_TEXT_BYTES` of src/text.rs, and the other limits.
abbrev pub max_text_bytes : ℕ
max_text_bytes = 1024

abbrev pub max_envelope_bytes : ℕ
max_envelope_bytes = 1024 * 1024

abbrev pub max_records : ℕ
max_records = 20_000

abbrev pub max_vantage_bytes : ℕ
max_vantage_bytes = 64

pub data LimitError : Type 0 where
  too_large : ℕ → ℕ → LimitError
  too_many_records : ℕ → ℕ → LimitError
  text_too_long : Text → ℕ → ℕ → LimitError

pub data Checked : Type 0 where
  passed : Checked
  refused : LimitError → Checked

-- `?` after a check.
infixr 4 ◌before◌
abbrev pub ◌before◌ : Checked → Checked → Checked
passed before next = next
refused e before next = refused e

unfoldable pub check_frame_length : ℕ → ℕ → Checked
check_frame_length claimed limit =
    if ltb limit claimed then refused (too_large limit claimed) else passed

unfoldable pub check_text : Text → Text → ℕ → Checked
check_text field text limit =
    if ltb limit (length text) then refused (text_too_long field limit (length text)) else passed

unfoldable pub check_record_count : ℕ → Checked
check_record_count claimed =
    if ltb max_records claimed then refused (too_many_records max_records claimed) else passed

-- The bound on a record's field, by its name.
unfoldable pub limit_of : Text → ℕ
limit_of field = if contains field (bytes "vantage") then max_vantage_bytes else max_text_bytes

unfoldable pub check_fields : List TextField → Checked
check_fields [] = passed
check_fields ((field, value) ∷ fields) =
    check_text field value (limit_of field) before check_fields fields

unfoldable pub check_all_records : List WireEvidence → Checked
check_all_records [] = passed
check_all_records (w ∷ ws) = check_fields (text_fields w) before check_all_records ws

-- `check_message`, of a message that carries a bundle.
unfoldable pub check_message : EvidenceBundle → Checked
check_message b =
    check_record_count (length b.records)
    before check_text (bytes "vantage") b.vantage max_vantage_bytes
    before check_text (bytes "peer") b.peer max_text_bytes
    before check_text (bytes "signature") b.signature max_text_bytes
    before check_all_records b.records
