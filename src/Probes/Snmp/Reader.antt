-- ===== src/Probes/Snmp/Reader.antt =====
-- `Reader` of src/probes/snmp.rs: a cursor over one container. An error is named in place of its text,
-- with the field it is about.
use idnx.Common.{
  ℕ, ◌+◌, ◌-◌, ◌*◌, ◌%◌, ◌^◌, Text, Bool, ◌||◌, ◌==◌, ltb, leb, Option, none, some, List, [], ◌∷◌,
  length, take, drop, if◌then◌else◌,
}
use idnx.Probes.Snmp.{tag_integer}

pub data BerError : Type 0 where
  no_tag no_length bad_length short_length long_length : Text → BerError
  beyond wrong_tag : Text → ℕ → ℕ → BerError
  trailing : Text → ℕ → BerError
  too_many_varbinds : BerError

pub data Result {ℓ} (A : Type ℓ) : Type ℓ where
  ok : A → Result A
  err : BerError → Result A

infixl 5 ◌>>=◌
abbrev pub ◌>>=◌ {ℓ κ} : {A : Type ℓ} {B : Type κ} → Result A → (A → Result B) → Result B
ok a >>= f = f a
err e >>= f = err e

abbrev pub or_err {ℓ} : {A : Type ℓ} → Option A → BerError → Result A
or_err none e = err e
or_err (some a) e = ok a

-- `get` at an index, and at a range.
abbrev pub first_of : List ℕ → Option ℕ
first_of [] = none
first_of (b ∷ bs) = some b

abbrev pub byte_at : List ℕ → ℕ → Option ℕ
byte_at bs i = first_of (drop i bs)

abbrev pub range_of : List ℕ → ℕ → ℕ → Option (List ℕ)
range_of bs from to = if leb to (length bs) then some (take (to - from) (drop from bs)) else none

pub record Reader : Type 0 where
  pub bytes : List ℕ
  pub cursor : ℕ

abbrev pub new : List ℕ → Reader
new bs = record { bytes = bs; cursor = 0 }

abbrev pub done : Reader → Bool
done r = leb (length r.bytes) r.cursor

abbrev pub remaining : Reader → ℕ
remaining r = length r.bytes - r.cursor

abbrev pub rest : Reader → List ℕ
rest r = drop r.cursor r.bytes

abbrev pub advance : Reader → ℕ → Reader
advance r n = record r { cursor = r.cursor + n }

-- The bytes of a long length; `none` where the sum overflows.
unfoldable pub length_of : ℕ → List ℕ → Option ℕ
length_of len [] = some len
length_of len (b ∷ bs) =
    let next = length_of (len * 256 % 2 ^ 64 + b) bs in
    if ltb (len * 256 % 2 ^ 64 + b) (2 ^ 64) then next else none

abbrev pub long_form : Reader → Text → ℕ → Result (ℕ × Reader)
long_form r what count = if count == 0 || ltb 4 count then err (bad_length what) else (do
  bs ← or_err (range_of r.bytes r.cursor (r.cursor + count)) (short_length what)
  len ← or_err (length_of 0 bs) (long_length what)
  ok (len, advance r count))

abbrev pub short_or_long : Reader → Text → ℕ → Result (ℕ × Reader)
short_or_long r what first = if ltb first 128 then ok (first, r) else long_form r what (first % 128)

-- `length`
unfoldable pub read_length : Reader → Text → Result (ℕ × Reader)
read_length r what = do
  first ← or_err (byte_at r.bytes r.cursor) (no_length what)
  short_or_long (advance r 1) what first

-- The contents of a field whose tag and length were read, and the reader behind it.
abbrev pub contents : Reader → Text → ℕ → ℕ → Result ((ℕ × Reader) × Reader)
contents r what tag len =
    if ltb (r.cursor + len) (2 ^ 64)
    then (do
      value ← or_err (range_of r.bytes r.cursor (r.cursor + len)) (beyond what len (remaining r))
      ok ((tag, new value), advance r len))
    else err (long_length what)

unfoldable pub tlv : Reader → Text → Result ((ℕ × Reader) × Reader)
tlv r what = do
  tag ← or_err (byte_at r.bytes r.cursor) (no_tag what)
  (len, after) ← read_length (advance r 1) what
  contents after what tag len

abbrev pub if_tag : ℕ → Text → (ℕ × Reader) × Reader → Result (Reader × Reader)
if_tag tag what ((found, value), after) =
    if found == tag then ok (value, after) else err (wrong_tag what tag found)

unfoldable pub expect : Reader → ℕ → Text → Result (Reader × Reader)
expect r tag what = do t ← tlv r what; if_tag tag what t

abbrev pub finished : Reader → Text → Result (Unit {0})
finished r what = if done r then ok tt else err (trailing what (remaining r))

-- `decode_integer_value`
abbrev pub integer_from : ℕ → List ℕ → ℕ
integer_from val [] = val
integer_from val (b ∷ bs) = integer_from (val * 256 % 2 ^ 64 + b) bs

unfoldable pub decode_integer_value : List ℕ → ℕ
decode_integer_value [] = 0
decode_integer_value (b ∷ bs) = integer_from (if ltb b 128 then 0 else 2 ^ 64 - 1) (b ∷ bs)

-- `integer`
unfoldable pub read_integer : Reader → Text → Result (ℕ × Reader)
read_integer r what = do
  (value, after) ← expect r tag_integer what
  ok (decode_integer_value (rest value), after)
