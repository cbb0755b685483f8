-- ===== src/Probes/Snmp/Fields.antt =====
-- Fields as `encode_tlv` of src/probes/snmp.rs writes them, under its `Reader`.
use mathlib.Core.List.{append_assoc}
use idnx.Common.{
  ℕ, zero, suc, ◌+◌, ◌-◌, ◌/◌, ◌%◌, ◌^◌, ◌≤◌, ◌<◌, ◌≡◌, refl, sym, ap, ◌∙◌, Text, true, false, ◌||◌,
  ◌==◌, ltb, leb, inl, inr, Bool-cases, some, List, [], ◌∷◌, ◌++◌, length, length-append, drop,
  take-append, arith,
}
use idnx.Probes.Snmp.Encode.{encode_length, encode_tlv}
use idnx.Probes.Snmp.Reader
use idnx.Probes.Snmp.Reader.{
  Reader, Result, ok, err, ◌>>=◌, or_err, byte_at, range_of, first_of, advance, rest, done,
  length_of, long_form, short_or_long, read_length, contents, tlv, expect, if_tag,
}

length-drop : (n : ℕ) (bs : List ℕ) → length (drop n bs) ≡ length bs - n
length-drop zero bs = omega arith
length-drop (suc n) [] = omega arith
length-drop (suc n) (b ∷ bs) = omega (arith, length-drop n bs)

drop_nil : (n : ℕ) → drop {A = ℕ} n [] ≡ []
drop_nil zero = refl
drop_nil (suc n) = refl

plus_suc : (n m : ℕ) → suc (n + m) ≡ suc n + m
plus_suc n m = omega arith

pub drop-plus : (n m : ℕ) (bs : List ℕ) → drop m (drop n bs) ≡ drop (n + m) bs
drop-plus zero m bs = ap (λ (k : ℕ). drop k bs) (omega arith)
drop-plus (suc n) m [] = drop_nil m ∙ sym (drop_nil (suc n + m))
drop-plus (suc n) m (b ∷ bs) = drop-plus n m bs ∙ ap (λ (k : ℕ). drop k (b ∷ bs)) (plus_suc n m)

-- The reader stands before these bytes, in a container of a size that a cursor can hold.
pub record IsBefore (r : Reader) (bs : List ℕ) : Type 0 where
  pub ahead : rest r ≡ bs
  pub inside : r.cursor ≤ length r.bytes
  pub small : length r.bytes < 2 ^ 63

pub new-IsBefore : (bs : List ℕ) → length bs < 2 ^ 63 → IsBefore (Reader.new bs) bs
new-IsBefore bs small = record { ahead = refl; inside = omega arith; small = small }

left : (r : Reader) (bs : List ℕ) → IsBefore r bs → length bs ≡ length r.bytes - r.cursor
left r bs h = ap length (sym h.ahead) ∙ length-drop r.cursor r.bytes

pub done-IsBefore : (r : Reader) → IsBefore r [] → done r ≡ true
done-IsBefore r h = let e = left r [] h in ground arith

pub more-IsBefore : (r : Reader) (b : ℕ) (bs : List ℕ) → IsBefore r (b ∷ bs) → done r ≡ false
more-IsBefore r b bs h = let e = left r (b ∷ bs) h in ground arith

advance-IsBefore :
    (r : Reader) (front back : List ℕ) (n : ℕ)
    → IsBefore r (front ++ back)
    → length front ≡ n
    → IsBefore (advance r n) back
advance-IsBefore r front back n h size =
    let e = left r (front ++ back) h in
    let both = length-append front back in
    record {
      ahead =
          sym (drop-plus r.cursor n r.bytes)
          ∙ ap (drop n) h.ahead
          ∙ (take-append n front back size).1;
      inside = omega arith;
      small = h.small;
    }

range_of-IsBefore :
    (r : Reader) (front back : List ℕ) (n : ℕ)
    → IsBefore r (front ++ back)
    → length front ≡ n
    → range_of r.bytes r.cursor (r.cursor + n) ≡ some front
range_of-IsBefore r front back n h size =
    let e = left r (front ++ back) h in
    let both = length-append front back in
    let within : leb (r.cursor + n) (length r.bytes) ≡ true = ground arith in
    let span : r.cursor + n - r.cursor ≡ n = omega arith in
    rw (within, span, h.ahead, (take-append n front back size).0) refl

long_form-IsBefore :
    (r : Reader) (what : Text) (digits tail : List ℕ) (count n : ℕ)
    → IsBefore r (digits ++ tail)
    → length digits ≡ count
    → 1 ≤ count
    → count ≤ 4
    → length_of 0 digits ≡ some n
    → long_form r what count ≡ ok (n, advance r count)
long_form-IsBefore r what digits tail count n h size some' few e =
    let fine : (count == 0 || ltb 4 count) ≡ false = ground arith in
    rw (fine, range_of-IsBefore r digits tail count h size, e) refl

one_digit : (n : ℕ) → n < 2 ^ 24 → length_of 0 (n ∷ []) ≡ some n
unfolding length_of
one_digit n fits = ground arith

two_digits : (n : ℕ) → n < 2 ^ 24 → length_of 0 ((n / 256) ∷ (n % 256) ∷ []) ≡ some n
unfolding length_of
two_digits n fits = ground arith

three_digits :
    (n : ℕ)
    → n < 2 ^ 24
    → length_of 0 ((n / 65536 % 256) ∷ (n / 256 % 256) ∷ (n % 256) ∷ []) ≡ some n
unfolding length_of
three_digits n fits = ground arith

-- Where the first byte announces the digits of a length.
read_length-long :
    (r : Reader) (what : Text) (first count n : ℕ) (digits tail : List ℕ)
    → first ≡ 128 + count
    → 1 ≤ count
    → count ≤ 4
    → length digits ≡ count
    → length_of 0 digits ≡ some n
    → IsBefore r (first ∷ (digits ++ tail))
    → (after : Reader) × (read_length r what ≡ ok (n, after)) × IsBefore after tail
unfolding read_length
read_length-long r what first count n digits tail is some' few size reads h =
    let next = advance-IsBefore r (first ∷ []) (digits ++ tail) 1 h (omega arith) in
    let long : ltb first 128 ≡ false = ground arith in
    let low : first % 128 ≡ count = omega arith in
    (
      advance (advance r 1) count,
      rw (h.ahead, long, low)
          (long_form-IsBefore (advance r 1) what digits tail count n next size some' few reads),
      advance-IsBefore (advance r 1) digits tail count next size,
    )

-- A length below 2 ^ 24 is read back, and the reader stands behind it.
read_length-IsBefore :
    (r : Reader) (what : Text) (n : ℕ) (tail : List ℕ)
    → n < 2 ^ 24
    → IsBefore r (encode_length n ++ tail)
    → (after : Reader) × (read_length r what ≡ ok (n, after)) × IsBefore after tail
unfolding encode_length
read_length-IsBefore r what n tail fits h = elim (Bool-cases (ltb n 128)) [
  | inl tiny ↦
      let h' : IsBefore r (n ∷ tail) = rw tiny at h in
      (
        advance r 1,
        unfold read_length in rw (h'.ahead, tiny) refl,
        advance-IsBefore r (n ∷ []) tail 1 h' (omega arith),
      )
  | inr more ↦ elim (Bool-cases (ltb n 256)) [
    | inl small ↦
        read_length-long r what 129 1 n (n ∷ []) tail (omega arith) (omega arith) (omega arith)
          (omega arith) (one_digit n fits) (rw (more, small) at h)
    | inr more' ↦ elim (Bool-cases (ltb n 65536)) [
      | inl medium ↦
          read_length-long r what 130 2 n ((n / 256) ∷ (n % 256) ∷ []) tail (omega arith)
            (omega arith) (omega arith) (omega arith) (two_digits n fits)
            (rw (more, more', medium) at h)
      | inr large ↦
          read_length-long r what 131 3 n ((n / 65536 % 256) ∷ (n / 256 % 256) ∷ (n % 256) ∷ [])
            tail (omega arith) (omega arith) (omega arith) (omega arith) (three_digits n fits)
            (rw (more, more', large) at h)
    ]
  ]
]

pub tlv-IsBefore :
    (r : Reader) (what : Text) (tag : ℕ) (value tail : List ℕ)
    → length value < 2 ^ 24
    → IsBefore r (encode_tlv tag value ++ tail)
    → (after : Reader) × (tlv r what ≡ ok ((tag, Reader.new value), after)) × IsBefore after tail
unfolding encode_tlv
tlv-IsBefore r what tag value tail fits h =
    let h' : IsBefore r (tag ∷ (encode_length (length value) ++ (value ++ tail))) =
      rw (append_assoc (encode_length (length value)) value tail) at h in
    let next =
      advance-IsBefore r (tag ∷ []) (encode_length (length value) ++ (value ++ tail)) 1 h'
        (omega arith) in
    let (after, reads, before) =
      read_length-IsBefore (advance r 1) what (length value) (value ++ tail) fits next in
    let inside = before.inside in
    let small = before.small in
    let fine : ltb (after.cursor + length value) (2 ^ 64) ≡ true = ground arith in
    (
      advance after (length value),
      unfold tlv in
          rw (h'.ahead, reads, fine, range_of-IsBefore after value tail (length value) before refl)
            refl,
      advance-IsBefore after value tail (length value) before refl,
    )

-- A field under its tag is read as its contents, and the reader stands behind it.
pub expect-IsBefore :
    (r : Reader) (what : Text) (tag : ℕ) (value tail : List ℕ)
    → length value < 2 ^ 24
    → IsBefore r (encode_tlv tag value ++ tail)
    → (after : Reader) × (expect r tag what ≡ ok (Reader.new value, after)) × IsBefore after tail
unfolding expect
expect-IsBefore r what tag value tail fits h =
    let (after, reads, before) = tlv-IsBefore r what tag value tail fits h in
    let same : (tag == tag) ≡ true = ground arith in (after, rw (reads, same) refl, before)
