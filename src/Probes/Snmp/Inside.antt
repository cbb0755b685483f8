-- ===== src/Probes/Snmp/Inside.antt =====
-- What the `Reader` of src/probes/snmp.rs reads stays inside its container.
use idnx.Common.{
  ℕ, ◌+◌, ◌-◌, ◌^◌, ◌≤◌, ◌≡◌, refl, sym, ap, ◌∙◌, inl, inr, Text, ◌||◌, ◌==◌, ltb, leb, Bool-cases,
  Option, none, some, List, ◌++◌, length, take, drop, take-drop, arith, ◌%◌,
}
use idnx.Probes.Snmp.Reader
use idnx.Probes.Snmp.Reader.{
  Reader, Result, ok, err, BerError, ◌>>=◌, or_err, byte_at, range_of, advance, done, remaining,
  length_of, long_form, short_or_long, read_length, contents, tlv, if_tag, expect, finished,
  bad_length, rest,
}
use idnx.Probes.Snmp.Fields.{drop-plus}

-- A bind that succeeds has succeeded in its parts.
pub >>=-ok {ℓ κ} :
    {A : Type ℓ} {B : Type κ} (m : Result A) (f : A → Result B) (b : B)
    → (m >>= f) ≡ ok b
    → (a : A) × (m ≡ ok a) × (f a ≡ ok b)
>>=-ok (ok a) f b h = (a, refl, h)
>>=-ok (err e) f b h = absurd (cc h)

or_err-ok {ℓ} : {A : Type ℓ} (o : Option A) (e : BerError) (a : A) → or_err o e ≡ ok a → o ≡ some a
or_err-ok none e a h = absurd (cc h)
or_err-ok (some x) e a h = cc h

-- A reader of the same container, at least `n` bytes further.
record IsAfter (n : ℕ) (r after : Reader) : Type 0 where
  pub same : after.bytes ≡ r.bytes
  pub further : r.cursor + n ≤ after.cursor

advance-IsAfter : (n : ℕ) (r : Reader) → IsAfter n r (advance r n)
advance-IsAfter n r = record { same = refl; further = omega arith }

IsAfter-trans : {n m : ℕ} {r s t : Reader} → IsAfter n r s → IsAfter m s t → IsAfter (n + m) r t
IsAfter-trans h k =
    let a = h.further in
    let b = k.further in record { same = k.same ∙ h.same; further = omega arith }

long_form-IsAfter :
    (r : Reader) (what : Text) (count n : ℕ) (after : Reader)
    → long_form r what count ≡ ok (n, after)
    → IsAfter 0 r after
long_form-IsAfter r what count n after h = elim (Bool-cases (count == 0 || ltb 4 count)) [
  | inl bad ↦ absurd (cc (rw bad at h))
  | inr fine ↦
      let (bs, _, more) =
        >>=-ok (or_err (range_of r.bytes r.cursor (r.cursor + count)) _) _ (n, after)
          (rw fine at h) in
      let (len, _, is) = >>=-ok (or_err (length_of 0 bs) _) _ (n, after) more in
      let after_is : advance r count ≡ after = cc is in
      rw⁻¹ after_is (record { same = refl; further = omega arith })
]

read_length-IsAfter :
    (r : Reader) (what : Text) (n : ℕ) (after : Reader)
    → read_length r what ≡ ok (n, after)
    → IsAfter 1 r after
unfolding read_length
read_length-IsAfter r what n after h =
    let (b, _, more) = >>=-ok (or_err (byte_at r.bytes r.cursor) _) _ (n, after) h in
    elim (Bool-cases (ltb b 128)) [
      | inl small ↦
          let is : ok (b, advance r 1) ≡ ok (n, after) = rw small at more in
          let after_is : advance r 1 ≡ after = cc is in rw⁻¹ after_is (advance-IsAfter 1 r)
      | inr large ↦
          IsAfter-trans (advance-IsAfter 1 r)
            (long_form-IsAfter (advance r 1) what (b % 128) n after (rw large at more))
    ]

range_of-eq :
    (bs : List ℕ) (from to : ℕ) (value : List ℕ)
    → range_of bs from to ≡ some value
    → (to ≤ length bs) × (value ≡ take (to - from) (drop from bs))
range_of-eq bs from to value h = elim (Bool-cases (leb to (length bs))) [
  | inl fits ↦
      let is : some (take (to - from) (drop from bs)) ≡ some value = rw fits at h in
      (ground arith, cc is)
  | inr long ↦ absurd (cc (rw long at h))
]

contents-eq :
    (r : Reader) (what : Text) (tag len found : ℕ) (value after : Reader)
    → contents r what tag len ≡ ok ((found, value), after)
    → (r.cursor + len ≤ length r.bytes)
      × (value ≡ Reader.new (take len (drop r.cursor r.bytes)))
      × (after ≡ advance r len)
contents-eq r what tag len found value after h = elim (Bool-cases (ltb (r.cursor + len) (2 ^ 64))) [
  | inr over ↦ absurd (cc (rw over at h))
  | inl fine ↦
      let (bs, ranges, is) =
        >>=-ok (or_err (range_of r.bytes r.cursor (r.cursor + len)) _) _ ((found, value), after)
          (rw fine at h) in
      let (fits, segment) =
        range_of-eq r.bytes r.cursor (r.cursor + len) bs
          (or_err-ok (range_of r.bytes r.cursor (r.cursor + len)) _ bs ranges) in
      let span : r.cursor + len - r.cursor ≡ len = omega arith in
      let segment' : bs ≡ take len (drop r.cursor r.bytes) = rw span at segment in
      let value_is : value ≡ Reader.new bs = cc is in
      let after_is : after ≡ advance r len = cc is in
      (fits, value_is ∙ ap Reader.new segment', after_is)
]

segment_of :
    (from len : ℕ) (bs : List ℕ) → drop from bs ≡ take len (drop from bs) ++ drop (from + len) bs
segment_of from len bs =
    take-drop len (drop from bs)
    ∙ ap (λ (t : List ℕ). take len (drop from bs) ++ t) (drop-plus from len bs)

-- The field lies behind at least two bytes of what is ahead in the container, and before what then is.
pub record IsInside (r value after : Reader) : Type 0 where
  pub same : after.bytes ≡ r.bytes
  pub further : r.cursor + 2 ≤ after.cursor
  pub within : after.cursor ≤ length r.bytes
  pub at_start : value.cursor ≡ 0
  pub header : List ℕ
  pub splits : rest r ≡ header ++ (value.bytes ++ rest after)

inside :
    (r s : Reader) (len : ℕ)
    → IsAfter 2 r s
    → s.cursor + len ≤ length s.bytes
    → IsInside r (Reader.new (take len (drop s.cursor s.bytes))) (advance s len)
inside r s len h fits =
    let gone = h.further in
    let whole : r.cursor + (s.cursor - r.cursor) ≡ s.cursor = omega arith in
    record {
      same = h.same;
      further = omega arith;
      within = omega (arith, ap length h.same);
      at_start = refl;
      header = take (s.cursor - r.cursor) (drop r.cursor r.bytes);
      splits =
          segment_of r.cursor (s.cursor - r.cursor) r.bytes
          ∙ ap (λ (t : List ℕ). take (s.cursor - r.cursor) (drop r.cursor r.bytes) ++ t)
              (ap (λ (k : ℕ). drop k r.bytes) whole
                ∙ ap (drop s.cursor) (sym h.same)
                ∙ segment_of s.cursor len s.bytes);
    }

-- A field that is read is a part of what is ahead of the reader in its container, behind a header of its
-- own, and the reader then stands behind it, in the container, at least two bytes further.
pub tlv-IsInside :
    (r : Reader) (what : Text) (tag : ℕ) (value after : Reader)
    → tlv r what ≡ ok ((tag, value), after)
    → IsInside r value after
unfolding tlv
tlv-IsInside r what tag value after h =
    let (t, _, more) = >>=-ok (or_err (byte_at r.bytes r.cursor) _) _ ((tag, value), after) h in
    let ((len, s), reads, last) =
      >>=-ok (read_length (advance r 1) what) _ ((tag, value), after) more in
    let far =
      IsAfter-trans (advance-IsAfter 1 r) (read_length-IsAfter (advance r 1) what len s reads) in
    let (fits, value_is, after_is) = contents-eq s what t len tag value after last in
    rw (value_is, after_is) (inside r s len far fits)
