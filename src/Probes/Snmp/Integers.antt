-- ===== src/Probes/Snmp/Integers.antt =====
-- Integers as src/probes/snmp.rs writes and reads them.
use mathlib.Core.List.{append_assoc, append-nil}
use native.Mathlib.Decide.{dec_lt}
use idnx.Common.{
  ℕ, zero, suc, ◌+◌, ◌-◌, ◌*◌, ◌%◌, ◌^◌, ◌≤◌, ◌<◌, ◌≡◌, ◌⊎◌, refl, sym, ap, ◌∙◌, true, false, ltb,
  inl, inr, Bool-cases, List, [], ◌∷◌, ◌++◌, arith, if◌then◌else◌,
}
use idnx.Probes.Snmp.Encode.{integer_loop, shift_byte, is_last}
use idnx.Probes.Snmp.Reader.{integer_from, decode_integer_value}

-- The bytes of the loop, with the last at the end.
abbrev bytes_of : ℕ → ℕ → List ℕ
bytes_of zero v = []
bytes_of (suc fuel) v =
    let rest = bytes_of fuel (shift_byte v) in
    if is_last (shift_byte v) (v % 256) then (v % 256) ∷ [] else rest ++ (v % 256) ∷ []

integer_loop_lem :
    (fuel v : ℕ) (reversed : List ℕ) → integer_loop fuel v reversed ≡ bytes_of fuel v ++ reversed
unfolding integer_loop
integer_loop_lem zero v reversed = refl
integer_loop_lem (suc fuel) v reversed = elim (Bool-cases (is_last (shift_byte v) (v % 256))) [
  | inl last ↦ rw last refl
  | inr more ↦ rw more (
      integer_loop_lem fuel (shift_byte v) ((v % 256) ∷ reversed)
      ∙ sym (append_assoc (bytes_of fuel (shift_byte v)) ((v % 256) ∷ []) reversed))
]

integer_from-append :
    (val : ℕ) (bs cs : List ℕ) → integer_from val (bs ++ cs) ≡ integer_from (integer_from val bs) cs
integer_from-append val [] cs = refl
integer_from-append val (b ∷ bs) cs = integer_from-append (val * 256 % 2 ^ 64 + b) bs cs

-- What a value's sign is extended by.
abbrev sign : ℕ → ℕ
sign v = if ltb v (2 ^ 63) then 0 else 2 ^ 64 - 1

-- The loop ends within the fuel.
abbrev IsShort : ℕ → ℕ → Type 0
IsShort zero v = true ≡ false
IsShort (suc fuel) v = (is_last (shift_byte v) (v % 256) ≡ true) ⊎ IsShort fuel (shift_byte v)

-- A value within `n` of zero, on either side.
abbrev IsNear : ℕ → ℕ → Type 0
IsNear n v = (v < n) ⊎ (2 ^ 64 ≤ v + n)

near_last : (v : ℕ) → v < 2 ^ 64 → IsNear 128 v → is_last (shift_byte v) (v % 256) ≡ true
near_last v fits (inl low) = ground arith
near_last v fits (inr high) = ground arith

IsNear-shift :
    (n v : ℕ)
    → v < 2 ^ 64
    → n ≤ 2 ^ 55
    → IsNear (256 * n) v
    → (shift_byte v < 2 ^ 64) × IsNear n (shift_byte v)
IsNear-shift n v fits few near = elim (Bool-cases (ltb v (2 ^ 63))) [
  | inl positive ↦
      let low : v < 2 ^ 63 = ground arith in
      rw positive
        (omega arith, elim near [ inl h ↦ inl (omega arith) | inr h ↦ absurd (omega arith) ])
  | inr negative ↦
      let high : 2 ^ 63 ≤ v = ground arith in
      rw negative
        (omega arith, elim near [ inl h ↦ absurd (omega arith) | inr h ↦ inr (omega arith) ])
]

IsShort-next :
    (fuel n : ℕ)
    → n ≤ 2 ^ 55
    → ((w : ℕ) → w < 2 ^ 64 → IsNear n w → IsShort fuel w)
    → (v : ℕ) → v < 2 ^ 64
    → IsNear (256 * n) v
    → IsShort (suc fuel) v
IsShort-next fuel n few short v fits near =
    let (fits', near') = IsNear-shift n v fits few near in inr (short (shift_byte v) fits' near')

-- Eight bytes are enough for 64 bits.
eight_enough : (v : ℕ) → v < 2 ^ 64 → IsShort 8 v
eight_enough v fits =
    IsShort-next 7 (2 ^ 55) (omega arith)
      (IsShort-next 6 (2 ^ 47) (omega arith) (
        IsShort-next 5 (2 ^ 39) (omega arith) (
          IsShort-next 4 (2 ^ 31) (omega arith) (
            IsShort-next 3 (2 ^ 23) (omega arith) (
              IsShort-next 2 (2 ^ 15) (omega arith)
                (IsShort-next 1 (2 ^ 7) (omega arith) (λ w h near. inl (near_last w h near))))))))
      v fits (sides v)
  where
    sides : (w : ℕ) → IsNear (256 * 2 ^ 55) w
    sides w = elim (dec_lt w (2 ^ 63)) [ yes low ↦ inl low | no high ↦ inr (omega arith) ]

shift_byte-lt : (v : ℕ) → v < 2 ^ 64 → shift_byte v < 2 ^ 64
shift_byte-lt v fits = ground arith

shift_sign : (v : ℕ) → v < 2 ^ 64 → ltb (shift_byte v) (2 ^ 63) ≡ ltb v (2 ^ 63)
shift_sign v fits = ground arith

same_sign : (v : ℕ) → v < 2 ^ 64 → sign (shift_byte v) ≡ sign v
same_sign v fits = rw (shift_sign v fits) refl

byte_back : (v : ℕ) → v < 2 ^ 64 → shift_byte v * 256 % 2 ^ 64 + v % 256 ≡ v
byte_back v fits = ground arith

last_reads :
    (v : ℕ)
    → v < 2 ^ 64
    → is_last (shift_byte v) (v % 256) ≡ true
    → (ltb (v % 256) 128 ≡ ltb v (2 ^ 63)) × (sign v * 256 % 2 ^ 64 + v % 256 ≡ v)
last_reads v fits last = (ground arith, ground arith)

-- The bytes start with one that shows the sign, and are read as the value.
abbrev IsRead : ℕ → List ℕ → Type 0
IsRead v [] = true ≡ false
IsRead v (b ∷ bs) = (ltb b 128 ≡ ltb v (2 ^ 63)) × (integer_from (sign v) (b ∷ bs) ≡ v)

IsRead-append :
    (v : ℕ) (bs : List ℕ) → v < 2 ^ 64 → IsRead (shift_byte v) bs → IsRead v (bs ++ (v % 256) ∷ [])
IsRead-append v [] fits h = absurd (cc)
IsRead-append v (b ∷ bs) fits (first, reads) =
    let same = shift_sign v fits in
    let reads' : integer_from (sign v) (b ∷ bs) ≡ shift_byte v = rw (same_sign v fits) at reads in
    (
      first ∙ same,
      integer_from-append (sign v) (b ∷ bs) ((v % 256) ∷ [])
          ∙ ap (λ (w : ℕ). w * 256 % 2 ^ 64 + v % 256) reads'
          ∙ byte_back v fits,
    )

bytes_of-IsRead : (fuel v : ℕ) → v < 2 ^ 64 → IsShort fuel v → IsRead v (bytes_of fuel v)
bytes_of-IsRead zero v fits h = absurd (cc)
bytes_of-IsRead (suc fuel) v fits (inl last) = rw last (last_reads v fits last)
bytes_of-IsRead (suc fuel) v fits (inr short) =
    elim (Bool-cases (is_last (shift_byte v) (v % 256))) [
      | inl last ↦ rw last (last_reads v fits last)
      | inr more ↦ rw more (
          IsRead-append v (bytes_of fuel (shift_byte v)) fits
            (bytes_of-IsRead fuel (shift_byte v) (shift_byte-lt v fits) short))
    ]

read_back : (v : ℕ) (bs : List ℕ) → IsRead v bs → decode_integer_value bs ≡ v
unfolding decode_integer_value
read_back v [] h = absurd (cc)
read_back v (b ∷ bs) (first, reads) = rw first reads

-- An integer of 64 bits is read back from the bytes that the loop of `encode_integer` makes of it.
pub decode_integer_value-integer_loop :
    (v : ℕ) → v < 2 ^ 64 → decode_integer_value (integer_loop 8 v []) ≡ v
decode_integer_value-integer_loop v fits =
    rw (integer_loop_lem 8 v [], append-nil)
      (read_back v (bytes_of 8 v) (bytes_of-IsRead 8 v fits (eight_enough v fits)))
