-- ===== src/Probes/Snmp/Oids.antt =====
-- Object identifiers as src/probes/snmp.rs writes and reads them.
use idnx.Common.{
  ℕ, zero, suc, ◌+◌, ◌*◌, ◌/◌, ◌%◌, ◌^◌, ◌<◌, ◌≡◌, refl, ap, ◌∙◌, true, false, ◌==◌, ltb, inl, inr,
  Bool-cases, List, [], ◌∷◌, ◌++◌, arith, All,
}
use native.Mathlib.Nat.{pow-suc}
use idnx.Probes.Snmp.{Oid}
use idnx.Probes.Snmp.Encode.{component_loop, encode_component, encode_components}
use idnx.Probes.Snmp.Decode.{components_from, decode_oid_value}

open_group :
    (val : ℕ) (after : List ℕ)
    → val < 2 ^ 25
    → components_from (val / 128) ((val % 128 + 128) ∷ after) ≡ components_from val after
unfolding components_from
open_group val after small =
    let top : ltb (val % 128 + 128) 128 ≡ false = ground arith in
    rw top (ap (λ (v : ℕ). components_from v after) (omega arith))

-- Reading goes on as it would from the groups that were written.
components_from-component_loop :
    (fuel val : ℕ) (after : List ℕ)
    → val < 2 ^ 25
    → val < 128 ^ fuel
    → components_from 0 (component_loop fuel val after) ≡ components_from val after
unfolding component_loop components_from
components_from-component_loop zero val after small few =
    ap (λ (v : ℕ). components_from v after) (omega arith)
components_from-component_loop (suc fuel) val after small few = elim (Bool-cases (val == 0)) [
  | inl none_left ↦ rw none_left (ap (λ (v : ℕ). components_from v after) (ground arith))
  | inr more ↦ rw more (
      components_from-component_loop fuel (val / 128) ((val % 128 + 128) ∷ after) (omega arith)
        (omega (arith, pow-suc 128 fuel))
      ∙ open_group val after small)
]

component_loop-append :
    (fuel val : ℕ) (xs ys : List ℕ)
    → component_loop fuel val xs ++ ys ≡ component_loop fuel val (xs ++ ys)
unfolding component_loop
component_loop-append zero val xs ys = refl
component_loop-append (suc fuel) val xs ys = elim (Bool-cases (val == 0)) [
  | inl e ↦ rw e refl
  | inr e ↦ rw e (component_loop-append fuel (val / 128) ((val % 128 + 128) ∷ xs) ys)
]

last_group :
    (comp : ℕ) (after : List ℕ)
    → comp < 2 ^ 32
    → components_from (comp / 128) ((comp % 128) ∷ after) ≡ comp ∷ components_from 0 after
unfolding components_from
last_group comp after fits =
    let low : ltb (comp % 128) 128 ≡ true = ground arith in
    rw low (ap (λ (v : ℕ). v ∷ components_from 0 after) (omega arith))

components_from-encode_component :
    (comp : ℕ) (after : List ℕ)
    → comp < 2 ^ 32
    → components_from 0 (encode_component comp ++ after) ≡ comp ∷ components_from 0 after
unfolding encode_component components_from
components_from-encode_component comp after fits = elim (Bool-cases (ltb comp 128)) [
  | inl short ↦ rw (short, short) (ap (λ (v : ℕ). v ∷ components_from 0 after) (ground arith))
  | inr long ↦ rw long (
      ap (components_from 0) (component_loop-append 5 (comp / 128) ((comp % 128) ∷ []) after)
      ∙ components_from-component_loop 5 (comp / 128) ((comp % 128) ∷ after) (omega arith)
          (omega arith)
      ∙ last_group comp after fits)
]

components_from-encode_components :
    (comps : List ℕ)
    → All (λ c. c < 2 ^ 32) comps
    → components_from 0 (encode_components comps) ≡ comps
unfolding encode_components
components_from-encode_components [] h = unfold components_from in refl
components_from-encode_components (c ∷ comps) h =
    components_from-encode_component c (encode_components comps) h.0
    ∙ ap (λ (cs : List ℕ). c ∷ cs) (components_from-encode_components comps h.1)

-- An identifier that BER can carry in one first byte: its first two components below 6 and 40, and
-- every other of 32 bits.
abbrev pub IsOid : Oid → Type 0
IsOid [] = true ≡ false
IsOid (c ∷ []) = true ≡ false
IsOid (c ∷ d ∷ comps) = (c < 6) × (d < 40) × All (λ x. x < 2 ^ 32) comps

-- Such an identifier is read back from the bytes that `encode_oid` puts under its tag.
pub decode_oid_value-encode_components :
    (c d : ℕ) (comps : List ℕ)
    → IsOid (c ∷ d ∷ comps)
    → decode_oid_value (((c * 40 + d) % 2 ^ 32 % 256) ∷ encode_components comps) ≡ c ∷ d ∷ comps
unfolding decode_oid_value
decode_oid_value-encode_components c d comps (hc, hd, h) =
    let first : (c * 40 + d) % 2 ^ 32 % 256 / 40 ≡ c = omega arith in
    let second : (c * 40 + d) % 2 ^ 32 % 256 % 40 ≡ d = omega arith in
    rw (first, second, components_from-encode_components comps h) refl
