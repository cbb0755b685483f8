-- ===== src/Probes/Snmp/Walk/Order.antt =====
-- The lexicographic order of `Oid` in src/probes/snmp.rs, by its rules.
use idnx.Common.{
  ℕ, ◌≡◌, ◌≢◌, ◌↔◌, refl, true, false, ltb, inl, inr, Bool-cases, [], ◌∷◌, ◌<◌, arith,
}
use idnx.Probes.Snmp.{Oid, oid_leb}

-- A prefix is below what it is a prefix of; otherwise the first different component decides.
infix 50 ◌≺◌
pub data ◌≺◌ : Oid → Oid → Type 0 where
  shorter : {c : ℕ} {oid : Oid} → [] ≺ c ∷ oid
  first : {c d : ℕ} {oid other : Oid} → c < d → c ∷ oid ≺ d ∷ other
  later : {c : ℕ} {oid other : Oid} → oid ≺ other → c ∷ oid ≺ c ∷ other

below_of : (oid other : Oid) → oid_leb other oid ≡ false → oid ≺ other
unfolding oid_leb
below_of [] [] h = cc
below_of (c ∷ oid) [] h = cc
below_of [] (d ∷ other) h = shorter
below_of (c ∷ oid) (d ∷ other) h = elim (Bool-cases (ltb d c)) [
  | inl less ↦ absurd (ground arith)
  | inr more ↦ elim (Bool-cases (ltb c d)) [
    | inl less ↦ first (ground arith)
    | inr same ↦
        let e : c ≡ d = ground arith in
        let tail : oid_leb other oid ≡ false = rw (more, same) at h in
        rw e (later (below_of oid other tail))
  ]
]

leb_of : (oid other : Oid) → oid ≺ other → oid_leb other oid ≡ false
unfolding oid_leb
leb_of [] [] h = elim h [ ]
leb_of (c ∷ oid) [] h = elim h [ ]
leb_of [] (d ∷ other) shorter = refl
leb_of (c ∷ oid) (d ∷ other) (first less) = ground arith
leb_of (c ∷ oid) (_ ∷ other) (later less) = ground (arith, leb_of oid other less)

-- One identifier is below another exactly if the other is not at most it in the order of the program.
pub ≺_iff : (oid other : Oid) → (oid_leb other oid ≡ false) ↔ (oid ≺ other)
≺_iff oid other = (below_of oid other, leb_of oid other)

pub ≺_trans : {a b c : Oid} → a ≺ b → b ≺ c → a ≺ c
≺_trans shorter (first less) = shorter
≺_trans shorter (later h) = shorter
≺_trans (first less) (first less') = first (omega arith)
≺_trans (first less) (later h) = first less
≺_trans (later h) (first less) = first less
≺_trans (later h) (later h') = later (≺_trans h h')

pub leb_refl : (a : Oid) → oid_leb a a ≡ true
unfolding oid_leb
leb_refl [] = refl
leb_refl (c ∷ a) = ground (arith, leb_refl a)

≺_irrefl : (a : Oid) → ¬ (a ≺ a)
≺_irrefl a h = absurd (cc (leb_of a a h, leb_refl a))

pub ≺_apart : (a b : Oid) → a ≺ b → a ≢ b
≺_apart a b h e = ≺_irrefl b (rw e at h)
