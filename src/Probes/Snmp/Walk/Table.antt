-- ===== src/Probes/Snmp/Walk/Table.antt =====
-- A table that an agent serves, for the walk of src/probes/snmp.rs.
use idnx.Common.{
  ℕ, ◌<◌, ◌≡◌, refl, ap, true, false, ◌==◌, ◌⊎◌, inl, inr, Bool-cases, List, [], ◌∷◌, ◌++◌, All,
  arith, if◌then◌else◌,
}
use idnx.Probes.Snmp.{
  Oid, BerValue, starts_with, oid_leb, is_end_of_mib_view, is_absent, tag_end_of_mib_view,
}
use idnx.Probes.Snmp.Walk.Order.{◌≺◌, first, later, ≺_iff, ≺_trans, leb_refl}
use idnx.Probes.Snmp.Walk.Ascends.{IsAscending, keys}

-- The rows of a table that are under the root and above it.
abbrev pub wanted : Oid → List (Oid × BerValue) → List (Oid × BerValue)
wanted root [] = []
wanted root ((oid, value) ∷ table) =
    let rest = wanted root table in
    if oid_leb oid root then rest else if starts_with oid root then (oid, value) ∷ rest else rest

-- What an agent answers to the request for what comes after an identifier: the first row above it, or the
-- end of the view.
abbrev pub successor : Oid → List (Oid × BerValue) → Oid × BerValue
successor current [] = (current, BerValue.unknown tag_end_of_mib_view [])
successor current ((oid, value) ∷ table) =
    let rest = successor current table in if oid_leb oid current then rest else (oid, value)

abbrev pub IsPresent : Oid × BerValue → Type 0
IsPresent (oid, value) = (is_end_of_mib_view value ≡ false) × (is_absent value ≡ false)

leb_above : (a b c : Oid) → oid_leb a b ≡ true → b ≺ c → oid_leb a c ≡ true
leb_above a b c h less = elim (Bool-cases (oid_leb a c)) [
  | inl is ↦ is
  | inr more ↦ let back = (≺_iff b a).1 (≺_trans less ((≺_iff c a).0 more)) in absurd (cc)
]

inversion : (c d : ℕ) (a b : Oid) → c ∷ a ≺ d ∷ b → (c < d) ⊎ ((c ≡ d) × a ≺ b)
inversion c d a b (first less) = inl less
inversion c _ a b (later h) = inr (refl, h)

-- Beyond an identifier above the root that is not under it, none is.
beyond :
    (root o o' : Oid) → root ≺ o → o ≺ o' → starts_with o root ≡ false → starts_with o' root ≡ false
unfolding starts_with
beyond [] o o' h k out = cc
beyond (r ∷ root) [] o' h k out = elim h [ ]
beyond (r ∷ root) (c ∷ o) [] h k out = elim k [ ]
beyond (r ∷ root) (c ∷ o) (d ∷ o') h k out = elim (inversion r c root o h) [
  | inl less ↦ elim (inversion c d o o' k) [
    | inl less' ↦ ground arith
    | inr (same, _) ↦ ground arith
  ]
  | inr (same, h') ↦ elim (inversion c d o o' k) [
    | inl less' ↦ ground arith
    | inr (same', k') ↦
        let eq : (c == r) ≡ true = ground arith in
        let out' : starts_with o root ≡ false = rw eq at out in
        ground (arith, beyond root o o' h' k' out')
  ]
]

pub wanted_beyond :
    (root o : Oid) (table : List (Oid × BerValue))
    → root ≺ o
    → starts_with o root ≡ false
    → IsAscending o table
    → wanted root table ≡ []
wanted_beyond root o [] h out rest = refl
wanted_beyond root o ((oid, value) ∷ table) h out rest =
    let above = ≺_trans h rest.0 in
    let out' = beyond root o oid h rest.0 out in
    rw ((≺_iff root oid).1 above, out') (wanted_beyond root oid table above out' rest.1)

pub wanted_above :
    (root : Oid) (before suffix : List (Oid × BerValue))
    → All (λ o. oid_leb o root ≡ true) (keys before)
    → wanted root (before ++ suffix) ≡ wanted root suffix
wanted_above root [] suffix h = refl
wanted_above root ((oid, value) ∷ before) suffix h = rw h.0 (wanted_above root before suffix h.1)

pub successor_above :
    (current : Oid) (before suffix : List (Oid × BerValue))
    → All (λ o. oid_leb o current ≡ true) (keys before)
    → successor current (before ++ suffix) ≡ successor current suffix
successor_above current [] suffix h = refl
successor_above current ((oid, value) ∷ before) suffix h =
    rw h.0 (successor_above current before suffix h.1)

pub keys-append :
    (before suffix : List (Oid × BerValue)) → keys (before ++ suffix) ≡ keys before ++ keys suffix
keys-append [] suffix = refl
keys-append ((oid, value) ∷ before) suffix =
    ap (λ (t : List Oid). oid ∷ t) (keys-append before suffix)

pub All-middle {ℓ κ} :
    {A : Type ℓ} (P : A → Type κ) (xs : List A) (x : A) (ys : List A) → All P (xs ++ x ∷ ys) → P x
All-middle P [] x ys h = h.0
All-middle P (y ∷ xs) x ys h = All-middle P xs x ys h.1

-- The rows up to an identifier, and those above it.
pub splits :
    (root low : Oid) (table : List (Oid × BerValue))
    → IsAscending low table
    → (before suffix : List (Oid × BerValue)) × (table ≡ before ++ suffix)
      × All (λ o. oid_leb o root ≡ true) (keys before)
      × IsAscending root suffix
splits root low [] h = ([], [], refl, tt, tt)
splits root low ((oid, value) ∷ table) h = elim (Bool-cases (oid_leb oid root)) [
  | inl up_to ↦
      let (before, suffix, are, below, rest) = splits root oid table h.1 in
      (
        (oid, value) ∷ before,
        suffix,
        ap (λ (t : List (Oid × BerValue)). (oid, value) ∷ t) are,
        (up_to, below),
        rest,
      )
  | inr above ↦ ([], (oid, value) ∷ table, refl, tt, ((≺_iff root oid).0 above, h.1))
]

pub wanted_under :
    (root oid : Oid) (value : BerValue) (table : List (Oid × BerValue))
    → root ≺ oid
    → starts_with oid root ≡ true
    → wanted root ((oid, value) ∷ table) ≡ (oid, value) ∷ wanted root table
wanted_under root oid value table over under = rw ((≺_iff root oid).1 over, under) refl

pub All-right {ℓ κ} : {A : Type ℓ} (P : A → Type κ) (xs ys : List A) → All P (xs ++ ys) → All P ys
All-right P [] ys h = h
All-right P (x ∷ xs) ys h = All-right P xs ys h.1

-- The identifiers up to the one before a row are up to that of the row.
pub passed :
    (before : List (Oid × BerValue)) (current oid : Oid) (value : BerValue)
    → current ≺ oid
    → All (λ o. oid_leb o current ≡ true) (keys before)
    → All (λ o. oid_leb o oid ≡ true) (keys (before ++ (oid, value) ∷ []))
passed [] current oid value h below = (leb_refl oid, tt)
passed ((o, v) ∷ before) current oid value h below =
    (leb_above o current oid below.0 h, passed before current oid value h below.1)
