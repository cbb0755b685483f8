-- ===== src/Probes/Snmp/Walk/Ascends.antt =====
-- The rows that `snmp_walk_target` of src/probes/snmp.rs collects.
use mathlib.Core.List.{append_assoc, append-nil}
use idnx.Common.{
  ℕ, zero, suc, ◌≤◌, ◌≡◌, ◌≢◌, ◌⊎◌, refl, sym, ap, ◌∙◌, Text, true, false, ◌==◌, inl, inr,
  Bool-cases, List, [], ◌∷◌, ◌++◌, length, All, All-map, Distinct, arith,
}
use idnx.Probes.Snmp.{
  Oid, BerValue, SnmpMessage, starts_with, oid_leb, is_end_of_mib_view, is_absent,
  pdu_get_next_request,
}
use idnx.Probes.Snmp.Walk.{
  SnmpTarget, Answer, accepted, refused, Turn, stop, row, first_row, turn, Step, WalkEnd, Walk,
  snmp_request, walk_from, snmp_walk_target,
}
use idnx.Probes.Snmp.Walk.Accepts.{snmp_request_iff}
use idnx.Probes.Snmp.Walk.Order.{◌≺◌, ≺_iff, ≺_trans, ≺_apart}

-- Each row is above the one before it, and the first above `current`.
abbrev pub IsAscending : Oid → List (Oid × BerValue) → Type 0
IsAscending current [] = Unit
IsAscending current ((oid, value) ∷ rows) = current ≺ oid × IsAscending oid rows

abbrev pub IsUnder : Oid → Oid × BerValue → Type 0
IsUnder root (oid, value) = starts_with oid root ≡ true

abbrev pub keys {ℓ} : {B : Type ℓ} → List (Oid × B) → List Oid
keys [] = []
keys ((oid, value) ∷ rows) = oid ∷ keys rows

above :
    (low : Oid) (rows : List (Oid × BerValue))
    → IsAscending low rows
    → All (λ o. low ≺ o) (keys rows)
above low [] h = tt
above low ((oid, value) ∷ rows) h =
    (h.0, All-map (λ o. oid ≺ o) (λ o. low ≺ o) (keys rows) (λ o. ≺_trans h.0) (above oid rows h.1))

-- Rows that ascend are of different identifiers.
pub IsAscending-Distinct :
    (low : Oid) (rows : List (Oid × BerValue)) → IsAscending low rows → Distinct (keys rows)
IsAscending-Distinct low [] h = tt
IsAscending-Distinct low ((oid, value) ∷ rows) h = (
  All-map (λ o. oid ≺ o) (λ o. oid ≢ o) (keys rows) (≺_apart oid) (above oid rows h.1),
  IsAscending-Distinct oid rows h.1,
)

-- The row is one of these.
abbrev pub Has : List (Oid × BerValue) → Oid × BerValue → Type 0
Has [] x = ⊥
Has (y ∷ ys) x = (y ≡ x) ⊎ Has ys x

pub Has-all :
    (all rows : List (Oid × BerValue))
    → ((found : Oid × BerValue) → Has rows found → Has all found)
    → All (Has all) rows
Has-all all [] h = tt
Has-all all (first ∷ rows) h = (h first (inl refl), Has-all all rows (λ other k. h other (inr k)))

-- What a turn that adds a row has checked.
record IsRow (root current : Oid) (m : SnmpMessage) (oid : Oid) (value : BerValue) : Type 0 where
  pub fine : m.pdu.error_status ≡ 0
  pub is_first : (more : List (Oid × BerValue)) × (m.pdu.varbinds ≡ (oid, value) ∷ more)
  pub present : (is_end_of_mib_view value ≡ false) × (is_absent value ≡ false)
  pub under : starts_with oid root ≡ true
  pub advances : current ≺ oid

flags :
    (root current next : Oid) (found : BerValue) (vs : List (Oid × BerValue)) (oid : Oid)
    (value : BerValue)
    → first_row root current ((next, found) ∷ vs) ≡ row oid value
    → (is_end_of_mib_view found ≡ false)
      × (is_absent found ≡ false)
      × (starts_with next root ≡ true)
      × (oid_leb next current ≡ false)
      × (row next found ≡ row oid value)
unfolding first_row
flags root current next found vs oid value h = ground arith

first_row-IsRow :
    (root current : Oid) (vs : List (Oid × BerValue)) (oid : Oid) (value : BerValue)
    → first_row root current vs ≡ row oid value
    → ((more : List (Oid × BerValue)) × (vs ≡ (oid, value) ∷ more))
      × ((is_end_of_mib_view value ≡ false) × (is_absent value ≡ false))
      × (starts_with oid root ≡ true)
      × (oid_leb oid current ≡ false)
unfolding first_row
first_row-IsRow root current [] oid value h = absurd (cc h)
first_row-IsRow root current ((next, found) ∷ vs) oid value h =
    let (end, absent, under, advances, same) = flags root current next found vs oid value h in
    let oids : next ≡ oid = cc same in
    let values : found ≡ value = cc same in
    ((vs, cc), (rw values at end, rw values at absent), rw oids at under, rw oids at advances)

turn-IsRow :
    (root current : Oid) (a : Answer) (oid : Oid) (value : BerValue)
    → turn root current a ≡ row oid value
    → (m : SnmpMessage) × (a ≡ accepted m) × IsRow root current m oid value
unfolding turn
turn-IsRow root current (refused e) oid value h = absurd (cc h)
turn-IsRow root current (accepted m) oid value h = elim (Bool-cases (m.pdu.error_status == 0)) [
  | inr fails ↦ absurd (cc (rw fails at h))
  | inl fine ↦
      let (first, present, under, advances) =
        first_row-IsRow root current m.pdu.varbinds oid value (rw fine at h) in
      (
        m,
        refl,
        record {
          fine = ground arith;
          is_first = first;
          present = present;
          under = under;
          advances = (≺_iff current oid).0 advances;
        },
      )
]

module _ (lossy : List ℕ → Text) (target : SnmpTarget) (steps : ℕ → Step) where
  -- The answer that the walk got to the request for what comes after this identifier.
  abbrev answer_at : ℕ → Oid → Answer
  answer_at n current =
      let step = steps n in
      snmp_request lossy target pdu_get_next_request current step.request_id step.network

  -- Every row is the only varbind of the accepted answer to the request for what comes after the one before.
  abbrev pub AreAnswered : ℕ → Oid → List (Oid × BerValue) → Type 0
  AreAnswered n current [] = Unit
  AreAnswered n current ((oid, value) ∷ rows) =
      ((m : SnmpMessage) × (answer_at n current ≡ accepted m)
        × (m.pdu.error_status ≡ 0)
        × (m.pdu.varbinds ≡ (oid, value) ∷ []))
      × AreAnswered (suc n) oid rows

  -- The walk returns these rows after those it had.
  record Adds (root : Oid) (left n : ℕ) (current : Oid) (rows : List (Oid × BerValue)) (w : Walk)
      : Type 0 where
    pub more : List (Oid × BerValue)
    pub are : w.rows ≡ rows ++ more
    pub ascending : IsAscending current more
    pub under : All (IsUnder root) more
    pub few : length more ≤ left
    pub answered : AreAnswered n current more

  nothing :
      (root : Oid) (left n : ℕ) (current : Oid) (rows : List (Oid × BerValue)) (e : WalkEnd)
      → Adds root left n current rows (record { rows = rows; end = e })
  nothing root left n current rows e = record {
    more = [];
    are = sym (append-nil rows);
    ascending = tt;
    under = tt;
    few = omega arith;
    answered = tt;
  }

  only :
      (vs : List (Oid × BerValue)) (v : Oid × BerValue) (more : List (Oid × BerValue))
      → vs ≡ v ∷ more
      → length vs ≡ 1
      → vs ≡ v ∷ []
  only vs v [] e one = e
  only vs v (w ∷ more) e one = absurd (omega (arith, ap length e))

  one_more :
      (root : Oid) (left n : ℕ) (current oid : Oid) (value : BerValue) (m : SnmpMessage)
      (rows : List (Oid × BerValue)) (w : Walk)
      → answer_at n current ≡ accepted m
      → IsRow root current m oid value
      → Adds root left (suc n) oid (rows ++ (oid, value) ∷ []) w
      → Adds root (suc left) n current rows w
  one_more root left n current oid value m rows w asked r h =
      let step = steps n in
      let (arrivals, is, brings) =
        (snmp_request_iff lossy target pdu_get_next_request current step.request_id step.network
            m).0
          asked in
      let answers = brings.answers in
      let (more, first) = r.is_first in
      let few = h.few in
      record {
        more = (oid, value) ∷ h.more;
        are = h.are ∙ append_assoc rows ((oid, value) ∷ []) h.more;
        ascending = (r.advances, h.ascending);
        under = (r.under, h.under);
        few = omega arith;
        answered = (
          (m, asked, r.fine, only m.pdu.varbinds (oid, value) more first (answers.one r.fine)),
          h.answered,
        );
      }

  -- One turn, where the walk that goes on from a row returns its rows.
  taken :
      (root : Oid) (left n : ℕ) (current : Oid) (rows : List (Oid × BerValue))
      (next : Oid → BerValue → Walk)
      → ((oid : Oid) (value : BerValue)
          → Adds root left (suc n) oid (rows ++ (oid, value) ∷ []) (next oid value))
      → (t : Turn) → turn root current (answer_at n current) ≡ t
      → Adds root
          (suc left)
          n
          current
          rows
          (elim t [ stop e ↦ record { rows = rows; end = e } | row oid value ↦ next oid value ])
  taken root left n current rows next adds (stop e) is = nothing root (suc left) n current rows e
  taken root left n current rows next adds (row oid value) is =
      let (m, asked, r) = turn-IsRow root current (answer_at n current) oid value is in
      one_more root left n current oid value m rows (next oid value) asked r (adds oid value)

  walk_from-Adds :
      (root : Oid) (left n : ℕ) (current : Oid) (rows : List (Oid × BerValue))
      → Adds root left n current rows (walk_from lossy target root steps left n current rows)
  unfolding walk_from
  walk_from-Adds root zero n current rows = nothing root zero n current rows _
  walk_from-Adds root (suc left) n current rows =
      let step = steps n in
      elim (Bool-cases step.is_expired) [
        | inl expired ↦ rw expired (nothing root (suc left) n current rows _)
        | inr in_time ↦ rw in_time (
            taken root left n current rows _
              (λ oid value. walk_from-Adds root left (suc n) oid (rows ++ (oid, value) ∷ []))
              (turn root current (answer_at n current)) refl)
      ]

  -- The rows of a walk are above the root and ascend, are of different identifiers, are under the root and
  -- at most as many as the steps allowed, and each is the only varbind of the accepted answer to the
  -- request for what comes after the row before it.
  pub snmp_walk_target-AreAnswered :
      (root : Oid) (max_steps : ℕ)
      → (let w = snmp_walk_target lossy target root steps max_steps in
          IsAscending root w.rows
          × Distinct (keys w.rows)
          × All (IsUnder root) w.rows
          × (length w.rows ≤ max_steps)
          × AreAnswered 0 root w.rows)
  unfolding snmp_walk_target
  snmp_walk_target-AreAnswered root max_steps =
      let h = walk_from-Adds root max_steps 0 root [] in
      rw h.are
        (h.ascending, IsAscending-Distinct root h.more h.ascending, h.under, h.few, h.answered)
