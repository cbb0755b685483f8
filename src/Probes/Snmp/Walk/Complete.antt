-- ===== src/Probes/Snmp/Walk/Complete.antt =====
-- The walk of src/probes/snmp.rs over an agent that serves a table.
use mathlib.Core.Path.{subst}
use mathlib.Core.List.{append_assoc, append-nil}
use idnx.Common.{
  ℕ, zero, suc, ◌<◌, ◌≡◌, refl, sym, ap, ◌∙◌, Text, true, false, ◌==◌, inl, inr, Bool-cases, List,
  [], ◌∷◌, ◌++◌, length, All, arith,
}
use idnx.Probes.Snmp.{
  Oid, BerValue, SnmpMessage, starts_with, oid_leb, is_end_of_mib_view, pdu_get_next_request,
}
use idnx.Probes.Snmp.Walk.{
  SnmpTarget, accepted, stop, row, first_row, turn, Step, end_of_mib_view, left_subtree, complete,
  snmp_request, walk_from, snmp_walk_target,
}
use idnx.Probes.Snmp.Walk.Order.{◌≺◌, ≺_iff, ≺_trans}
use idnx.Probes.Snmp.Walk.Ascends.{IsAscending, keys}
use idnx.Probes.Snmp.Walk.Table.{
  wanted, successor, IsPresent, wanted_beyond, wanted_above, successor_above, keys-append,
  All-middle, splits, wanted_under, All-right, passed,
}

module _ (lossy : List ℕ → Text) (target : SnmpTarget) (steps : ℕ → Step) where
  -- The agent answers the request for what comes after this identifier, at every step, with this row.
  abbrev pub IsServed : List (Oid × BerValue) → Oid → Type 0
  IsServed table current =
      (n : ℕ)
      → (let step = steps n in
          (m : SnmpMessage) × (snmp_request lossy target pdu_get_next_request current
              step.request_id step.network
            ≡ accepted m)
          × (m.pdu.error_status ≡ 0)
          × (m.pdu.varbinds ≡ successor current table ∷ []))

  -- One turn, by the row that the table has next.
  served_turn :
      (root current : Oid) (table : List (Oid × BerValue)) (n : ℕ) (v : Oid × BerValue)
      → IsServed table current
      → successor current table ≡ v
      → (let step = steps n in
          turn root current
            (snmp_request lossy target pdu_get_next_request current step.request_id step.network)
          ≡ first_row root current (v ∷ []))
  unfolding turn
  served_turn root current table n v serves next =
      let (m, asked, fine, is) = serves n in
      let zero' : (m.pdu.error_status == 0) ≡ true = ground arith in
      rw (asked, zero', is, next) refl

  ends :
      (root current : Oid)
      → first_row root current (successor current [] ∷ []) ≡ stop end_of_mib_view
  unfolding first_row is_end_of_mib_view
  ends root current = refl

  leaves :
      (root current oid : Oid) (value : BerValue)
      → IsPresent (oid, value)
      → starts_with oid root ≡ false
      → first_row root current ((oid, value) ∷ []) ≡ stop left_subtree
  unfolding first_row
  leaves root current oid value (end, absent) out = rw (end, absent, out) refl

  goes_on :
      (root current oid : Oid) (value : BerValue)
      → IsPresent (oid, value)
      → starts_with oid root ≡ true
      → current ≺ oid
      → first_row root current ((oid, value) ∷ []) ≡ row oid value
  unfolding first_row
  goes_on root current oid value (end, absent) under above =
      rw (end, absent, under, (≺_iff current oid).1 above) refl

  shifted :
      (before suffix : List (Oid × BerValue)) (current oid : Oid) (value : BerValue)
      → All
          (IsServed (before ++ (oid, value) ∷ suffix))
          (current ∷ keys (before ++ (oid, value) ∷ suffix))
      → All
          (IsServed ((before ++ (oid, value) ∷ []) ++ suffix))
          (oid ∷ keys ((before ++ (oid, value) ∷ []) ++ suffix))
  shifted before suffix current oid value serves =
      let of_keys = rw (keys-append before ((oid, value) ∷ suffix)) at serves.1 in
      subst (λ t. All (IsServed t) (oid ∷ keys t))
        (sym (append_assoc before ((oid, value) ∷ []) suffix))
        (
          All-middle (IsServed (before ++ (oid, value) ∷ suffix)) (keys before) oid (keys suffix)
              of_keys,
          serves.1,
        )

  -- The walk from an identifier up to which the table was passed.
  walk_suffix :
      (root : Oid) (left n : ℕ) (current : Oid) (rows before suffix : List (Oid × BerValue))
      → ((k : ℕ) → (steps k).is_expired ≡ false)
      → All (IsServed (before ++ suffix)) (current ∷ keys (before ++ suffix))
      → All IsPresent suffix
      → All (λ o. oid_leb o current ≡ true) (keys before)
      → IsAscending current suffix
      → ((o : Oid) → current ≺ o → root ≺ o)
      → length (wanted root suffix) < left
      → (let w = walk_from lossy target root steps left n current rows in
          (w.rows ≡ rows ++ wanted root suffix) × (complete w ≡ true))
  unfolding walk_from complete
  walk_suffix root zero n current rows before suffix in_time serves present below rises from
        enough =
      absurd (omega arith)
  walk_suffix root (suc left) n current rows before [] in_time serves present below rises from
        enough =
      let is =
        served_turn root current (before ++ []) n (successor current []) serves.0
          (successor_above current before [] below)
        ∙ ends root current in
      rw (in_time n, is) (sym (append-nil rows), refl)
  walk_suffix root (suc left) n current rows before ((oid, value) ∷ suffix) in_time serves present
        below rises from enough =
      let above = (≺_iff current oid).1 rises.0 in
      let next : successor current (before ++ (oid, value) ∷ suffix) ≡ (oid, value) =
        successor_above current before ((oid, value) ∷ suffix) below ∙ rw above refl in
      let is =
        served_turn root current (before ++ (oid, value) ∷ suffix) n (oid, value) serves.0 next in
      let over = from oid rises.0 in
      elim (Bool-cases (starts_with oid root)) [
        | inr out ↦
            rw
              (
                in_time n,
                is,
                leaves root current oid value present.0 out,
                (≺_iff root oid).1 over,
                out,
                wanted_beyond root oid suffix over out rises.1,
              )
              (sym (append-nil rows), refl)
        | inl under ↦
            let fewer : suc (length (wanted root suffix)) < suc left =
              rw (wanted_under root oid value suffix over under) at enough in
            let (more, fine) =
              walk_suffix root left (suc n) oid (rows ++ (oid, value) ∷ [])
                (before ++ (oid, value) ∷ []) suffix in_time
                (shifted before suffix current oid value serves) present.1
                (passed before current oid value rises.0 below) rises.1
                (λ o h. from o (≺_trans rises.0 h)) (omega arith) in
            rw
              (
                in_time n,
                is,
                goes_on root current oid value present.0 under rises.0,
                wanted_under root oid value suffix over under,
              )
              (more ∙ append_assoc rows ((oid, value) ∷ []) (wanted root suffix), fine)
      ]

  -- A walk within its time, over a table that ascends, whose rows are present and are each served, as is the
  -- first after the root, returns exactly the rows under the root and above it, in order, and is complete,
  -- if it may take more steps than there are such rows.
  pub snmp_walk_target-wanted :
      (root low : Oid) (table : List (Oid × BerValue)) (max_steps : ℕ)
      → ((k : ℕ) → (steps k).is_expired ≡ false)
      → IsAscending low table
      → All IsPresent table
      → All (IsServed table) (root ∷ keys table)
      → length (wanted root table) < max_steps
      → (let w = snmp_walk_target lossy target root steps max_steps in
          (w.rows ≡ wanted root table) × (complete w ≡ true))
  unfolding snmp_walk_target
  snmp_walk_target-wanted root low table max_steps in_time rises present serves enough =
      let (before, suffix, are, below, rest) = splits root low table rises in
      let same = ap (wanted root) are ∙ wanted_above root before suffix below in
      let (rows, fine) =
        walk_suffix root max_steps 0 root [] before suffix in_time
          (subst (λ t. All (IsServed t) (root ∷ keys t)) are serves)
          (All-right IsPresent before suffix (subst (All IsPresent) are present)) below rest
          (λ o h. h) (omega (arith, ap length same)) in
      (rows ∙ sym same, fine)
