-- ===== src/Probes/Snmp/Turns.antt =====
-- The loop of `decode_pdu_body` in src/probes/snmp.rs over the list of varbinds.
use mathlib.Core.Path.{subst}
use idnx.Common.{
  ℕ, zero, suc, ◌+◌, ◌≤◌, ◌<◌, ◌≡◌, refl, ap, ◌∙◌, ◌⊎◌, inl, inr, Text, bytes, true, ◌==◌, ltb,
  Bool-cases, List, [], ◌∷◌, ◌++◌, length, arith, if◌then◌else◌,
}
use idnx.Probes.Snmp.{Oid, BerValue, tag_sequence, tag_object_identifier}
use idnx.Probes.Snmp.Reader.{
  Reader, Result, ok, err, BerError, too_many_varbinds, ◌>>=◌, done, remaining, tlv, expect,
  finished,
}
use idnx.Probes.Snmp.Decode.{read_varbind, read_varbinds, max_varbinds}
use idnx.Probes.Snmp.Inside.{IsInside, tlv-IsInside, >>=-ok}

expect-IsInside :
    (r : Reader) (tag : ℕ) (what : Text) (value after : Reader)
    → expect r tag what ≡ ok (value, after)
    → IsInside r value after
unfolding expect
expect-IsInside r tag what value after h =
    let (((found, v), s), reads, more) = >>=-ok (tlv r what) _ (value, after) h in
    elim (Bool-cases (found == tag)) [
      | inr differs ↦ absurd (cc (rw differs at more))
      | inl same ↦
          let is : ok (v, s) ≡ ok (value, after) = rw same at more in
          let value_is : v ≡ value = cc is in
          let after_is : s ≡ after = cc is in
          subst (λ x. IsInside r x after) value_is
            (subst (λ x. IsInside r v x) after_is (tlv-IsInside r what found v s reads))
    ]

-- A varbind takes bytes away.
read_varbind-lt :
    (r : Reader) (v : Oid × BerValue) (after : Reader)
    → read_varbind r ≡ ok (v, after)
    → remaining after < remaining r
unfolding read_varbind
read_varbind-lt r v after h =
    let ((varbind, s), reads, more) =
      >>=-ok (expect r tag_sequence (bytes "a varbind")) _ (v, after) h in
    let ((name, s'), _, more') =
      >>=-ok (expect varbind tag_object_identifier _) _ (v, after) more in
    let (((tag, value), end), _, more'') = >>=-ok (tlv s' _) _ (v, after) more' in
    let (_, _, last) = >>=-ok (finished end _) _ (v, after) more'' in
    let is : s ≡ after = cc last in
    let h = expect-IsInside r tag_sequence (bytes "a varbind") varbind s reads in
    let further = h.further in
    let within = h.within in
    subst (λ x. remaining x < remaining r) is (omega (arith, ap length h.same))

Result-cases {ℓ} :
    {A : Type ℓ} (m : Result A) → ((a : A) × (m ≡ ok a)) ⊎ ((e : BerError) × (m ≡ err e))
Result-cases (ok a) = inl (a, refl)
Result-cases (err e) = inr (e, refl)

abbrev goes_on :
    List (Oid × BerValue)
    → Oid × BerValue
    → Reader
    → (Reader → List (Oid × BerValue) → Result (List (Oid × BerValue)))
    → Result (List (Oid × BerValue))
goes_on varbinds v after loop =
    if ltb max_varbinds (length varbinds + 1)
    then err too_many_varbinds
    else loop after (varbinds ++ v ∷ [])

-- One turn, with what the loop does from then on.
abbrev turn_with :
    Reader
    → List (Oid × BerValue)
    → (Reader → List (Oid × BerValue) → Result (List (Oid × BerValue)))
    → Result (List (Oid × BerValue))
turn_with r varbinds loop =
    if done r then ok varbinds else (do (v, after) ← read_varbind r; goes_on varbinds v after loop)

turn_with-eq :
    (r : Reader) (varbinds : List (Oid × BerValue))
    (loop loop' : Reader → List (Oid × BerValue) → Result (List (Oid × BerValue)))
    → ((after : Reader) (vs : List (Oid × BerValue))
        → remaining after < remaining r
        → loop after vs ≡ loop' after vs)
    → turn_with r varbinds loop ≡ turn_with r varbinds loop'
turn_with-eq r varbinds loop loop' same = elim (Bool-cases (done r)) [
  | inl end ↦ rw end refl
  | inr more ↦ elim (Result-cases (read_varbind r)) [
    | inr (e, fails) ↦ rw (more, fails) refl
    | inl ((v, after), reads) ↦ elim (Bool-cases (ltb max_varbinds (length varbinds + 1))) [
      | inl many ↦ rw (more, reads, many) refl
      | inr few ↦
          rw (more, reads, few) (same after (varbinds ++ v ∷ []) (read_varbind-lt r v after reads))
    ]
  ]
]

nothing_left : (r : Reader) → remaining r ≤ 0 → done r ≡ true
nothing_left r h = ground arith

same_result :
    (f g : ℕ) (r : Reader) (varbinds : List (Oid × BerValue))
    → remaining r ≤ f
    → remaining r ≤ g
    → read_varbinds f r varbinds ≡ read_varbinds g r varbinds
unfolding read_varbinds
same_result zero zero r varbinds hf hg = refl
same_result zero (suc g) r varbinds hf hg = rw (nothing_left r hf) refl
same_result (suc f) zero r varbinds hf hg = rw (nothing_left r hg) refl
same_result (suc f) (suc g) r varbinds hf hg =
    turn_with-eq r varbinds (read_varbinds f) (read_varbinds g)
      (λ after vs less. same_result f g after vs (omega arith) (omega arith))

-- With fuel for every byte that is left, the loop is its own unrolling: it ends at the end of the list, and
-- otherwise reads one varbind, is refused after more than 128, and goes on from there.
read_varbinds_lem :
    (fuel : ℕ) (r : Reader) (varbinds : List (Oid × BerValue))
    → remaining r ≤ fuel
    → read_varbinds fuel r varbinds ≡ (
        if done r
        then ok varbinds
        else (do (v, after) ← read_varbind r; goes_on varbinds v after (read_varbinds fuel)))
unfolding read_varbinds
read_varbinds_lem fuel r varbinds enough =
    same_result fuel (suc fuel) r varbinds enough (omega arith) ∙ unrolled
  where
    unrolled : read_varbinds (suc fuel) r varbinds ≡ turn_with r varbinds (read_varbinds fuel)
    unrolled = refl
