-- ===== src/Federation/Relay/Boxes.antt =====
-- The mailboxes of src/federation/relay.rs, and what each change of them does to their sizes.
use idnx.Common.{
  ℕ, ◌+◌, ◌-◌, ◌≤◌, ◌≡◌, refl, sym, ap, ◌∙◌, Text, true, Option, none, some, List, [], ◌∷◌, arith,
  length, text_eq, text_eq_iff, Bool-cases, inl, inr, All, ltb,
}
use idnx.Common.Dict
use idnx.Common.Dict.{Dict}
use idnx.Federation.Limits.{max_envelope_bytes}
use idnx.Federation.Relay.{
  Held, size_of, size_of_all, retain, retain_all, with_mailbox, oldest, earlier, drop_first,
  envelopes, max_queued_envelopes,
}

abbrev pub IsEnvelope : Held → Type 0
IsEnvelope h = length h.bytes ≤ max_envelope_bytes

-- Not empty, at most 256 envelopes, and none above 1 MiB.
abbrev pub IsBox : List Held → Type 0
IsBox held = (1 ≤ length held) × (length held ≤ max_queued_envelopes) × All IsEnvelope held

-- Such mailboxes, with distinct names.
abbrev pub AreBoxes : Dict (List Held) → Type 0
AreBoxes [] = Unit
AreBoxes ((name, held) ∷ mailboxes) =
    IsBox held × (Dict.get mailboxes name ≡ none) × AreBoxes mailboxes

pub with_mailbox-AreBoxes :
    (name : Text) (held : List Held) (mailboxes : Dict (List Held))
    → length held ≤ max_queued_envelopes
    → All IsEnvelope held
    → Dict.get mailboxes name ≡ none
    → AreBoxes mailboxes
    → AreBoxes (with_mailbox name held mailboxes)
with_mailbox-AreBoxes name [] mailboxes n all fresh boxes = boxes
with_mailbox-AreBoxes name (h ∷ held) mailboxes n all fresh boxes =
    ((omega arith, n, all), fresh, boxes)

pub get-with_mailbox :
    (name : Text) (held : List Held) (mailboxes : Dict (List Held)) (k : Text)
    → (text_eq name k ≡ true → held ≡ [])
    → Dict.get mailboxes k ≡ none
    → Dict.get (with_mailbox name held mailboxes) k ≡ none
unfolding Dict.get
get-with_mailbox name [] mailboxes k apart h = h
get-with_mailbox name (x ∷ held) mailboxes k apart h = ground arith

pub with_mailbox-sizes :
    (name : Text) (held : List Held) (mailboxes : Dict (List Held))
    → (size_of_all (with_mailbox name held mailboxes) ≡ size_of held + size_of_all mailboxes)
      × (envelopes (with_mailbox name held mailboxes) ≡ length held + envelopes mailboxes)
      × (length (with_mailbox name held mailboxes) ≤ 1 + length mailboxes)
with_mailbox-sizes name [] mailboxes = (omega arith, omega arith, omega arith)
with_mailbox-sizes name (h ∷ held) mailboxes = (refl, refl, omega arith)

retain_lem :
    (now ttl : ℕ) (held : List Held)
    → All IsEnvelope held
    → All IsEnvelope (retain now ttl held)
      × (length (retain now ttl held) ≤ length held)
      × (size_of (retain now ttl held) ≤ size_of held)
unfolding retain
retain_lem now ttl [] h = (tt, omega arith, omega arith)
retain_lem now ttl (x ∷ held) h =
    let (all, shorter, smaller) = retain_lem now ttl held h.1 in
    elim (Bool-cases (ltb (now - x.deposited) ttl)) [
      | inl fresh ↦ rw fresh ((h.0, all), omega arith, omega arith)
      | inr old ↦ rw old (all, omega arith, omega arith)
    ]

pub get-retain_all :
    (now ttl : ℕ) (mailboxes : Dict (List Held)) (k : Text)
    → Dict.get mailboxes k ≡ none
    → Dict.get (retain_all now ttl mailboxes) k ≡ none
unfolding retain_all Dict.get
get-retain_all now ttl [] k h = refl
get-retain_all now ttl ((name, held) ∷ mailboxes) k h = elim (Bool-cases (text_eq name k)) [
  | inl same ↦ let h' : some held ≡ none = rw same at h in cc
  | inr other ↦
      get-with_mailbox name (retain now ttl held) (retain_all now ttl mailboxes) k (λ same. cc)
        (get-retain_all now ttl mailboxes k (rw other at h))
]

-- Expiry keeps the mailboxes well formed, and makes nothing larger.
pub retain_all-AreBoxes :
    (now ttl : ℕ) (mailboxes : Dict (List Held))
    → AreBoxes mailboxes
    → AreBoxes (retain_all now ttl mailboxes)
      × (length (retain_all now ttl mailboxes) ≤ length mailboxes)
      × (size_of_all (retain_all now ttl mailboxes) ≤ size_of_all mailboxes)
unfolding retain_all
retain_all-AreBoxes now ttl [] h = (tt, omega arith, omega arith)
retain_all-AreBoxes now ttl ((name, held) ∷ mailboxes) ((some', few, all), fresh, boxes) =
    let (rest, shorter, smaller) = retain_all-AreBoxes now ttl mailboxes boxes in
    let (all', shorter', smaller') = retain_lem now ttl held all in
    let (size, count, longer) =
      with_mailbox-sizes name (retain now ttl held) (retain_all now ttl mailboxes) in
    (
      with_mailbox-AreBoxes name (retain now ttl held) (retain_all now ttl mailboxes) (omega arith)
          all' (get-retain_all now ttl mailboxes name fresh) rest,
      omega arith,
      omega arith,
    )

found_here :
    (n name : Text) (x h : Held) (held : List Held) (mailboxes : Dict (List Held))
    → ◌≡◌ {A = Option (Text × Held)} (some (n, x)) (some (name, h))
    → (rest : List Held) × (Dict.get ((n, x ∷ held) ∷ mailboxes) name ≡ some (h ∷ rest))
unfolding Dict.get
found_here n name x h held mailboxes e =
    let same : n ≡ name = cc in
    let first : x ≡ h = cc in
    (held, rw ((text_eq_iff n name).1 same) (ap (λ (y : Held). some (y ∷ held)) first))

found_there :
    (n name : Text) (x h : Held) (held : List Held) (mailboxes : Dict (List Held))
    → Dict.get mailboxes n ≡ none
    → (rest : List Held) × (Dict.get mailboxes name ≡ some (h ∷ rest))
    → (rest : List Held) × (Dict.get ((n, x ∷ held) ∷ mailboxes) name ≡ some (h ∷ rest))
unfolding Dict.get
found_there n name x h held mailboxes fresh (rest, e) = elim (Bool-cases (text_eq n name)) [
  | inl same ↦
      let same' : n ≡ name = (text_eq_iff n name).0 same in
      let e' : none ≡ some (h ∷ rest) = sym fresh ∙ ap (Dict.get mailboxes) same' ∙ e in absurd (cc)
  | inr other ↦ (rest, rw other e)
]

earlier_found :
    (n name : Text) (x h : Held) (held : List Held) (mailboxes : Dict (List Held))
    (o : Option (Text × Held))
    → Dict.get mailboxes n ≡ none
    → earlier (some (n, x)) o ≡ some (name, h)
    → (o ≡ some (name, h) → (rest : List Held) × (Dict.get mailboxes name ≡ some (h ∷ rest)))
    → (rest : List Held) × (Dict.get ((n, x ∷ held) ∷ mailboxes) name ≡ some (h ∷ rest))
earlier_found n name x h held mailboxes none fresh e later = found_here n name x h held mailboxes e
earlier_found n name x h held mailboxes (some b) fresh e later =
    elim (Bool-cases (ltb b.1.deposited x.deposited)) [
      | inl sooner ↦ found_there n name x h held mailboxes fresh (later (rw sooner at e))
      | inr not_sooner ↦ found_here n name x h held mailboxes (rw not_sooner at e)
    ]

-- The mailbox of the oldest envelope starts with it.
pub oldest_lem :
    (mailboxes : Dict (List Held)) (name : Text) (h : Held)
    → AreBoxes mailboxes
    → oldest mailboxes ≡ some (name, h)
    → (rest : List Held) × (Dict.get mailboxes name ≡ some (h ∷ rest))
unfolding oldest
oldest_lem [] name h boxes e = absurd (cc)
oldest_lem ((n, []) ∷ mailboxes) name h ((some', few, all), fresh, boxes) e = absurd (omega arith)
oldest_lem ((n, x ∷ held) ∷ mailboxes) name h (box, fresh, boxes) e =
    earlier_found n name x h held mailboxes (oldest mailboxes) fresh e
      (oldest_lem mailboxes name h boxes)

pub oldest_exists :
    (mailboxes : Dict (List Held))
    → AreBoxes mailboxes
    → oldest mailboxes ≡ none
    → size_of_all mailboxes ≡ 0
unfolding oldest
oldest_exists [] boxes e = refl
oldest_exists ((n, []) ∷ mailboxes) ((some', few, all), fresh, boxes) e = absurd (omega arith)
oldest_exists ((n, x ∷ held) ∷ mailboxes) boxes e = absurd (ground arith)

-- Taking the first envelope of a mailbox away.
pub drop_first-AreBoxes :
    (name : Text) (mailboxes : Dict (List Held))
    → AreBoxes mailboxes
    → AreBoxes (drop_first name mailboxes)
      × (length (drop_first name mailboxes) ≤ length mailboxes)
      × ((k : Text) → Dict.get mailboxes k ≡ none → Dict.get (drop_first name mailboxes) k ≡ none)
unfolding drop_first Dict.get
drop_first-AreBoxes name [] boxes = (tt, omega arith, λ k h. h)
drop_first-AreBoxes name ((n, []) ∷ mailboxes) ((some', few, all), fresh, boxes) =
    absurd (omega arith)
drop_first-AreBoxes name ((n, x ∷ held) ∷ mailboxes) ((some', few, all), fresh, boxes) =
    let (rest, shorter, gone) = drop_first-AreBoxes name mailboxes boxes in
    let (size, count, longer) = with_mailbox-sizes n held mailboxes in
    elim (Bool-cases (text_eq n name)) [
      | inl same ↦ rw same (
        with_mailbox-AreBoxes n held mailboxes (omega arith) all.1 fresh boxes,
        omega arith,
        λ k h. elim (Bool-cases (text_eq n k)) [
          | inl named ↦ let h' : some (x ∷ held) ≡ none = rw named at h in absurd (cc)
          | inr other ↦ get-with_mailbox n held mailboxes k (λ named. cc) (rw other at h)
        ],
      )
      | inr other ↦ rw other (
        ((some', few, all), gone n fresh, rest),
        omega arith,
        λ k h. elim (Bool-cases (text_eq n k)) [
          | inl named ↦ let h' : some (x ∷ held) ≡ none = rw named at h in absurd (cc)
          | inr elsewhere ↦ rw elsewhere (gone k (rw elsewhere at h))
        ],
      )
    ]

pub drop_first-sizes :
    (name : Text) (h : Held) (rest : List Held) (mailboxes : Dict (List Held))
    → Dict.get mailboxes name ≡ some (h ∷ rest)
    → (size_of_all (drop_first name mailboxes) + length h.bytes ≡ size_of_all mailboxes)
      × (envelopes (drop_first name mailboxes) + 1 ≡ envelopes mailboxes)
unfolding drop_first Dict.get
drop_first-sizes name h rest [] e = absurd (cc)
drop_first-sizes name h rest ((n, held) ∷ mailboxes) e = elim (Bool-cases (text_eq n name)) [
  | inl same ↦
      let e' : some held ≡ some (h ∷ rest) = rw same at e in
      let is : held ≡ h ∷ rest = cc in
      let (size, count, longer) = with_mailbox-sizes n rest mailboxes in
      rw (same, is) (omega arith, omega arith)
  | inr other ↦
      let (size, count) = drop_first-sizes name h rest mailboxes (rw other at e) in
      rw other (omega arith, omega arith)
]
