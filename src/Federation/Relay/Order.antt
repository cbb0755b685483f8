-- ===== src/Federation/Relay/Order.antt =====
-- The order in which src/federation/relay.rs hands envelopes out, of one mailbox over a run.
use mathlib.Core.List.{append-nil, map-append, Sublist}
use mathlib.Core.List.Sublist
use idnx.Common.{
  ℕ, zero, suc, ◌+◌, ◌-◌, ◌≡◌, refl, sym, ap, ◌∙◌, Text, Option, none, some, List, [], ◌∷◌, ◌++◌,
  Bool-cases, Option-cases, inl, inr, ltb, if◌then◌else◌, text_eq, text_eq_iff,
}
use idnx.Common.Dict
use idnx.Common.Dict.{Dict}
use idnx.Federation.Relay.{
  Held, RelayQueue, retain, retain_all, with_mailbox, drop_first, tail, discard, oldest,
  discard_oldest, make_room, push, capped, is_full, waiting_in, payloads, max_total_bytes,
}
use idnx.Federation.Relay.Boxes.{AreBoxes, get-retain_all}
use idnx.Federation.Relay.Room.{IsCounted, discard_lem}

-- What waits is what waited, in order, with some envelopes gone.
abbrev pub Shrinks : List Held → List Held → Type 0
Shrinks after before = Sublist (payloads after) (payloads before)

pub retain-Shrinks : (now ttl : ℕ) (held : List Held) → Shrinks (retain now ttl held) held
unfolding retain
retain-Shrinks now ttl [] = Sublist.refl _
retain-Shrinks now ttl (h ∷ held) = elim (Bool-cases (ltb (now - h.deposited) ttl)) [
  | inl fresh ↦ rw fresh (Sublist.cons-cons h.bytes (retain-Shrinks now ttl held))
  | inr old ↦ rw old (Sublist.cons h.bytes (retain-Shrinks now ttl held))
]

waiting_in-with_mailbox :
    (n : Text) (held : List Held) (mailboxes : Dict (List Held)) (k : Text)
    → Dict.get mailboxes n ≡ none
    → waiting_in (with_mailbox n held mailboxes) k ≡ waiting_in ((n, held) ∷ mailboxes) k
unfolding Dict.get
waiting_in-with_mailbox n [] mailboxes k fresh = elim (Bool-cases (text_eq n k)) [
  | inl same ↦
      let gone : Dict.get mailboxes k ≡ none =
        sym (ap (Dict.get mailboxes) ((text_eq_iff n k).0 same)) ∙ fresh in
      rw (same, gone) refl
  | inr other ↦ rw other refl
]
waiting_in-with_mailbox n (h ∷ held) mailboxes k fresh = refl

pub waiting_in-retain_all :
    (now ttl : ℕ) (mailboxes : Dict (List Held)) (k : Text)
    → AreBoxes mailboxes
    → waiting_in (retain_all now ttl mailboxes) k ≡ retain now ttl (waiting_in mailboxes k)
unfolding retain_all Dict.get retain
waiting_in-retain_all now ttl [] k boxes = refl
waiting_in-retain_all now ttl ((n, held) ∷ mailboxes) k (box, fresh, boxes) =
    let rest = waiting_in-retain_all now ttl mailboxes k boxes in
    let here =
      waiting_in-with_mailbox n (retain now ttl held) (retain_all now ttl mailboxes) k
        (get-retain_all now ttl mailboxes n fresh) in
    elim (Bool-cases (text_eq n k)) [
      | inl same ↦ rw same (rw same at here)
      | inr other ↦ rw other (rw other at here ∙ rest)
    ]

tail-Shrinks : (held : List Held) → Shrinks (tail held) held
tail-Shrinks [] = Sublist.refl _
tail-Shrinks (h ∷ held) = Sublist.cons h.bytes (Sublist.refl _)

drop_first-Shrinks :
    (name : Text) (mailboxes : Dict (List Held)) (k : Text)
    → AreBoxes mailboxes
    → Shrinks (waiting_in (drop_first name mailboxes) k) (waiting_in mailboxes k)
unfolding drop_first Dict.get
drop_first-Shrinks name [] k boxes = Sublist.refl _
drop_first-Shrinks name ((n, held) ∷ mailboxes) k (box, fresh, boxes) =
    let here = waiting_in-with_mailbox n (tail held) mailboxes k fresh in
    let rest = drop_first-Shrinks name mailboxes k boxes in
    elim (Bool-cases (text_eq n name)) [
      | inl same ↦
          rw (same, here)
            (elim (Bool-cases (text_eq n k)) [
              | inl named ↦ rw named (tail-Shrinks held)
              | inr other ↦ rw other (Sublist.refl _)
            ])
      | inr different ↦ rw different (elim (Bool-cases (text_eq n k)) [
        | inl named ↦ rw named (Sublist.refl _)
        | inr other ↦ rw other rest
      ])
    ]

discard-Shrinks :
    (q r : RelayQueue) (o : Option (Text × Held)) (k : Text)
    → AreBoxes q.mailboxes
    → discard q o ≡ some r
    → Shrinks (waiting_in r.mailboxes k) (waiting_in q.mailboxes k)
discard-Shrinks q r none k boxes e = absurd (cc)
discard-Shrinks q r (some (name, h)) k boxes e =
    let is : drop_first name q.mailboxes ≡ r.mailboxes = cc in
    rw (sym is) (drop_first-Shrinks name q.mailboxes k boxes)

pub make_room-Shrinks :
    (fuel size : ℕ) (q : RelayQueue) (k : Text)
    → IsCounted q
    → Shrinks (waiting_in (make_room fuel size q).1.mailboxes k) (waiting_in q.mailboxes k)
unfolding make_room discard_oldest
make_room-Shrinks zero size q k counted = Sublist.refl _
make_room-Shrinks (suc fuel) size q k counted =
    elim (Bool-cases (ltb max_total_bytes (q.total_bytes + size))) [
      | inr room ↦ rw room (Sublist.refl _)
      | inl over ↦ elim (Option-cases (discard_oldest q)) [
        | inl e ↦ rw (over, e) (Sublist.refl _)
        | inr (r, e) ↦
            let (counted', fewer, within) = discard_lem q r (oldest q.mailboxes) counted refl e in
            rw (over, e)
              (Sublist.trans (make_room-Shrinks fuel size r k counted')
                (discard-Shrinks q r (oldest q.mailboxes) k counted.0 e))
      ]
    ]

capped-Shrinks : (held : List Held) → Shrinks (capped held) held
capped-Shrinks held = elim (Bool-cases (is_full held)) [
  | inl full ↦ rw full (tail-Shrinks held)
  | inr room ↦ rw room (Sublist.refl _)
]

stored-Shrinks :
    (held : List Held) (h : Held)
    → Sublist (payloads (capped held ++ h ∷ [])) (payloads held ++ h.bytes ∷ [])
stored-Shrinks held h =
    rw (map-append (λ (x : Held). x.bytes) (capped held) (h ∷ []))
      (Sublist.append (capped-Shrinks held) (Sublist.refl _))

-- What is stored goes last.
pub push-Shrinks :
    (q : RelayQueue) (mailbox : Text) (h : Held) (k : Text)
    → Sublist
        (payloads (waiting_in (push q mailbox h).mailboxes k))
        (payloads (waiting_in q.mailboxes k) ++ (if text_eq mailbox k then h.bytes ∷ [] else []))
unfolding push
push-Shrinks q mailbox h k =
    rw (Dict.get-put q.mailboxes mailbox (capped (waiting_in q.mailboxes mailbox) ++ h ∷ []) k)
      (elim (Bool-cases (text_eq mailbox k)) [
        | inl same ↦
            let named = (text_eq_iff mailbox k).0 same in
            rw (same, sym (ap (waiting_in q.mailboxes) named))
              (stored-Shrinks (waiting_in q.mailboxes mailbox) h)
        | inr other ↦ rw (other, append-nil) (Sublist.refl _)
      ])
