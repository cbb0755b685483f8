-- ===== src/Federation/Relay/Room.antt =====
-- The loop of `deposit` in src/federation/relay.rs that discards envelopes until there is room.
use idnx.Common.{
  ℕ, zero, suc, ◌+◌, ◌-◌, ◌≤◌, ◌≡◌, refl, sym, ◌∙◌, Text, true, Option, none, some, List, [], ◌∷◌,
  arith, length, Bool-cases, Option-cases, inl, inr, ◌⊎◌, ◌<◌, text_eq, ltb,
}
use idnx.Common.Dict
use idnx.Common.Dict.{Dict}
use idnx.Federation.Relay.{
  Held, RelayQueue, size_of, size_of_all, oldest, drop_first, envelopes, discard_oldest, discard,
  make_room, max_total_bytes, with_mailbox, tail, max_mailboxes, is_known,
}
use idnx.Federation.Relay.Boxes.{
  AreBoxes, oldest_lem, oldest_exists, drop_first-AreBoxes, drop_first-sizes,
}

-- The total is that of the mailboxes.
abbrev pub IsCounted : RelayQueue → Type 0
IsCounted q = AreBoxes q.mailboxes × (q.total_bytes ≡ size_of_all q.mailboxes)

-- `s` is no larger than `q`.
abbrev pub IsWithin : RelayQueue → RelayQueue → Type 0
IsWithin s q = (length s.mailboxes ≤ length q.mailboxes) × (s.total_bytes ≤ q.total_bytes)

pub discard_lem :
    (q r : RelayQueue) (o : Option (Text × Held))
    → IsCounted q
    → oldest q.mailboxes ≡ o
    → discard q o ≡ some r
    → IsCounted r × (envelopes r.mailboxes + 1 ≡ envelopes q.mailboxes) × IsWithin r q
discard_lem q r none counted found e = absurd (cc)
discard_lem q r (some (name, h)) (boxes, total) found e =
    let (rest, got) = oldest_lem q.mailboxes name h boxes found in
    let (size, count) = drop_first-sizes name h rest q.mailboxes got in
    let (boxes', shorter, gone) = drop_first-AreBoxes name q.mailboxes boxes in
    let is : record {
      mailboxes = drop_first name q.mailboxes;
      total_bytes = q.total_bytes - length h.bytes;
    }
        ≡ r =
      cc in
    rw (sym is) ((boxes', omega arith), count, (shorter, omega arith))

discards_none :
    (q : RelayQueue) (o : Option (Text × Held))
    → IsCounted q
    → oldest q.mailboxes ≡ o
    → discard q o ≡ none
    → q.total_bytes ≡ 0
discards_none q none (boxes, total) found e = total ∙ oldest_exists q.mailboxes boxes found
discards_none q (some (name, h)) counted found e = absurd (cc)

size_of_none : (held : List Held) → length held ≤ 0 → size_of held ≡ 0
size_of_none [] few = refl
size_of_none (h ∷ held) few = absurd (omega arith)

size_of_all_none :
    (mailboxes : Dict (List Held)) → envelopes mailboxes ≤ 0 → size_of_all mailboxes ≡ 0
size_of_all_none [] few = refl
size_of_all_none ((name, held) ∷ mailboxes) few =
    let here = size_of_none held (omega arith) in
    let there = size_of_all_none mailboxes (omega arith) in omega arith

-- With fuel for every envelope the loop ends with room, whenever the envelope fits at all.
pub make_room_ends :
    (fuel size : ℕ) (q : RelayQueue)
    → size ≤ max_total_bytes
    → envelopes q.mailboxes ≤ fuel
    → IsCounted q
    → ((make_room fuel size q).0 ≡ true)
      × IsCounted (make_room fuel size q).1
      × ((make_room fuel size q).1.total_bytes + size ≤ max_total_bytes)
      × IsWithin (make_room fuel size q).1 q
unfolding make_room discard_oldest
make_room_ends zero size q fits enough counted =
    let none_left = size_of_all_none q.mailboxes enough in
    let nothing = counted.1 ∙ none_left in
    (ground arith, counted, omega arith, (omega arith, omega arith))
make_room_ends (suc fuel) size q fits enough counted =
    elim (Bool-cases (ltb max_total_bytes (q.total_bytes + size))) [
      | inr room ↦ rw room (refl, counted, ground arith, (omega arith, omega arith))
      | inl over ↦ elim (Option-cases (discard_oldest q)) [
        | inl e ↦
            let nothing = discards_none q (oldest q.mailboxes) counted refl e in
            absurd (ground arith)
        | inr (r, e) ↦
            let (counted', fewer, (shorter, smaller)) =
              discard_lem q r (oldest q.mailboxes) counted refl e in
            let (room, counted'', fits', (shorter', smaller')) =
              make_room_ends fuel size r fits (omega arith) counted' in
            rw (over, e) (room, counted'', fits', (omega arith, omega arith))
      ]
    ]

-- There is a mailbox of this name, or one may be made.
abbrev pub IsOpen : RelayQueue → Text → Type 0
IsOpen q mailbox =
    (is_known (Dict.get q.mailboxes mailbox) ≡ true) ⊎ (length q.mailboxes < max_mailboxes)

-- A mailbox that a discard removes makes place for one.
abbrev StaysOpen : Dict (List Held) → Dict (List Held) → Text → Type 0
StaysOpen after before k = (is_known (Dict.get after k) ≡ true) ⊎ (length after < length before)

in_front :
    (k n : Text) (held : List Held) (after before : Dict (List Held))
    → is_known (Dict.get ((n, held) ∷ before) k) ≡ true
    → (is_known (Dict.get before k) ≡ true → StaysOpen after before k)
    → StaysOpen ((n, held) ∷ after) ((n, held) ∷ before) k
unfolding Dict.get
in_front k n held after before known later = elim (Bool-cases (text_eq n k)) [
  | inl here ↦ inl (rw here refl)
  | inr there ↦ elim (later (rw there at known)) [
    | inl still ↦ inl (rw there still)
    | inr fewer ↦ inr (omega arith)
  ]
]

first_dropped :
    (k n : Text) (held : List Held) (before : Dict (List Held))
    → is_known (Dict.get ((n, held) ∷ before) k) ≡ true
    → StaysOpen (with_mailbox n (tail held) before) ((n, held) ∷ before) k
unfolding Dict.get
first_dropped k n [] before known = inr (omega arith)
first_dropped k n (x ∷ []) before known = inr (omega arith)
first_dropped k n (x ∷ y ∷ held) before known = elim (Bool-cases (text_eq n k)) [
  | inl here ↦ inl (rw here refl)
  | inr there ↦ inl (rw there (rw there at known))
]

drop_first-StaysOpen :
    (name k : Text) (mailboxes : Dict (List Held))
    → is_known (Dict.get mailboxes k) ≡ true
    → StaysOpen (drop_first name mailboxes) mailboxes k
unfolding drop_first
drop_first-StaysOpen name k [] known = inl known
drop_first-StaysOpen name k ((n, held) ∷ mailboxes) known = elim (Bool-cases (text_eq n name)) [
  | inl same ↦ rw same (first_dropped k n held mailboxes known)
  | inr other ↦ rw other (
      in_front k n held (drop_first name mailboxes) mailboxes known
        (drop_first-StaysOpen name k mailboxes))
]

discard-IsOpen :
    (q r : RelayQueue) (o : Option (Text × Held)) (k : Text)
    → length r.mailboxes ≤ length q.mailboxes
    → length q.mailboxes ≤ max_mailboxes
    → discard q o ≡ some r
    → IsOpen q k
    → IsOpen r k
discard-IsOpen q r none k shorter few e h = absurd (cc)
discard-IsOpen q r (some (name, x)) k shorter few e (inr place) = inr (omega arith)
discard-IsOpen q r (some (name, x)) k shorter few e (inl known) =
    let is : drop_first name q.mailboxes ≡ r.mailboxes = cc in
    elim (drop_first-StaysOpen name k q.mailboxes known) [
      | inl still ↦ inl (rw is at still)
      | inr fewer ↦ inr (let fewer' = rw is at fewer in omega arith)
    ]

pub make_room-IsOpen :
    (fuel size : ℕ) (q : RelayQueue) (k : Text)
    → IsCounted q
    → length q.mailboxes ≤ max_mailboxes
    → IsOpen q k
    → IsOpen (make_room fuel size q).1 k
unfolding make_room discard_oldest
make_room-IsOpen zero size q k counted few h = h
make_room-IsOpen (suc fuel) size q k counted few h =
    elim (Bool-cases (ltb max_total_bytes (q.total_bytes + size))) [
      | inr room ↦ rw room h
      | inl over ↦ elim (Option-cases (discard_oldest q)) [
        | inl e ↦ rw (over, e) h
        | inr (r, e) ↦
            let (counted', fewer, (shorter, smaller)) =
              discard_lem q r (oldest q.mailboxes) counted refl e in
            rw (over, e)
              (make_room-IsOpen fuel size r k counted' (omega arith)
                (discard-IsOpen q r (oldest q.mailboxes) k shorter few e h))
      ]
    ]
