-- ===== src/Federation/Relay/Bounds.antt =====
-- The limits of the queue in src/federation/relay.rs, through every operation.
use idnx.Common.{
  ℕ, suc, ◌+◌, ◌-◌, ◌≤◌, ◌≡◌, refl, sym, ap, ◌∙◌, Text, true, false, none, some, List, [], ◌∷◌,
  ◌++◌, arith, length, length-append, Bool-cases, Option-cases, inl, inr, text_eq, text_eq_iff, All,
  All-last,
}
use idnx.Common.Dict
use idnx.Common.Dict.{Dict}
use idnx.Federation.Relay
use idnx.Federation.Relay.{
  Held, RelayQueue, size_of, size_of_all, envelopes, waiting_in, or_default, max_total_bytes,
  max_mailboxes, max_queued_envelopes, expire_older_than, retain_all, tail, freed, capped, push,
  is_full, is_known, without,
}
use idnx.Federation.Relay.Boxes.{IsEnvelope, IsBox, AreBoxes, retain_all-AreBoxes}
use idnx.Federation.Relay.Room.{IsCounted, IsOpen}

-- Every limit of the queue holds, and the total is the sum of what it holds.
abbrev pub IsSound : RelayQueue → Type 0
IsSound q = IsCounted q × (length q.mailboxes ≤ max_mailboxes) × (q.total_bytes ≤ max_total_bytes)

put-sizes :
    (mailboxes : Dict (List Held)) (name : Text) (held : List Held)
    → (size_of_all (Dict.put mailboxes name held) + size_of (waiting_in mailboxes name)
        ≡ size_of_all mailboxes + size_of held)
unfolding Dict.put Dict.get
put-sizes [] name held = omega arith
put-sizes ((n, w) ∷ mailboxes) name held = elim (Bool-cases (text_eq n name)) [
  | inl same ↦ rw same (omega arith)
  | inr other ↦ rw other (let rest = put-sizes mailboxes name held in omega arith)
]

-- A new name adds a mailbox.
put-length :
    (mailboxes : Dict (List Held)) (name : Text) (held : List Held)
    → (length (Dict.put mailboxes name held) ≤ 1 + length mailboxes)
      × ((v : List Held)
          → Dict.get mailboxes name ≡ some v
          → length (Dict.put mailboxes name held) ≡ length mailboxes)
unfolding Dict.put Dict.get
put-length [] name held = (omega arith, λ v e. absurd (cc))
put-length ((n, w) ∷ mailboxes) name held =
    let (longer, same_length) = put-length mailboxes name held in
    elim (Bool-cases (text_eq n name)) [
      | inl same ↦ rw same (omega arith, λ v e. refl)
      | inr other ↦ rw other (omega arith, λ v e. ap suc (same_length v e))
    ]

put-AreBoxes :
    (mailboxes : Dict (List Held)) (name : Text) (held : List Held)
    → IsBox held
    → AreBoxes mailboxes
    → AreBoxes (Dict.put mailboxes name held)
unfolding Dict.put Dict.get
put-AreBoxes [] name held box boxes = (box, refl, tt)
put-AreBoxes ((n, w) ∷ mailboxes) name held box (box', fresh, boxes) =
    elim (Bool-cases (text_eq n name)) [
      | inl same ↦ rw same (box, fresh, boxes)
      | inr other ↦
          let still : Dict.get (Dict.put mailboxes name held) n ≡ none =
            ground
              (arith, Dict.get-put mailboxes name held n, text_eq_iff n name, text_eq_iff name n) in
          rw other (box', still, put-AreBoxes mailboxes name held box boxes)
    ]

pub remove_sizes :
    (mailboxes : Dict (List Held)) (name : Text)
    → AreBoxes mailboxes
    → AreBoxes (Dict.remove mailboxes name)
      × (size_of_all (Dict.remove mailboxes name) + size_of (waiting_in mailboxes name)
          ≡ size_of_all mailboxes)
      × (length (Dict.remove mailboxes name) ≤ length mailboxes)
unfolding Dict.remove Dict.get
remove_sizes [] name boxes = (tt, omega arith, omega arith)
remove_sizes ((n, w) ∷ mailboxes) name (box, fresh, boxes) =
    let (boxes', size, shorter) = remove_sizes mailboxes name boxes in
    elim (Bool-cases (text_eq n name)) [
      | inl same ↦
          let gone : Dict.get mailboxes name ≡ none =
            sym (ap (Dict.get mailboxes) ((text_eq_iff n name).0 same)) ∙ fresh in
          let size' = rw gone at size in rw same (boxes', omega arith, omega arith)
      | inr other ↦
          let still : Dict.get (Dict.remove mailboxes name) n ≡ none =
            ground
              (arith, Dict.get-remove mailboxes name n, text_eq_iff n name, text_eq_iff name n) in
          rw other ((box, still, boxes'), omega arith, omega arith)
    ]

pub without_lem : (total : ℕ) (held : List Held) → without total held ≡ total - size_of held
without_lem total [] = omega arith
without_lem total (h ∷ held) = without_lem (total - length h.bytes) held ∙ omega arith

waiting_in_size :
    (mailboxes : Dict (List Held)) (name : Text)
    → size_of (waiting_in mailboxes name) ≤ size_of_all mailboxes
unfolding Dict.get
waiting_in_size [] name = omega arith
waiting_in_size ((n, w) ∷ mailboxes) name = ground (arith, waiting_in_size mailboxes name)

pub waiting_in_lem :
    (mailboxes : Dict (List Held)) (name : Text)
    → AreBoxes mailboxes
    → (length (waiting_in mailboxes name) ≤ max_queued_envelopes)
      × All IsEnvelope (waiting_in mailboxes name)
unfolding Dict.get
waiting_in_lem [] name boxes = (omega arith, tt)
waiting_in_lem ((n, w) ∷ mailboxes) name ((some', few, all), fresh, boxes) =
    elim (Bool-cases (text_eq n name)) [
      | inl same ↦ rw same (few, all)
      | inr other ↦ rw other (waiting_in_lem mailboxes name boxes)
    ]

size_of-append : (held rest : List Held) → size_of (held ++ rest) ≡ size_of held + size_of rest
size_of-append [] rest = omega arith
size_of-append (h ∷ held) rest = let more = size_of-append held rest in omega arith

capped_lem :
    (held : List Held) (h : Held)
    → length held ≤ max_queued_envelopes
    → All IsEnvelope held
    → IsEnvelope h
    → IsBox (capped held ++ h ∷ [])
      × (size_of (capped held ++ h ∷ []) + freed held ≡ size_of held + length h.bytes)
      × (freed held ≤ size_of held)
capped_lem [] h few all one = ((omega arith, omega arith, (one, tt)), omega arith, omega arith)
capped_lem (x ∷ held) h few all one = elim (Bool-cases (is_full (x ∷ held))) [
  | inl full ↦
      let longer = length-append held (h ∷ []) in
      let larger = size_of-append held (h ∷ []) in
      rw full
        ((omega arith, omega arith, All-last IsEnvelope held h all.1 one), omega arith, omega arith)
  | inr room ↦
      let longer = length-append held (h ∷ []) in
      let larger = size_of-append held (h ∷ []) in
      rw room (
        (omega arith, ground arith, All-last IsEnvelope (x ∷ held) h all one),
        omega arith,
        omega arith,
      )
]

pub new-IsSound : IsSound Relay.new
new-IsSound = ((tt, refl), omega arith, omega arith)

-- Expiry keeps every limit.
pub expire-IsSound :
    (now ttl : ℕ) (q : RelayQueue) → IsSound q → IsSound (expire_older_than now ttl q)
unfolding expire_older_than
expire-IsSound now ttl q ((boxes, total), few, small) =
    let (boxes', shorter, smaller) = retain_all-AreBoxes now ttl q.mailboxes boxes in
    ((boxes', refl), omega arith, omega arith)

pub push-IsSound :
    (q : RelayQueue) (mailbox : Text) (h : Held)
    → IsEnvelope h
    → IsCounted q
    → q.total_bytes + length h.bytes ≤ max_total_bytes
    → IsCounted (push q mailbox h) × ((push q mailbox h).total_bytes ≤ max_total_bytes)
unfolding push
push-IsSound q mailbox h one (boxes, total) room =
    let queue = waiting_in q.mailboxes mailbox in
    let (few, all) = waiting_in_lem q.mailboxes mailbox boxes in
    let (box, size, smaller) = capped_lem queue h few all one in
    let sizes = put-sizes q.mailboxes mailbox (capped queue ++ h ∷ []) in
    let within = waiting_in_size q.mailboxes mailbox in
    (
      (put-AreBoxes q.mailboxes mailbox (capped queue ++ h ∷ []) box boxes, omega arith),
      omega arith,
    )

pub length-push :
    (q : RelayQueue) (mailbox : Text) (h : Held)
    → IsOpen q mailbox
    → length q.mailboxes ≤ max_mailboxes
    → length (push q mailbox h).mailboxes ≤ max_mailboxes
unfolding push
length-push q mailbox h (inr place) few =
    let queue = waiting_in q.mailboxes mailbox in
    let (longer, same) = put-length q.mailboxes mailbox (capped queue ++ h ∷ []) in omega arith
length-push q mailbox h (inl known) few =
    let queue = waiting_in q.mailboxes mailbox in
    let (longer, same) = put-length q.mailboxes mailbox (capped queue ++ h ∷ []) in
    elim (Option-cases (Dict.get q.mailboxes mailbox)) [
      | inl unknown ↦ let known' : false ≡ true = rw unknown at known in absurd (cc)
      | inr (v, e) ↦ let equal = same v e in omega arith
    ]
