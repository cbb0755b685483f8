-- ===== src/Federation/Relay/Runs.antt =====
-- Any run of operations on the queue of src/federation/relay.rs.
use idnx.Common.{
  ℕ, ◌+◌, ◌≤◌, ◌≡◌, ◌↔◌, refl, Text, Bool, true, false, not, ◌&&◌, List, [], ◌∷◌, arith, length,
  Bool-cases, inl, inr, leb,
}
use idnx.Common.Dict
use idnx.Federation.Limits.{Checked, passed, refused, max_envelope_bytes, check_frame_length}
use idnx.Federation.Relay
use idnx.Federation.Relay.{
  Held, RelayQueue, Deposit, accepted, failed, full, limit, max_total_bytes, max_mailboxes, expire,
  envelope_ttl, deposit, deposit_measured, push_if_room, push, make_room, envelopes, is_known,
  collect, waiting_in,
}
use idnx.Federation.Relay.Room.{IsCounted, IsOpen, make_room_ends, make_room-IsOpen}
use idnx.Federation.Relay.Bounds.{
  IsSound, new-IsSound, expire-IsSound, push-IsSound, length-push, remove_sizes, without_lem,
}

-- What `deposit` answers in a sound queue, and what it leaves; `open` is whether there is a mailbox.
abbrev IsAnswered : Type 0 → List ℕ → Deposit × RelayQueue → Type 0
IsAnswered Open envelope (answer, s) =
    IsSound s × ((answer ≡ accepted) ↔ ((length envelope ≤ max_envelope_bytes) × Open))

stored-IsAnswered :
    (r : RelayQueue) (p : Bool × RelayQueue) (mailbox : Text) (h : Held)
    → length h.bytes ≤ max_envelope_bytes
    → IsOpen r mailbox
    → p.0 ≡ true
    → IsCounted p.1
    → p.1.total_bytes + length h.bytes ≤ max_total_bytes
    → length p.1.mailboxes ≤ max_mailboxes
    → IsOpen p.1 mailbox
    → IsAnswered (IsOpen r mailbox) h.bytes (push_if_room p mailbox h)
stored-IsAnswered r (false, s) mailbox h fits place has counted room few place' = absurd (cc)
stored-IsAnswered r (true, s) mailbox h fits place has counted room few place' =
    let (counted', small) = push-IsSound s mailbox h fits counted room in
    ((counted', length-push s mailbox h place' few, small), (λ e. (fits, place), λ e. refl))

IsOpen-iff :
    (r : RelayQueue) (mailbox : Text)
    → IsOpen r mailbox ↔ (
        (not (is_known (Dict.get r.mailboxes mailbox)) && leb max_mailboxes (length r.mailboxes))
        ≡ false)
IsOpen-iff r mailbox = elim (Bool-cases (is_known (Dict.get r.mailboxes mailbox))) [
  | inl known ↦ (λ h. rw known refl, λ h. inl known)
  | inr unknown ↦ (
    λ h. elim h [ inl known ↦ absurd (cc) | inr place ↦ rw unknown (ground arith) ],
    λ h.
        inr (
          let h' : leb max_mailboxes (length r.mailboxes) ≡ false = rw unknown at h in
          ground arith),
  )
]

measured-IsAnswered :
    (q : RelayQueue) (now later : ℕ) (mailbox : Text) (envelope : List ℕ) (c : Checked)
    → IsSound q
    → check_frame_length (length envelope) max_envelope_bytes ≡ c
    → IsAnswered
        (IsOpen (expire now q) mailbox)
        envelope
        (deposit_measured q now later mailbox envelope c)
unfolding check_frame_length
measured-IsAnswered q now later mailbox envelope (refused e) sound is =
    (sound, (λ h. absurd (cc), λ h. absurd (ground arith)))
measured-IsAnswered q now later mailbox envelope passed sound is =
    let r = expire now q in
    let (counted, few, small) = expire-IsSound now envelope_ttl q sound in
    let fits : length envelope ≤ max_envelope_bytes = ground arith in
    let h : Held = record { bytes = envelope; deposited = later } in
    let (room, counted', small', (shorter, smaller)) =
      make_room_ends (envelopes r.mailboxes) (length envelope) r (omega arith) (omega arith)
        counted in
    elim (Bool-cases
      (not (is_known (Dict.get r.mailboxes mailbox)) && leb max_mailboxes (length r.mailboxes))) [
        | inl closed ↦ rw closed (
          (counted, few, small),
          (λ e. absurd (cc), λ h. absurd (let no = (IsOpen-iff r mailbox).0 h.1 in cc)),
        )
        | inr place ↦
            let place' = (IsOpen-iff r mailbox).1 place in
            rw place (
              stored-IsAnswered r (make_room (envelopes r.mailboxes) (length envelope) r) mailbox h
                fits place' room counted' small' (omega arith)
                (make_room-IsOpen (envelopes r.mailboxes) (length envelope) r mailbox counted few
                  place'))
      ]

-- In a sound queue a deposit is accepted exactly if the envelope has at most 1 MiB and, after expiry,
-- the mailbox is there or fewer than 4096 are: the loop that discards the oldest always makes room.
-- Either way the queue stays sound.
pub deposit-IsAnswered :
    (q : RelayQueue) (now later : ℕ) (mailbox : Text) (envelope : List ℕ)
    → IsSound q
    → IsSound (deposit q now later mailbox envelope).1
      × (((deposit q now later mailbox envelope).0 ≡ accepted)
          ↔ ((length envelope ≤ max_envelope_bytes) × IsOpen (expire now q) mailbox))
unfolding deposit
deposit-IsAnswered q now later mailbox envelope sound =
    measured-IsAnswered q now later mailbox envelope
      (check_frame_length (length envelope) max_envelope_bytes) sound refl

collect-IsSound :
    (q : RelayQueue) (now : ℕ) (mailbox : Text) → IsSound q → IsSound (collect q now mailbox).1
unfolding collect
collect-IsSound q now mailbox sound =
    let r = expire now q in
    let ((boxes, total), few, small) = expire-IsSound now envelope_ttl q sound in
    let (boxes', size, shorter) = remove_sizes r.mailboxes mailbox boxes in
    let left = without_lem r.total_bytes (waiting_in r.mailboxes mailbox) in
    ((boxes', omega arith), omega arith, omega arith)

-- What the relay is asked to do, with what its clock shows.
pub data Call : Type 0 where
  deposit_at : ℕ → ℕ → Text → List ℕ → Call
  collect_at : ℕ → Text → Call
  expire_at : ℕ → ℕ → Call

unfoldable pub call : RelayQueue → Call → RelayQueue
call q (deposit_at now later mailbox envelope) = (deposit q now later mailbox envelope).1
call q (collect_at now mailbox) = (collect q now mailbox).1
call q (expire_at now ttl) = Relay.expire_older_than now ttl q

unfoldable pub calls : RelayQueue → List Call → RelayQueue
calls q [] = q
calls q (c ∷ cs) = calls (call q c) cs

pub call-IsSound : (q : RelayQueue) (c : Call) → IsSound q → IsSound (call q c)
unfolding call
call-IsSound q (deposit_at now later mailbox envelope) sound =
    (deposit-IsAnswered q now later mailbox envelope sound).0
call-IsSound q (collect_at now mailbox) sound = collect-IsSound q now mailbox sound
call-IsSound q (expire_at now ttl) sound = expire-IsSound now ttl q sound

calls-IsSound : (cs : List Call) (q : RelayQueue) → IsSound q → IsSound (calls q cs)
unfolding calls
calls-IsSound [] q sound = sound
calls-IsSound (c ∷ cs) q sound = calls-IsSound cs (call q c) (call-IsSound q c sound)

-- After any run of deposits, collections and expiries, whatever the clock shows: no mailbox is empty or
-- holds more than 256 envelopes, no envelope is above 1 MiB, the names are distinct, there are at most
-- 4096 mailboxes, the total is the sum of the envelopes' sizes, and is at most 256 MiB.
pub runs_stay_within_limits : (cs : List Call) → IsSound (calls Relay.new cs)
runs_stay_within_limits cs = calls-IsSound cs Relay.new new-IsSound
