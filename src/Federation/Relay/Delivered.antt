-- ===== src/Federation/Relay/Delivered.antt =====
-- What src/federation/relay.rs accepts for one mailbox and hands out of it, over a run.
use mathlib.Core.List.{append_assoc, append-nil, Sublist}
use mathlib.Core.List.Sublist
use idnx.Common.{
  ℕ, sym, Text, Bool, true, false, not, ◌&&◌, List, [], ◌∷◌, ◌++◌, length, Bool-cases, inl, inr,
  leb, if◌then◌else◌, text_eq, ap, text_eq_iff,
}
use idnx.Common.Dict
use idnx.Federation.Limits.{Checked, passed, refused, check_frame_length, max_envelope_bytes}
use idnx.Federation.Relay
use idnx.Federation.Relay.{
  Held, RelayQueue, Deposit, accepted, failed, deposit, deposit_measured, push_if_room, push,
  make_room, envelopes, is_known, expire, expire_older_than, envelope_ttl, collect, waiting_in,
  payloads, max_mailboxes,
}
use idnx.Federation.Relay.Order.{
  Shrinks, waiting_in-retain_all, retain-Shrinks, make_room-Shrinks, push-Shrinks,
}
use idnx.Federation.Relay.Bounds.{IsSound, new-IsSound, expire-IsSound}
use idnx.Federation.Relay.Runs.{Call, deposit_at, collect_at, expire_at, call, call-IsSound}

expire-Shrinks :
    (now ttl : ℕ) (q : RelayQueue) (k : Text)
    → IsSound q
    → Shrinks (waiting_in (expire_older_than now ttl q).mailboxes k) (waiting_in q.mailboxes k)
unfolding expire_older_than
expire-Shrinks now ttl q k sound =
    rw (waiting_in-retain_all now ttl q.mailboxes k sound.0.0)
      (retain-Shrinks now ttl (waiting_in q.mailboxes k))

abbrev pub if_accepted : Deposit → List (List ℕ) → List (List ℕ)
if_accepted accepted envelopes = envelopes
if_accepted (failed e) envelopes = []

-- An operation leaves, in order, some of what waited and of what it stored.
push_if_room-Shrinks :
    (p : Bool × RelayQueue) (mailbox : Text) (h : Held) (k : Text) (before : List Held)
    → Shrinks (waiting_in p.1.mailboxes k) before
    → Sublist (payloads (waiting_in (push_if_room p mailbox h).1.mailboxes k)) (
        payloads before
        ++ if_accepted
            (push_if_room p mailbox h).0
            (if text_eq mailbox k then h.bytes ∷ [] else []))
push_if_room-Shrinks (false, q) mailbox h k before s = rw (append-nil (payloads before)) s
push_if_room-Shrinks (true, q) mailbox h k before s =
    Sublist.trans (push-Shrinks q mailbox h k) (Sublist.append s (Sublist.refl _))

measured-Shrinks :
    (q : RelayQueue) (now later : ℕ) (mailbox : Text) (envelope : List ℕ) (c : Checked) (k : Text)
    → IsSound q
    → Sublist
        (payloads (waiting_in (deposit_measured q now later mailbox envelope c).1.mailboxes k))
        (payloads (waiting_in q.mailboxes k)
          ++ if_accepted
              (deposit_measured q now later mailbox envelope c).0
              (if text_eq mailbox k then envelope ∷ [] else []))
measured-Shrinks q now later mailbox envelope (refused e) k sound =
    rw (append-nil (payloads (waiting_in q.mailboxes k))) (Sublist.refl _)
measured-Shrinks q now later mailbox envelope passed k sound =
    let r = expire now q in
    let expired = expire-Shrinks now envelope_ttl q k sound in
    elim (Bool-cases
      (not (is_known (Dict.get r.mailboxes mailbox)) && leb max_mailboxes (length r.mailboxes))) [
        | inl closed ↦ rw (closed, append-nil (payloads (waiting_in q.mailboxes k))) expired
        | inr place ↦ rw place (
            push_if_room-Shrinks (make_room (envelopes r.mailboxes) (length envelope) r) mailbox
              (record { bytes = envelope; deposited = later }) k (waiting_in q.mailboxes k)
              (Sublist.trans
                (make_room-Shrinks (envelopes r.mailboxes) (length envelope) r k
                  (expire-IsSound now envelope_ttl q sound).0)
                expired))
      ]

collect-Shrinks :
    (q : RelayQueue) (now : ℕ) (mailbox k : Text)
    → IsSound q
    → Sublist
        ((if text_eq mailbox k then (collect q now mailbox).0 else [])
          ++ payloads (waiting_in (collect q now mailbox).1.mailboxes k))
        (payloads (waiting_in q.mailboxes k))
unfolding collect
collect-Shrinks q now mailbox k sound =
    let r = expire now q in
    let expired = expire-Shrinks now envelope_ttl q k sound in
    rw (Dict.get-remove r.mailboxes mailbox k) (elim (Bool-cases (text_eq mailbox k)) [
      | inl same ↦
          let named = (text_eq_iff mailbox k).0 same in
          rw
            (
              same,
              ap (waiting_in r.mailboxes) named,
              append-nil (payloads (waiting_in r.mailboxes k)),
            )
            expired
      | inr other ↦ rw other expired
    ])

extends :
    (collected waiting after new stored : List (List ℕ))
    → Sublist (collected ++ waiting) stored
    → Sublist after (waiting ++ new)
    → Sublist (collected ++ after) (stored ++ new)
extends collected waiting after new stored order next =
    Sublist.trans (Sublist.append (Sublist.refl collected) next)
      (rw (sym (append_assoc collected waiting new)) (Sublist.append order (Sublist.refl new)))

-- The run as one mailbox sees it: the queue, the envelopes that were accepted for the mailbox, and
-- those that were handed out of it.
pub record Log : Type 0 where
  pub queue : RelayQueue
  pub stored : List (List ℕ)
  pub collected : List (List ℕ)

-- The mailbox.
module _ (k : Text) where
  unfoldable pub log : Log → Call → Log
  log l (deposit_at now later mailbox envelope) =
      let (answer, queue) = deposit l.queue now later mailbox envelope in
      record l {
        queue = queue;
        stored = l.stored ++ if_accepted answer (if text_eq mailbox k then envelope ∷ [] else []);
      }
  log l (collect_at now mailbox) =
      let (envelopes, queue) = collect l.queue now mailbox in
      record l {
        queue = queue;
        collected = l.collected ++ (if text_eq mailbox k then envelopes else []);
      }
  log l (expire_at now ttl) = record l { queue = expire_older_than now ttl l.queue }

  unfoldable pub logged : Log → List Call → Log
  logged l [] = l
  logged l (c ∷ cs) = logged (log l c) cs

  abbrev pub start : Log
  start = record { queue = Relay.new; stored = []; collected = [] }

  -- What was handed out and what waits.
  abbrev IsOrdered : Log → Type 0
  IsOrdered l =
      IsSound l.queue × Sublist (l.collected ++ payloads (waiting_in l.queue.mailboxes k)) l.stored

  log-IsOrdered : (l : Log) (c : Call) → IsOrdered l → IsOrdered (log l c)
  unfolding log deposit call
  log-IsOrdered l (deposit_at now later mailbox envelope) (sound, order) =
      let next =
        measured-Shrinks l.queue now later mailbox envelope
          (check_frame_length (length envelope) max_envelope_bytes) k sound in
      (
        call-IsSound l.queue (deposit_at now later mailbox envelope) sound,
        extends l.collected (payloads (waiting_in l.queue.mailboxes k)) _ _ l.stored order next,
      )
  log-IsOrdered l (collect_at now mailbox) (sound, order) = (
    call-IsSound l.queue (collect_at now mailbox) sound,
    rw (append_assoc l.collected) (
        Sublist.trans
          (Sublist.append (Sublist.refl _) (collect-Shrinks l.queue now mailbox k sound)) order),
  )
  log-IsOrdered l (expire_at now ttl) (sound, order) = (
    call-IsSound l.queue (expire_at now ttl) sound,
    Sublist.trans (Sublist.append (Sublist.refl _) (expire-Shrinks now ttl l.queue k sound)) order,
  )

  logged-IsOrdered : (cs : List Call) (l : Log) → IsOrdered l → IsOrdered (logged l cs)
  unfolding logged
  logged-IsOrdered [] l order = order
  logged-IsOrdered (c ∷ cs) l order = logged-IsOrdered cs (log l c) (log-IsOrdered l c order)

  -- Over any run, the envelopes that were handed out of a mailbox, followed by those that wait in it,
  -- are a sublist of those that were accepted for it: each at most once, in the order of the deposits.
  pub handed_out_in_order :
      (cs : List Call)
      → Sublist
          ((logged start cs).collected ++ payloads (waiting_in (logged start cs).queue.mailboxes k))
          (logged start cs).stored
  unfolding Dict.get
  handed_out_in_order cs = (logged-IsOrdered cs start (new-IsSound, Sublist.refl _)).1
