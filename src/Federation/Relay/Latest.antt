-- ===== src/Federation/Relay/Latest.antt =====
-- A deposit in src/federation/relay.rs and the next collection of its mailbox.
use mathlib.Core.List.{map-append}
use idnx.Common.{
  ℕ, ◌-◌, ◌<◌, ◌≡◌, refl, Text, Bool, true, false, not, ◌&&◌, List, [], ◌∷◌, ◌++◌, arith, length,
  Bool-cases, inl, inr, ltb, leb, text_eq_refl,
}
use idnx.Common.Dict
use idnx.Federation.Limits.{Checked, passed, refused, check_frame_length, max_envelope_bytes}
use idnx.Federation.Relay.{
  Held, RelayQueue, accepted, deposit, deposit_measured, push_if_room, push, capped, make_room,
  envelopes, is_known, expire, envelope_ttl, retain, collect, waiting_in, payloads, max_mailboxes,
  expire_older_than,
}
use idnx.Federation.Relay.Order.{waiting_in-retain_all}
use idnx.Federation.Relay.Bounds.{IsSound}
use idnx.Federation.Relay.Runs.{deposit-IsAnswered}

retain-last :
    (now ttl : ℕ) (held : List Held) (h : Held)
    → now - h.deposited < ttl
    → retain now ttl (held ++ h ∷ []) ≡ retain now ttl held ++ h ∷ []
unfolding retain
retain-last now ttl [] h fresh = ground arith
retain-last now ttl (x ∷ held) h fresh =
    let rest = retain-last now ttl held h fresh in
    elim (Bool-cases (ltb (now - x.deposited) ttl)) [
      | inl kept ↦ rw (kept, rest) refl
      | inr gone ↦ rw (gone, rest) refl
    ]

-- The mailbox ends with the envelope.
abbrev EndsWith : Text → List ℕ → ℕ → RelayQueue → Type 0
EndsWith mailbox envelope later q =
    (before : List Held) × (waiting_in q.mailboxes mailbox
      ≡ before ++ record { bytes = envelope; deposited = later } ∷ [])

push_if_room-EndsWith :
    (p : Bool × RelayQueue) (mailbox : Text) (envelope : List ℕ) (later : ℕ)
    → (push_if_room p mailbox (record { bytes = envelope; deposited = later })).0 ≡ accepted
    → EndsWith mailbox envelope later
        (push_if_room p mailbox (record { bytes = envelope; deposited = later })).1
unfolding push
push_if_room-EndsWith (false, q) mailbox envelope later e = absurd (cc)
push_if_room-EndsWith (true, q) mailbox envelope later e = (
  capped (waiting_in q.mailboxes mailbox),
  rw (Dict.get-put q.mailboxes mailbox _ mailbox, text_eq_refl mailbox) refl,
)

measured-EndsWith :
    (q : RelayQueue) (now later : ℕ) (mailbox : Text) (envelope : List ℕ) (c : Checked)
    → (deposit_measured q now later mailbox envelope c).0 ≡ accepted
    → EndsWith mailbox envelope later (deposit_measured q now later mailbox envelope c).1
measured-EndsWith q now later mailbox envelope (refused x) e = absurd (cc)
measured-EndsWith q now later mailbox envelope passed e =
    let r = expire now q in
    elim (Bool-cases
      (not (is_known (Dict.get r.mailboxes mailbox)) && leb max_mailboxes (length r.mailboxes))) [
        | inl closed ↦ absurd (let e' = rw closed at e in cc)
        | inr place ↦ rw place (
            push_if_room-EndsWith (make_room (envelopes r.mailboxes) (length envelope) r) mailbox
              envelope later (rw place at e))
      ]

-- In a sound queue, an envelope that was accepted and is collected next, within 24 hours, is the last that
-- the collection hands out.
pub collect-deposit :
    (q : RelayQueue) (now later then' : ℕ) (mailbox : Text) (envelope : List ℕ)
    → IsSound q
    → (deposit q now later mailbox envelope).0 ≡ accepted
    → then' - later < envelope_ttl
    → (before : List (List ℕ)) × ((collect (deposit q now later mailbox envelope).1 then' mailbox).0
        ≡ before ++ envelope ∷ [])
unfolding deposit collect expire_older_than
collect-deposit q now later then' mailbox envelope sound e soon =
    let (before, ends) =
      measured-EndsWith q now later mailbox envelope
        (check_frame_length (length envelope) max_envelope_bytes) e in
    let boxes = (deposit-IsAnswered q now later mailbox envelope sound).0.0.0 in
    (
      payloads (retain then' envelope_ttl before),
      rw
          (
            waiting_in-retain_all then' envelope_ttl
                (deposit q now later mailbox envelope).1.mailboxes mailbox boxes,
            ends,
            retain-last then' envelope_ttl before (record { bytes = envelope; deposited = later })
                soon,
          )
          (map-append (λ (x : Held). x.bytes) (retain then' envelope_ttl before)
            (record { bytes = envelope; deposited = later } ∷ [])),
    )
