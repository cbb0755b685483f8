-- ===== src/Examples/Relaying.antt =====
-- The queue of src/federation/relay.rs and the source of src/federation/source.rs, over short runs.
use mathlib.Core.List.{Sublist}
use idnx.Common.{
  ℕ, ◌⊎◌, some, ◌+◌, ◌≤◌, ◌≡◌, ◌↔◌, refl, true, Text, bytes, List, [], ◌∷◌, ◌++◌, length, arith,
  text_eq,
}
use idnx.Common.Dict
use idnx.Federation.Identity.{PeerId, to_hex, encode_hex}
use idnx.Federation.Limits.{max_envelope_bytes, check_frame_length}
use idnx.Federation.Ledger.{Accepted}
use idnx.Federation.Relay
use idnx.Federation.Relay.{
  RelayQueue, Held, accepted, deposit, expire, make_room, waiting_in, payloads, max_total_bytes,
  envelopes,
}
use idnx.Federation.Relay.Room.{IsCounted, IsWithin, IsOpen, make_room_ends}
use idnx.Federation.Relay.Bounds.{IsSound, new-IsSound}
use idnx.Federation.Relay.Runs.{
  Call, deposit_at, collect_at, calls, deposit-IsAnswered, runs_stay_within_limits,
}
use idnx.Federation.Relay.Latest.{collect-deposit}
use idnx.Federation.Relay.Delivered
use idnx.Federation.Relay.Delivered.{logged, handed_out_in_order}
use idnx.Federation.Source.Handover
use idnx.Federation.Source.Handover.{taken_is_acknowledged}
use idnx.Federation.Bundle.{id}
use idnx.Federation.Relay.Client
use idnx.Federation.Relay.Client.Proven.{Turn, HasProof, handled, served_only_proven}
use idnx.Examples.Fixtures.{toy, plain, sighting}

abbrev roof : Text
roof = bytes "roof"

abbrev letters : List Call
letters =
    deposit_at 1 2 roof (bytes "first")
    ∷ deposit_at 3 4 (bytes "cellar") (bytes "other")
    ∷ collect_at 5 roof
    ∷ deposit_at 6 7 roof (bytes "second")
    ∷ []

handed_out_in_order_example :
    Sublist
      ((logged roof (Delivered.start roof) letters).collected
        ++ payloads (waiting_in (logged roof (Delivered.start roof) letters).queue.mailboxes roof))
      (logged roof (Delivered.start roof) letters).stored
handed_out_in_order_example = handed_out_in_order roof letters

-- The first letter was handed out and the second waits.
letters_test :
    ((logged roof (Delivered.start roof) letters).collected ≡ bytes "first" ∷ [])
    × ((logged roof (Delivered.start roof) letters).stored ≡ bytes "first" ∷ bytes "second" ∷ [])
unfolding logged Delivered.log deposit Relay.make_room Relay.push Relay.collect
    Relay.expire_older_than Relay.retain_all Relay.retain Dict.get Dict.put Dict.remove
    Relay.discard_oldest Relay.oldest text_eq check_frame_length
letters_test = (refl, refl)

runs_stay_within_limits_example : IsSound (calls Relay.new letters)
runs_stay_within_limits_example = runs_stay_within_limits letters

deposit-IsAnswered_example :
    IsSound (deposit Relay.new 1 2 roof (bytes "first")).1
    × (((deposit Relay.new 1 2 roof (bytes "first")).0 ≡ accepted)
        ↔ ((length (bytes "first") ≤ max_envelope_bytes) × IsOpen (expire 1 Relay.new) roof))
deposit-IsAnswered_example = deposit-IsAnswered Relay.new 1 2 roof (bytes "first") new-IsSound

abbrev held : RelayQueue
held = record {
  mailboxes = (roof, record { bytes = bytes "first"; deposited = 2 } ∷ []) ∷ [];
  total_bytes = 5;
}

held-IsCounted : IsCounted held
unfolding Dict.get
held-IsCounted = (((omega arith, omega arith, (omega arith, tt)), refl, tt), refl)

make_room_ends_example :
    ((make_room 1 max_total_bytes held).0 ≡ true)
    × IsCounted (make_room 1 max_total_bytes held).1
    × ((make_room 1 max_total_bytes held).1.total_bytes + max_total_bytes ≤ max_total_bytes)
    × IsWithin (make_room 1 max_total_bytes held).1 held
make_room_ends_example =
    make_room_ends 1 max_total_bytes held (omega arith) (omega arith) held-IsCounted

abbrev bundle : Accepted plain
bundle = record {
  peer = record { key = bytes "peer" };
  vantage = roof;
  sequence = 1;
  evidence = sighting ∷ [];
}

abbrev handed_over : List (Handover.Call plain)
handed_over = Handover.deliver bundle ∷ Handover.drain ∷ Handover.deliver bundle ∷ []

taken_is_acknowledged_example :
    ((Handover.calls plain
        (Handover.start plain)
        (handed_over ++ Handover.finish ∷ handed_over)).taken
      ≡ (Handover.calls plain
          (Handover.start plain)
          (handed_over ++ Handover.finish ∷ handed_over)).acknowledged)
    × ((Handover.calls plain
          (Handover.start plain)
          (handed_over ++ Handover.finish ∷ handed_over)).acknowledged
        ≡ (Handover.calls plain (Handover.start plain) handed_over).acknowledged)
taken_is_acknowledged_example = taken_is_acknowledged plain handed_over handed_over

first_accepted : (deposit Relay.new 1 2 roof (bytes "first")).0 ≡ accepted
unfolding deposit Relay.make_room Relay.expire_older_than Relay.retain_all Dict.get
    check_frame_length
first_accepted = refl

collect-deposit_example :
    (before : List (List ℕ)) × ((Relay.collect
        (deposit Relay.new 1 2 roof (bytes "first")).1
        9
        roof).0
      ≡ before ++ bytes "first" ∷ [])
collect-deposit_example =
    collect-deposit Relay.new 1 2 9 roof (bytes "first") new-IsSound first_accepted (omega arith)

-- A connection that proves who it is by the signature of its challenge, and then leaves a letter.
abbrev challenge : List ℕ
challenge = 9 ∷ 9 ∷ []

abbrev digest : List ℕ → List ℕ
digest message = message

abbrev turns : List Turn
turns =
    record {
      now = 1;
      later = 2;
      request =
          Client.authenticate (to_hex (id toy 7))
            (encode_hex (toy.sign 7 (Client.challenge_payload challenge)));
    }
    ∷ record { now = 3; later = 4; request = Client.deposit_for (to_hex (id toy 8)) (bytes "00ff") }
    ∷ []

served_only_proven_example :
    ((p : PeerId)
      → (handled toy digest (Client.new challenge) held turns).0.identity ≡ some p
      → HasProof toy digest challenge p turns)
    × (((handled toy digest (Client.new challenge) held turns).1 ≡ held)
        ⊎ ((p : PeerId) × HasProof toy digest challenge p turns))
served_only_proven_example = served_only_proven toy digest challenge held turns
