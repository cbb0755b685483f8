-- ===== src/Examples/Restarting.antt =====
-- The file of src/federation/store.rs over restarts, with contents that are the state itself.
use idnx.Common.{ℕ, ◌≤◌, ◌≡◌, refl, some, List, [], ◌∷◌, arith, Distinct, text_eq}
use idnx.Common.Dict
use idnx.Federation.Identity.{PeerId, to_hex, encode_hex, hex_digit}
use idnx.Federation.Store
use idnx.Federation.Store.{Storage, replaced, failed}
use idnx.Federation.Store.Lives
use idnx.Federation.Store.Lives.{Event, lives}
use idnx.Federation.Store.Steps.{IsMirrored, Reads, state_of}
use idnx.Federation.Store.Kept.{numbers_once, cursors_kept}
use idnx.Examples.Fixtures.{toy}

abbrev plain_storage : Storage toy
plain_storage = record {
  Json = Store.StoredState;
  to_json = λ d. d;
  from_json = some;
  from_bytes = λ bs. 7;
  to_bytes = λ k. 1 ∷ [];
}

plain_storage-Reads : Reads toy plain_storage
plain_storage-Reads d = refl

abbrev neighbour : PeerId
neighbour = record { key = 171 ∷ [] }

abbrev first_day : List (Event toy plain_storage)
first_day =
    Lives.boot 7 replaced
    ∷ Lives.call (Lives.record_inbound neighbour 5 replaced)
    ∷ Lives.call (Lives.next_sequence replaced)
    ∷ []

-- A crash after the number reached the file, and a start that fails before one that succeeds.
abbrev second_day : List (Event toy plain_storage)
second_day =
    Lives.crash_in (Lives.next_sequence replaced)
    ∷ Lives.boot 8 failed
    ∷ Lives.boot 8 replaced
    ∷ Lives.call (Lives.record_inbound neighbour 4 replaced)
    ∷ Lives.call (Lives.next_sequence replaced)
    ∷ []

numbers_once_example :
    IsMirrored toy plain_storage
      (lives toy plain_storage (Lives.start toy plain_storage) second_day)
    × Distinct (lives toy plain_storage (Lives.start toy plain_storage) second_day).claimed
numbers_once_example = numbers_once toy plain_storage plain_storage-Reads second_day (omega arith)

recorded :
    Dict.get
      (state_of toy plain_storage
        (lives toy plain_storage (Lives.start toy plain_storage) first_day)).inbound_cursor
      (to_hex neighbour)
    ≡ some 5
unfolding lives Lives.happens Lives.answered Store.open_store Store.record_inbound
    Store.next_sequence Store.commit Store.persist Store.changed Dict.get Dict.insert Dict.remove
    to_hex encode_hex hex_digit text_eq
recorded = refl

cursors_kept_example :
    (high : ℕ) × (Dict.get
        (state_of toy plain_storage (
          lives toy plain_storage
            (lives toy plain_storage (Lives.start toy plain_storage) first_day)
            second_day)).inbound_cursor
        (to_hex neighbour)
      ≡ some high)
    × (5 ≤ high)
cursors_kept_example =
    cursors_kept toy plain_storage plain_storage-Reads first_day second_day (to_hex neighbour) 5
      recorded
