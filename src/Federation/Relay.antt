-- ===== src/Federation/Relay.antt =====
-- The queue of src/federation/relay.rs: envelopes waiting for collection, by mailbox.
pub mod Boxes
pub mod Room
pub mod Bounds
pub mod Runs
pub mod Order
pub mod Delivered
pub mod Latest
pub mod Client
use idnx.Common.{
  ℕ, zero, suc, ◌+◌, ◌-◌, ◌*◌, Text, bytes, Bool, true, false, not, ◌&&◌, Option, none, some, List,
  [], ◌∷◌, ◌++◌, map, length, text_eq, ltb, leb, if◌then◌else◌,
}
use idnx.Common.Dict
use idnx.Common.Dict.{Dict}
use idnx.Federation.Limits.{
  LimitError, Checked, passed, refused, check_frame_length, max_envelope_bytes,
}

-- `MAX_QUEUED_ENVELOPES`, `MAX_TOTAL_BYTES`, `MAX_MAILBOXES`, and `ENVELOPE_TTL` in nanoseconds.
abbrev pub max_queued_envelopes : ℕ
max_queued_envelopes = 256

abbrev pub max_total_bytes : ℕ
max_total_bytes = 256 * 1024 * 1024

abbrev pub max_mailboxes : ℕ
max_mailboxes = 4096

abbrev pub envelope_ttl : ℕ
envelope_ttl = 24 * 60 * 60 * 1_000_000_000

pub record Held : Type 0 where
  pub bytes : List ℕ
  pub deposited : ℕ

pub record RelayQueue : Type 0 where
  pub mailboxes : Dict (List Held)
  pub total_bytes : ℕ

-- `RelayQueue::new`
abbrev pub new : RelayQueue
new = record { mailboxes = []; total_bytes = 0 }

pub data RelayError : Type 0 where
  limit : LimitError → RelayError
  full : Text → RelayError
  unauthenticated : RelayError

-- `map(|h| h.bytes.len()).sum()` of one mailbox, and of all.
abbrev pub size_of : List Held → ℕ
size_of [] = 0
size_of (h ∷ held) = length h.bytes + size_of held

abbrev pub size_of_all : Dict (List Held) → ℕ
size_of_all [] = 0
size_of_all ((name, held) ∷ mailboxes) = size_of held + size_of_all mailboxes

-- `queue.retain(|held| now.duration_since(held.deposited) < ttl)`
unfoldable pub retain : ℕ → ℕ → List Held → List Held
retain now ttl [] = []
retain now ttl (h ∷ held) =
    let rest = retain now ttl held in if ltb (now - h.deposited) ttl then h ∷ rest else rest

-- `!queue.is_empty()`, and the mailbox stays.
abbrev pub with_mailbox : Text → List Held → Dict (List Held) → Dict (List Held)
with_mailbox name [] mailboxes = mailboxes
with_mailbox name (h ∷ held) mailboxes = (name, h ∷ held) ∷ mailboxes

unfoldable pub retain_all : ℕ → ℕ → Dict (List Held) → Dict (List Held)
retain_all now ttl [] = []
retain_all now ttl ((name, held) ∷ mailboxes) =
    with_mailbox name (retain now ttl held) (retain_all now ttl mailboxes)

-- `expire_older_than`, at the clock `now`.
unfoldable pub expire_older_than : ℕ → ℕ → RelayQueue → RelayQueue
expire_older_than now ttl q =
    let mailboxes = retain_all now ttl q.mailboxes in
    record { mailboxes = mailboxes; total_bytes = size_of_all mailboxes }

-- `expire`
abbrev pub expire : ℕ → RelayQueue → RelayQueue
expire now q = expire_older_than now envelope_ttl q

-- `min_by_key`: of the mailboxes' first envelopes the earliest; of equals, the one that the map's
-- iteration meets first.
abbrev pub earlier : Option (Text × Held) → Option (Text × Held) → Option (Text × Held)
earlier none other = other
earlier (some a) none = some a
earlier (some a) (some b) = if ltb b.1.deposited a.1.deposited then some b else some a

abbrev pub first_of : Text → List Held → Option (Text × Held)
first_of name [] = none
first_of name (h ∷ held) = some (name, h)

unfoldable pub oldest : Dict (List Held) → Option (Text × Held)
oldest [] = none
oldest ((name, held) ∷ mailboxes) = earlier (first_of name held) (oldest mailboxes)

abbrev pub tail : List Held → List Held
tail [] = []
tail (h ∷ held) = held

-- `remove(0)` of the named mailbox, and the mailbox's removal where that leaves it empty.
unfoldable pub drop_first : Text → Dict (List Held) → Dict (List Held)
drop_first name [] = []
drop_first name ((n, held) ∷ mailboxes) =
    let rest = drop_first name mailboxes in
    if text_eq n name then with_mailbox n (tail held) mailboxes else (n, held) ∷ rest

-- `discard_oldest`; `none` is its `false`.
abbrev pub discard : RelayQueue → Option (Text × Held) → Option RelayQueue
discard q none = none
discard q (some (name, h)) = some (record {
  mailboxes = drop_first name q.mailboxes;
  total_bytes = q.total_bytes - length h.bytes;
})

unfoldable pub discard_oldest : RelayQueue → Option RelayQueue
discard_oldest q = discard q (oldest q.mailboxes)

-- The `while` loop of `deposit`, with fuel; the Boolean is false where the loop returns an error.
unfoldable pub make_room : ℕ → ℕ → RelayQueue → Bool × RelayQueue
make_room zero size q = (leb (q.total_bytes + size) max_total_bytes, q)
make_room (suc fuel) size q =
    let next = λ (r : RelayQueue). make_room fuel size r in
    if ltb max_total_bytes (q.total_bytes + size)
    then elim (discard_oldest q) [ none ↦ (false, q) | some r ↦ next r ]
    else (true, q)

-- A discard takes one envelope away, so as many turns as there are envelopes are enough.
abbrev pub envelopes : Dict (List Held) → ℕ
envelopes [] = 0
envelopes ((name, held) ∷ mailboxes) = length held + envelopes mailboxes

abbrev pub or_default : Option (List Held) → List Held
or_default none = []
or_default (some held) = held

-- `entry(..).or_default()`
abbrev pub waiting_in : Dict (List Held) → Text → List Held
waiting_in mailboxes name = or_default (Dict.get mailboxes name)

abbrev pub is_full : List Held → Bool
is_full held = leb max_queued_envelopes (length held)

-- What the oldest envelope of a full mailbox frees, and the mailbox after it went.
abbrev pub freed : List Held → ℕ
freed [] = 0
freed (h ∷ held) = if is_full (h ∷ held) then length h.bytes else 0

abbrev pub capped : List Held → List Held
capped held = if is_full held then tail held else held

unfoldable pub push : RelayQueue → Text → Held → RelayQueue
push q mailbox h =
    let queue = waiting_in q.mailboxes mailbox in
    record {
      mailboxes = Dict.put q.mailboxes mailbox (capped queue ++ h ∷ []);
      total_bytes = q.total_bytes - freed queue + length h.bytes;
    }

-- What `deposit` answers.
pub data Deposit : Type 0 where
  accepted : Deposit
  failed : RelayError → Deposit

abbrev pub push_if_room : Bool × RelayQueue → Text → Held → Deposit × RelayQueue
push_if_room (false, q) mailbox h = (failed (full (bytes "bytes")), q)
push_if_room (true, q) mailbox h = (accepted, push q mailbox h)

abbrev pub is_known : Option (List Held) → Bool
is_known none = false
is_known (some _) = true

abbrev pub deposit_measured : RelayQueue → ℕ → ℕ → Text → List ℕ → Checked → Deposit × RelayQueue
deposit_measured q now later mailbox envelope (refused e) = (failed (limit e), q)
deposit_measured q now later mailbox envelope passed =
    let r = expire now q in
    if not (is_known (Dict.get r.mailboxes mailbox)) && leb max_mailboxes (length r.mailboxes)
    then (failed (full (bytes "mailboxes")), r)
    else push_if_room (make_room (envelopes r.mailboxes) (length envelope) r) mailbox
        (record { bytes = envelope; deposited = later })

-- `deposit`; the clock is read at `now` and, when the envelope is stored, at `later`.
unfoldable pub deposit : RelayQueue → ℕ → ℕ → Text → List ℕ → Deposit × RelayQueue
deposit q now later mailbox envelope =
    deposit_measured q now later mailbox envelope
      (check_frame_length (length envelope) max_envelope_bytes)

-- `total_bytes.saturating_sub(envelope.bytes.len())`, an envelope at a time.
abbrev pub without : ℕ → List Held → ℕ
without total [] = total
without total (h ∷ held) = without (total - length h.bytes) held

abbrev pub payloads : List Held → List (List ℕ)
payloads held = map (λ h. h.bytes) held

-- `collect`
unfoldable pub collect : RelayQueue → ℕ → Text → List (List ℕ) × RelayQueue
collect q now mailbox =
    let r = expire now q in
    let held = waiting_in r.mailboxes mailbox in
    (
      payloads held,
      record {
        mailboxes = Dict.remove r.mailboxes mailbox;
        total_bytes = without r.total_bytes held;
      },
    )
