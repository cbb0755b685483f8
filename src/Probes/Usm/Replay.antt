-- ===== src/Probes/Usm/Replay.antt =====
-- The time window of src/probes/usm_state.rs, over any run of accepted messages.
use idnx.Common.{ℕ, ◌+◌, ◌≤◌, ◌<◌, ◌≡◌, ◌≢◌, ◌⊎◌, ◌↔◌, false, List, [], ◌∷◌, arith, All, some}
use idnx.Probes.Usm.{
  time_window_seconds, boots_ceiling, in_window, EngineState, ProvisionalEngine, SaltSource,
  from_discovery, estimated_time, timeliness, absorb_authenticated,
}

-- A message is in the window exactly if its boots counter is the engine's, below the ceiling, and
-- its time is at most the window away from the estimate, either way.
pub timeliness_in_window :
    (s : EngineState) (now boots time : ℕ)
    → (timeliness s now boots time ≡ in_window) ↔ (
        (boots ≡ s.boots)
        × (boots ≢ boots_ceiling)
        × (estimated_time s now ≤ time + time_window_seconds)
        × (time ≤ estimated_time s now + time_window_seconds))
unfolding timeliness
timeliness_in_window s now boots time = (λ h. ground arith, λ h. ground arith)

-- Where the last recorded time is at most the ceiling, the estimate is at least that time and at
-- most the ceiling, whatever the clock reads.
pub estimated_time_bounds :
    (s : EngineState) (now : ℕ)
    → s.synchronised_time ≤ boots_ceiling
    → (s.synchronised_time ≤ estimated_time s now) × (estimated_time s now ≤ boots_ceiling)
unfolding estimated_time
estimated_time_bounds s now h = ground arith

-- The two recorded times agree, and are times that a message can carry.
pub record IsSynchronised (s : EngineState) : Type 0 where
  pub agrees : s.synchronised_time ≡ s.highest_time
  pub fits : s.synchronised_time ≤ boots_ceiling

-- The counters of a message that was accepted, and the clock at which it was.
pub record Accepted : Type 0 where
  pub now : ℕ
  pub boots : ℕ
  pub time : ℕ

abbrev pub FitsCounter : Accepted → Type 0
FitsCounter m = m.time ≤ boots_ceiling

abbrev pub absorb : EngineState → Accepted → EngineState
absorb s m = absorb_authenticated s m.now m.boots m.time

unfoldable pub absorb_all : EngineState → List Accepted → EngineState
absorb_all s [] = s
absorb_all s (m ∷ ms) = absorb_all (absorb s m) ms

-- The engine is at a boots counter and a time, or past them.
abbrev HasReached : EngineState → ℕ → ℕ → Type 0
HasReached s boots time = (boots < s.boots) ⊎ ((boots ≡ s.boots) × (time ≤ s.synchronised_time))

absorb-IsSynchronised :
    (s : EngineState) (m : Accepted)
    → FitsCounter m
    → IsSynchronised s
    → IsSynchronised (absorb s m)
unfolding absorb_authenticated
absorb-IsSynchronised s m fits h = ground arith

absorb_keeps :
    (s : EngineState) (m : Accepted) (boots time : ℕ)
    → IsSynchronised s
    → HasReached s boots time
    → HasReached (absorb s m) boots time
unfolding absorb_authenticated
absorb_keeps s m boots time sync h = ground arith

absorb_reaches :
    (s : EngineState) (m : Accepted) → IsSynchronised s → HasReached (absorb s m) m.boots m.time
unfolding absorb_authenticated
absorb_reaches s m sync = ground arith

absorb_all_keeps :
    (ms : List Accepted) (s : EngineState) (boots time : ℕ)
    → All FitsCounter ms
    → IsSynchronised s
    → HasReached s boots time
    → IsSynchronised (absorb_all s ms) × HasReached (absorb_all s ms) boots time
unfolding absorb_all
absorb_all_keeps [] s boots time fits sync h = (sync, h)
absorb_all_keeps (m ∷ ms) s boots time fits sync h =
    absorb_all_keeps ms (absorb s m) boots time fits.1 (absorb-IsSynchronised s m fits.0 sync)
      (absorb_keeps s m boots time sync h)

reached_refuses :
    (s : EngineState) (now boots time old_boots old_time : ℕ)
    → IsSynchronised s
    → HasReached s boots time
    → (old_boots < boots) ⊎ ((old_boots ≡ boots) × (old_time + time_window_seconds < time))
    → timeliness s now old_boots old_time ≢ in_window
reached_refuses s now boots time old_boots old_time sync h old e = ground (
  arith,
  (timeliness_in_window s now old_boots old_time).0 e,
  estimated_time_bounds s now sync.fits,
)

-- After an authenticated message was absorbed by an engine whose recorded times agree, and whatever
-- authenticated messages come after it at whatever clock, all with times that a message can carry, a
-- message of an earlier boot, or of the same one and more than the window before it, is not in the
-- window.
pub replay_refused :
    (s : EngineState) (m : Accepted) (ms : List Accepted) (now old_boots old_time : ℕ)
    → IsSynchronised s
    → All FitsCounter (m ∷ ms)
    → (old_boots < m.boots) ⊎ ((old_boots ≡ m.boots) × (old_time + time_window_seconds < m.time))
    → timeliness (absorb_all (absorb s m) ms) now old_boots old_time ≢ in_window
replay_refused s m ms now old_boots old_time sync fits old =
    let (sync', reached) =
      absorb_all_keeps ms (absorb s m) m.boots m.time fits.1 (absorb-IsSynchronised s m fits.0 sync)
        (absorb_reaches s m sync) in
    reached_refuses (absorb_all (absorb s m) ms) now m.boots m.time old_boots old_time sync' reached
      old

-- What discovery starts from is synchronised, and not confirmed.
pub from_discovery-IsSynchronised :
    (engine : ProvisionalEngine) (now : ℕ) (salts : SaltSource) (s : EngineState)
    → engine.time ≤ boots_ceiling
    → from_discovery engine now (some salts) ≡ some s
    → IsSynchronised s × (s.confirmed ≡ false)
unfolding from_discovery
from_discovery-IsSynchronised engine now salts s fits e = ground arith
