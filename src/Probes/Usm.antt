-- ===== src/Probes/Usm.antt =====
-- src/probes/usm_state.rs, and the salts of src/probes/usm.rs: what a run knows of an SNMPv3 engine.
pub mod Replay
pub mod Salts
pub mod Checks
use idnx.Common.{
  ℕ, ◌+◌, ◌-◌, ◌/◌, ◌%◌, ◌^◌, min, Option, none, some, Bool, true, false, List, ◌==◌, ltb, leb,
  ◌||◌, if◌then◌else◌,
}
use idnx.Common.Bytes.{to_be_bytes}

-- `TIME_WINDOW_SECONDS`
abbrev pub time_window_seconds : ℕ
time_window_seconds = 150

-- `BOOTS_CEILING`
abbrev pub boots_ceiling : ℕ
boots_ceiling = 2_147_483_647

pub data Timeliness : Type 0 where
  in_window outside unusable : Timeliness

pub record SaltSource : Type 0 where
  pub counter : ℕ
  pub issued : ℕ

-- `SaltSource::take_salt`; `none` is the refusal of an exhausted sequence.
unfoldable pub take_salt : SaltSource → Option (List ℕ × SaltSource)
unfolding to_be_bytes
take_salt s =
    if s.issued == 2 ^ 64 - 1
    then none
    else (let counter = (s.counter + 1) % 2 ^ 64 in
        some (to_be_bytes 8 counter, record { counter = counter; issued = s.issued + 1 }))

-- `Instant` is a number of nanoseconds of the monotonic clock.
pub record EngineState : Type 0 where
  pub engine_id : List ℕ
  pub boots : ℕ
  pub synchronised_time : ℕ
  pub recorded_at : ℕ
  pub highest_time : ℕ
  pub confirmed : Bool
  pub salts : SaltSource

-- `ProvisionalEngine` of src/probes/snmp_v3.rs, without the reason, which is not read here.
pub record ProvisionalEngine : Type 0 where
  pub engine_id : List ℕ
  pub boots : ℕ
  pub time : ℕ

-- `EngineState::from_discovery`; `now` is the clock and `salts` what `SaltSource::new` returned.
unfoldable pub from_discovery : ProvisionalEngine → ℕ → Option SaltSource → Option EngineState
from_discovery engine now none = none
from_discovery engine now (some salts) = some (record {
  engine_id = engine.engine_id;
  boots = engine.boots;
  synchronised_time = engine.time;
  recorded_at = now;
  highest_time = engine.time;
  confirmed = false;
  salts = salts;
})

-- `u64::saturating_add`
unfoldable pub saturating_add : ℕ → ℕ → ℕ
saturating_add a b = min (a + b) (2 ^ 64 - 1)

-- `u32::try_from(n).unwrap_or(BOOTS_CEILING).min(BOOTS_CEILING)`
unfoldable pub clamp_time : ℕ → ℕ
clamp_time n = if ltb n (2 ^ 32) then min n boots_ceiling else boots_ceiling

-- `EngineState::estimated_time`; `Instant::elapsed` is 0 where the clock reads earlier.
unfoldable pub estimated_time : EngineState → ℕ → ℕ
unfolding saturating_add clamp_time
estimated_time s now =
    let elapsed = (now - s.recorded_at) / 1_000_000_000 in
    clamp_time (saturating_add s.synchronised_time elapsed)

-- `EngineState::timeliness`. The differences are of `i64`s, so the window is added on the other side.
unfoldable pub timeliness : EngineState → ℕ → ℕ → ℕ → Timeliness
timeliness s now message_boots message_time =
    if message_boots == boots_ceiling || s.boots == boots_ceiling
    then unusable
    else if ltb message_boots s.boots
    then outside
    else if ltb s.boots message_boots
    then outside
    else (let estimate = estimated_time s now in
        if ltb (message_time + time_window_seconds) estimate
        then outside
        else if ltb (estimate + time_window_seconds) message_time
        then outside
        else in_window)

-- `EngineState::absorb_authenticated`
unfoldable pub absorb_authenticated : EngineState → ℕ → ℕ → ℕ → EngineState
absorb_authenticated s now message_boots message_time =
    if ltb message_boots s.boots
    then s
    else if ltb s.boots message_boots
    then record s {
      boots = message_boots;
      synchronised_time = message_time;
      recorded_at = now;
      highest_time = message_time;
      confirmed = true;
    }
    else if ltb s.highest_time message_time
    then record s {
      synchronised_time = message_time;
      recorded_at = now;
      highest_time = message_time;
      confirmed = true;
    }
    else record s { confirmed = true }

-- `ResyncBudget`
pub record ResyncBudget : Type 0 where
  pub spent : Bool

-- `ResyncBudget::spend`
unfoldable pub spend : ResyncBudget → Bool × ResyncBudget
spend b = if b.spent then (false, b) else (true, record { spent = true })
