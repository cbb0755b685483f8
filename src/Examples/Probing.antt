-- ===== src/Examples/Probing.antt =====
-- The theorems on SNMPv3 engines and answers at small inputs.
use idnx.Common.{ℕ, ◌≡◌, ◌≢◌, ◌↔◌, ◌⊎◌, inr, refl, [], ◌∷◌, some, true, arith}
use idnx.Probes.Usm.{EngineState, SaltSource, Timeliness, timeliness}
use idnx.Probes.Usm.Replay.{absorb, absorb_all, replay_refused}
use idnx.Probes.Usm.Checks.{SocketAddr, Expectation, ScopedPdu, Checked, correlate_scoped}
use idnx.Probes.Usm.Checks.Accepts.{correlate_scoped_iff, IsAbout}

abbrev salts : SaltSource
salts = record { counter = 41; issued = 0 }

-- An engine at boot 3, synchronised at its second 1,000.
abbrev engine : EngineState
engine = record {
  engine_id = 1 ∷ 2 ∷ [];
  boots = 3;
  synchronised_time = 1_000;
  recorded_at = 0;
  highest_time = 1_000;
  confirmed = true;
  salts = salts;
}

replay_refused_example :
    timeliness
      (absorb_all
        (absorb engine (record { now = 9; boots = 3; time = 2_000 }))
        (record { now = 10; boots = 3; time = 1_990 } ∷ []))
      11
      3
      1_700
    ≢ Timeliness.in_window
replay_refused_example =
    replay_refused engine (record { now = 9; boots = 3; time = 2_000 })
      (record { now = 10; boots = 3; time = 1_990 } ∷ []) 11 3 1_700
      (record { agrees = refl; fits = omega arith }) (omega arith, (omega arith, tt))
      (inr (refl, omega arith))

abbrev agent : SocketAddr
agent = record { address = 3_232_235_777; port = 161 }

abbrev expected : Expectation
expected = record {
  source = agent;
  engine_id = 1 ∷ 2 ∷ [];
  message_id = 77;
  request_id = 78;
  pdu_type = 0xa2;
  oid = some (1 ∷ 3 ∷ 6 ∷ []);
}

abbrev answer : ScopedPdu ℕ
answer = record {
  context_engine_id = [];
  pdu_type = 0xa2;
  request_id = 78;
  error_status = 0;
  varbinds = (1 ∷ 3 ∷ 6 ∷ [], 9) ∷ [];
}

correlate_scoped_iff_example : (correlate_scoped answer (1 ∷ 2 ∷ []) expected ≡ Checked.ok tt) ↔ (
    ((answer.context_engine_id ≡ []) ⊎ (answer.context_engine_id ≡ 1 ∷ 2 ∷ []))
    × (answer.pdu_type ≡ expected.pdu_type)
    × (answer.request_id ≡ expected.request_id)
    × IsAbout expected.oid answer)
correlate_scoped_iff_example = correlate_scoped_iff answer (1 ∷ 2 ∷ []) expected
