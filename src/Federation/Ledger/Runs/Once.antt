-- ===== src/Federation/Ledger/Runs/Once.antt =====
-- The end of a transaction in any run of the ledger of src/federation/ledger.rs.
use idnx.Common.{ℕ, ◌+◌, ◌≤◌, ◌<◌, ◌≡◌, inl, inr, true, false, List, [], ◌∷◌, arith, length}
use idnx.Common.Dict
use idnx.Federation.Identity.{Crypto}
use idnx.Federation.Wire.Records.{WireEvidence}
use idnx.Federation.Wire.Convert.{Formats}
use idnx.Federation.Ledger
use idnx.Federation.Ledger.{PeerLedger, Prepared, Receipt, token_mod, new}
use idnx.Federation.Ledger.Finish
use idnx.Federation.Ledger.Finish.{owns}
use idnx.Federation.Ledger.Prepare.{prepare_cases}
use idnx.Federation.Ledger.Runs.{Op, pair, prepare, commit, abandon, restore_cursor, step, run}
use idnx.Federation.Ledger.Runs.Tokens.{
  IsSound, IsSpent, commit-IsSound, abandon-IsSound, commit-IsSpent, abandon-IsSpent, own_released,
  token_past, reserved-IsSound, reserved-IsSpent, next_token-reserved,
}

next_token-commit : (l : PeerLedger) (r : Receipt) → (Finish.commit l r).1.next_token ≡ l.next_token
unfolding Finish.commit
next_token-commit l r = ground arith

next_token-abandon :
    (l : PeerLedger) (r : Receipt) → (Finish.abandon l r).1.next_token ≡ l.next_token
unfolding Finish.abandon
next_token-abandon l r = ground arith

module _ (c : Crypto) (f : Formats) (encode : WireEvidence → List ℕ) where
  step-IsSound :
      (l : PeerLedger) (op : Op)
      → l.next_token + 1 < token_mod
      → IsSound l
      → IsSound (step c f encode l op)
  unfolding step Ledger.pair Finish.restore_cursor
  step-IsSound l (pair peer) room s = record { past = s.past }
  step-IsSound l (prepare b) room s = elim (prepare_cases c f encode l b) [
    | inl (p, reserved) ↦ reserved-IsSound c f encode l _ b p reserved room s
    | inr same ↦ rw same s
  ]
  step-IsSound l (commit r) room s = commit-IsSound l r s
  step-IsSound l (abandon r) room s = abandon-IsSound l r s
  step-IsSound l (restore_cursor peer n) room s = record { past = s.past }

  step-IsSpent :
      (l : PeerLedger) (op : Op) (q : Receipt)
      → l.next_token + 1 < token_mod
      → IsSpent l q
      → IsSpent (step c f encode l op) q
  unfolding step Ledger.pair Finish.restore_cursor
  step-IsSpent l (pair peer) q room s = record { past = s.past; gone = s.gone }
  step-IsSpent l (prepare b) q room s = elim (prepare_cases c f encode l b) [
    | inl (p, reserved) ↦ reserved-IsSpent c f encode l _ b p reserved room q s
    | inr same ↦ rw same s
  ]
  step-IsSpent l (commit r) q room s = commit-IsSpent l r q s
  step-IsSpent l (abandon r) q room s = abandon-IsSpent l r q s
  step-IsSpent l (restore_cursor peer n) q room s = record { past = s.past; gone = s.gone }

  next_token-step :
      (l : PeerLedger) (op : Op)
      → l.next_token + 1 < token_mod
      → (step c f encode l op).next_token ≤ l.next_token + 1
  unfolding step Ledger.pair Finish.restore_cursor
  next_token-step l (pair peer) room = omega arith
  next_token-step l (prepare b) room = elim (prepare_cases c f encode l b) [
    | inl (p, reserved) ↦ omega (arith, next_token-reserved c f encode l _ b p reserved room)
    | inr same ↦ rw same (omega arith)
  ]
  next_token-step l (commit r) room = omega (arith, next_token-commit l r)
  next_token-step l (abandon r) room = omega (arith, next_token-abandon l r)
  next_token-step l (restore_cursor peer n) room = omega arith

  next_token-run :
      (ops : List Op) (l : PeerLedger)
      → l.next_token + length ops < token_mod
      → (run c f encode l ops).next_token ≤ l.next_token + length ops
  unfolding run
  next_token-run [] l room = omega arith
  next_token-run (op ∷ ops) l room =
      let one = next_token-step l op (omega arith) in
      omega (arith, next_token-run ops (step c f encode l op) (omega arith))

  run-IsSound :
      (ops : List Op) (l : PeerLedger)
      → l.next_token + length ops < token_mod
      → IsSound l
      → IsSound (run c f encode l ops)
  unfolding run
  run-IsSound [] l room s = s
  run-IsSound (op ∷ ops) l room s =
      let one = next_token-step l op (omega arith) in
      run-IsSound ops (step c f encode l op) (omega arith) (step-IsSound l op (omega arith) s)

  run-IsSpent :
      (ops : List Op) (l : PeerLedger) (q : Receipt)
      → l.next_token + length ops < token_mod
      → IsSpent l q
      → IsSpent (run c f encode l ops) q
  unfolding run
  run-IsSpent [] l q room s = s
  run-IsSpent (op ∷ ops) l q room s =
      let one = next_token-step l op (omega arith) in
      run-IsSpent ops (step c f encode l op) q (omega arith) (step-IsSpent l op q (omega arith) s)

  IsSound-new : IsSound new
  unfolding Dict.get
  IsSound-new = record { past = λ key t h. cc }

  -- What a receipt that owns no reservation is answered.
  refused :
      (l : PeerLedger) (r : Receipt)
      → owns l r ≡ false
      → ((Finish.commit l r).0 ≡ false) × ((Finish.abandon l r).0 ≡ false)
  unfolding Finish.commit Finish.abandon
  refused l r not_mine = ground arith

  module _ (before after : List Op) (l' : PeerLedger) (r : Receipt)
      (room : length before + length after < token_mod) where
    -- The receipt's token is past, and stays so.
    spent_for_good :
        l'.next_token ≡ (run c f encode new before).next_token
        → owns (run c f encode new before) r ≡ true
        → owns l' r ≡ false
        → owns (run c f encode l' after) r ≡ false
    spent_for_good same mine gone =
        let count = next_token-run before new (omega arith) in
        let sound = run-IsSound before new (omega arith) IsSound-new in
        let past = token_past (run c f encode new before) r sound mine in
        (run-IsSpent after l' r (omega arith) (record { past = omega arith; gone = gone })).gone

    -- A receipt that was committed is refused ever after, whether to commit again or to abandon,
    -- whatever was done to the ledger before it and whatever is done between, as long as there are
    -- fewer calls than tokens.
    pub commit_once :
        Finish.commit (run c f encode new before) r ≡ (true, l')
        → ((Finish.commit (run c f encode l' after) r).0 ≡ false)
          × ((Finish.abandon (run c f encode l' after) r).0 ≡ false)
    commit_once done =
        let (mine, e) = Finish.committed_of (run c f encode new before) l' r done in
        refused (run c f encode l' after) r
          (spent_for_good (rw e) mine (rw e (own_released (run c f encode new before) r)))

    -- A receipt that was abandoned is refused ever after, whether to commit or to abandon again,
    -- whatever was done to the ledger before it and whatever is done between, as long as there are
    -- fewer calls than tokens.
    pub abandon_once :
        Finish.abandon (run c f encode new before) r ≡ (true, l')
        → ((Finish.commit (run c f encode l' after) r).0 ≡ false)
          × ((Finish.abandon (run c f encode l' after) r).0 ≡ false)
    abandon_once done =
        let (mine, e) = Finish.released_of (run c f encode new before) l' r done in
        refused (run c f encode l' after) r
          (spent_for_good (rw e) mine (rw e (own_released (run c f encode new before) r)))
