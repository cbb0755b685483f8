-- ===== src/Federation/Ledger/Runs/Cursors.antt =====
-- The highest sequence numbers of src/federation/ledger.rs, in any run.
use idnx.Common.{
  ℕ, Text, ◌≤◌, ◌≡◌, inl, inr, refl, Option, none, some, true, false, List, [], ◌∷◌, arith, text_eq,
  text_eq_iff, text_eq_refl, Bool-cases,
}
use idnx.Common.Dict
use idnx.Common.Dict.{get-insert}
use idnx.Federation.Identity.{Crypto, PeerId, to_hex}
use idnx.Federation.Wire.Records.{WireEvidence}
use idnx.Federation.Wire.Convert.{Formats}
use idnx.Federation.Bundle.{EvidenceBundle, signed_by, verify}
use idnx.Federation.Ledger
use idnx.Federation.Ledger.{PeerLedger, Prepared, Receipt, Answer, ok, cursor, raise_from}
use idnx.Federation.Ledger.Finish
use idnx.Federation.Ledger.Finish.{owns}
use idnx.Federation.Ledger.Prepare.{is_ok, IsFresh, prepare-Reserved}
use idnx.Federation.Ledger.Runs.{Op, pair, prepare, commit, abandon, restore_cursor, step, run}

-- The cursor has reached a sequence number.
abbrev pub IsAtLeast : Option ℕ → ℕ → Type 0
IsAtLeast none n = ⊥
IsAtLeast (some seen) n = n ≤ seen

raise_reaches : (o : Option ℕ) (n : ℕ) → n ≤ raise_from o n
raise_reaches none n = omega arith
raise_reaches (some seen) n = ground arith

raise_keeps : (o : Option ℕ) (m n : ℕ) → IsAtLeast o n → n ≤ raise_from o m
raise_keeps none m n h = absurd h
raise_keeps (some seen) m n h = ground arith

-- Raising one key's cursor keeps what every key's has reached.
raised_keeps :
    (d : Dict.Dict ℕ) (j key : Text) (m n : ℕ)
    → IsAtLeast (Dict.get d key) n
    → IsAtLeast (Dict.get (Dict.insert d j (raise_from (Dict.get d j) m)) key) n
raised_keeps d j key m n h = elim (Bool-cases (text_eq j key)) [
  | inl same ↦
      rw (get-insert, same)
        (raise_keeps (Dict.get d j) m n (rw (← (text_eq_iff j key).0 same) at h))
  | inr other ↦ rw (get-insert, other) h
]

commit_keeps :
    (l : PeerLedger) (r : Receipt) (key : Text) (n : ℕ)
    → IsAtLeast (cursor l key) n
    → IsAtLeast (cursor (Finish.commit l r).1 key) n
commit_keeps l r key n h = elim (Bool-cases (owns l r)) [
  | inl mine ↦
      rw (Finish.commit_lem l r, mine)
        (raised_keeps l.highest_sequence (to_hex r.peer) key r.sequence n h)
  | inr not_mine ↦ rw (Finish.commit_lem l r, not_mine) h
]

abandon_keeps :
    (l : PeerLedger) (r : Receipt) (key : Text) (n : ℕ)
    → IsAtLeast (cursor l key) n
    → IsAtLeast (cursor (Finish.abandon l r).1 key) n
abandon_keeps l r key n h = elim (Bool-cases (owns l r)) [
  | inl mine ↦ rw (Finish.abandon_lem l r, mine) h
  | inr not_mine ↦ rw (Finish.abandon_lem l r, not_mine) h
]

module _ (c : Crypto) (f : Formats) (encode : WireEvidence → List ℕ) where
  cursor-prepare :
      (l : PeerLedger) (b : EvidenceBundle) (key : Text)
      → cursor (Ledger.prepare c f encode l b).1 key ≡ cursor l key
  unfolding Ledger.prepare
  cursor-prepare l b key = ground arith

  step_keeps :
      (l : PeerLedger) (op : Op) (key : Text) (n : ℕ)
      → IsAtLeast (cursor l key) n
      → IsAtLeast (cursor (step c f encode l op) key) n
  unfolding step Ledger.pair Finish.restore_cursor
  step_keeps l (pair peer) key n h = h
  step_keeps l (prepare b) key n h = rw (cursor-prepare l b key) h
  step_keeps l (commit r) key n h = commit_keeps l r key n h
  step_keeps l (abandon r) key n h = abandon_keeps l r key n h
  step_keeps l (restore_cursor peer sequence) key n h =
      raised_keeps l.highest_sequence (to_hex peer) key sequence n h

  -- Whatever the ledger is called to do, a cursor stays at or above what it has reached.
  pub run-IsAtLeast :
      (ops : List Op) (l : PeerLedger) (key : Text) (n : ℕ)
      → IsAtLeast (cursor l key) n
      → IsAtLeast (cursor (run c f encode l ops) key) n
  unfolding run
  run-IsAtLeast [] l key n h = h
  run-IsAtLeast (op ∷ ops) l key n h =
      run-IsAtLeast ops (step c f encode l op) key n (step_keeps l op key n h)

  commit_reaches :
      (l l' : PeerLedger) (r : Receipt)
      → Finish.commit l r ≡ (true, l')
      → IsAtLeast (cursor l' (to_hex r.peer)) r.sequence
  commit_reaches l l' r h =
      rw ((Finish.committed_of l l' r h).1, get-insert, text_eq_refl)
        (raise_reaches (cursor l (to_hex r.peer)) r.sequence)

  not-IsFresh : (o : Option ℕ) (m n : ℕ) → IsAtLeast o n → m ≤ n → ¬ IsFresh o m
  not-IsFresh none m n h le fresh = h
  not-IsFresh (some seen) m n h le fresh = omega arith

  -- A prepared bundle comes with a new ledger.
  not_prepared :
      (l : PeerLedger) (b : EvidenceBundle)
      → ((p : Prepared f) (l' : PeerLedger) → Ledger.prepare c f encode l b ≡ (ok p, l') → ⊥)
      → is_ok (Ledger.prepare c f encode l b).0 ≡ false
  not_prepared l b never = go (Ledger.prepare c f encode l b).0 refl
    where
      go :
          (a : Answer (Prepared f))
          → (Ledger.prepare c f encode l b).0 ≡ a
          → is_ok (Ledger.prepare c f encode l b).0 ≡ false
      go (ok p) e = absurd (
          never p (Ledger.prepare c f encode l b).1 (λ i. (e i, (Ledger.prepare c f encode l b).1)))
      go (Ledger.rejected reason) e = rw e
      go Ledger.panicked e = rw e

  -- Once a receipt was committed, whatever the ledger is called to do then, no bundle of that peer
  -- with the receipt's sequence number or a lower one is prepared.
  pub commit_no_replay :
      (l l' : PeerLedger) (r : Receipt) (ops : List Op) (b : EvidenceBundle) (peer : PeerId)
      → Finish.commit l r ≡ (true, l')
      → verify c encode b ≡ signed_by peer
      → to_hex peer ≡ to_hex r.peer
      → b.sequence ≤ r.sequence
      → is_ok (Ledger.prepare c f encode (run c f encode l' ops) b).0 ≡ false
  commit_no_replay l l' r ops b peer committed verified same low =
      not_prepared (run c f encode l' ops) b (λ p after_p h.
        let reserved = prepare-Reserved c f encode (run c f encode l' ops) after_p b p h in
        let its_peer : to_hex p.peer ≡ to_hex r.peer = cc (reserved.verified) in
        not-IsFresh (cursor (run c f encode l' ops) (to_hex r.peer)) b.sequence r.sequence
          (run-IsAtLeast ops l' (to_hex r.peer) r.sequence (commit_reaches l l' r committed)) low
          (rw its_peer at reserved.fresh))
