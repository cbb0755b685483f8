-- ===== src/Federation/Ledger/Runs/Held.antt =====
-- A reservation of src/federation/ledger.rs, in any run.
use idnx.Common.{
  ℕ, ◌≡◌, inl, inr, refl, true, false, List, [], ◌∷◌, arith, Bool-cases, text_eq, text_eq_iff,
  text_eq_refl, All, ==_iff,
}
use idnx.Common.Dict
use idnx.Federation.Identity.{Crypto, to_hex}
use idnx.Federation.Wire.Records.{WireEvidence}
use idnx.Federation.Wire.Convert.{Formats}
use idnx.Federation.Bundle.{EvidenceBundle}
use idnx.Federation.Ledger
use idnx.Federation.Ledger.{PeerLedger, Prepared, Receipt, Answer, ok, is_busy, is_some}
use idnx.Federation.Ledger.Finish
use idnx.Federation.Ledger.Finish.{owns, holds, receipt_of}
use idnx.Federation.Ledger.Prepare.{Reserved, prepare_cases, prepare-Reserved}
use idnx.Federation.Ledger.Runs.{Op, pair, prepare, commit, abandon, restore_cursor, step, run}
use idnx.Federation.Ledger.Runs.Tokens.{holds-insert, holds-remove}

-- A call that does not finish the transaction of the receipt `r`.
abbrev pub Spares : Receipt → Op → Type 0
Spares r (commit q) = to_hex q.peer ≡ to_hex r.peer → q.token ≡ r.token → ⊥
Spares r (abandon q) = to_hex q.peer ≡ to_hex r.peer → q.token ≡ r.token → ⊥
Spares r _ = Unit

-- Of one peer's reservation there is one owner.
pub one_owner :
    (l : PeerLedger) (q r : Receipt)
    → owns l r ≡ true
    → owns l q ≡ true
    → to_hex q.peer ≡ to_hex r.peer
    → q.token ≡ r.token
one_owner l q r mine theirs e =
    let theirs' : holds (Dict.get l.in_flight (to_hex r.peer)) q.token ≡ true = rw e at theirs in
    ground arith

released_keeps :
    (l : PeerLedger) (q r : Receipt)
    → owns l r ≡ true
    → owns l q ≡ true
    → (to_hex q.peer ≡ to_hex r.peer → q.token ≡ r.token → ⊥)
    → owns (Finish.released l q) r ≡ true
released_keeps l q r mine theirs other =
    elim (Bool-cases (text_eq (to_hex q.peer) (to_hex r.peer))) [
      | inl same ↦
          let e = (text_eq_iff (to_hex q.peer) (to_hex r.peer)).0 same in
          absurd (other e (one_owner l q r mine theirs e))
      | inr apart ↦ rw (holds-remove, apart) mine
    ]

commit-owns :
    (l : PeerLedger) (q r : Receipt)
    → owns l r ≡ true
    → (to_hex q.peer ≡ to_hex r.peer → q.token ≡ r.token → ⊥)
    → owns (Finish.commit l q).1 r ≡ true
commit-owns l q r mine other = elim (Bool-cases (owns l q)) [
  | inl theirs ↦ rw (Finish.commit_lem l q, theirs) (released_keeps l q r mine theirs other)
  | inr not_theirs ↦ rw (Finish.commit_lem l q, not_theirs) mine
]

abandon-owns :
    (l : PeerLedger) (q r : Receipt)
    → owns l r ≡ true
    → (to_hex q.peer ≡ to_hex r.peer → q.token ≡ r.token → ⊥)
    → owns (Finish.abandon l q).1 r ≡ true
abandon-owns l q r mine other = elim (Bool-cases (owns l q)) [
  | inl theirs ↦ rw (Finish.abandon_lem l q, theirs) (released_keeps l q r mine theirs other)
  | inr not_theirs ↦ rw (Finish.abandon_lem l q, not_theirs) mine
]

module _ (c : Crypto) (f : Formats) (encode : WireEvidence → List ℕ) where
  -- A peer that holds a reservation is given no second one.
  Reserved-owns :
      (l l' : PeerLedger) (b : EvidenceBundle) (p : Prepared f) (r : Receipt)
      → Reserved c f encode l l' b p
      → owns l r ≡ true
      → owns l' r ≡ true
  unfolding is_busy
  Reserved-owns l l' b p r reserved mine =
      elim (Bool-cases (text_eq (to_hex p.peer) (to_hex r.peer))) [
        | inl same ↦
            let e = (text_eq_iff (to_hex p.peer) (to_hex r.peer)).0 same in
            let idle : is_some (Dict.get l.in_flight (to_hex r.peer)) ≡ false =
              rw e at reserved.idle in
            absurd (ground arith)
        | inr apart ↦ rw (reserved.after, holds-insert, apart) mine
      ]

  pub prepared_owns :
      (l l' : PeerLedger) (b : EvidenceBundle) (p : Prepared f)
      → Reserved c f encode l l' b p
      → owns l' (receipt_of p) ≡ true
  prepared_owns l l' b p reserved =
      rw (reserved.after, holds-insert, text_eq_refl) ((==_iff p.token p.token).1 refl)

  pub step-owns :
      (l : PeerLedger) (op : Op) (r : Receipt)
      → Spares r op
      → owns l r ≡ true
      → owns (step c f encode l op) r ≡ true
  unfolding step Ledger.pair Finish.restore_cursor
  step-owns l (pair peer) r spares mine = mine
  step-owns l (prepare b) r spares mine = elim (prepare_cases c f encode l b) [
    | inl (p, reserved) ↦ Reserved-owns l _ b p r reserved mine
    | inr same ↦ rw same mine
  ]
  step-owns l (commit q) r spares mine = commit-owns l q r mine spares
  step-owns l (abandon q) r spares mine = abandon-owns l q r mine spares
  step-owns l (restore_cursor peer n) r spares mine = mine

  run-owns :
      (ops : List Op) (l : PeerLedger) (r : Receipt)
      → All (Spares r) ops
      → owns l r ≡ true
      → owns (run c f encode l ops) r ≡ true
  unfolding run
  run-owns [] l r spares mine = mine
  run-owns (op ∷ ops) l r spares mine =
      run-owns ops (step c f encode l op) r spares.1 (step-owns l op r spares.0 mine)

  owner_commits :
      (l : PeerLedger) (r : Receipt)
      → owns l r ≡ true
      → ((Finish.commit l r).0 ≡ true) × (is_busy l r.peer ≡ true)
  unfolding Finish.commit is_busy
  owner_commits l r mine = ground arith

  -- Between `prepare` and the end of its own transaction, whatever other connections do, the peer
  -- stays busy and the receipt still commits.
  pub prepare_holds :
      (l l' : PeerLedger) (b : EvidenceBundle) (p : Prepared f) (ops : List Op)
      → Ledger.prepare c f encode l b ≡ (ok p, l')
      → All (Spares (receipt_of p)) ops
      → ((Finish.commit (run c f encode l' ops) (receipt_of p)).0 ≡ true)
        × (is_busy (run c f encode l' ops) p.peer ≡ true)
  prepare_holds l l' b p ops prepared spares =
      owner_commits (run c f encode l' ops) (receipt_of p) (
        run-owns ops l' (receipt_of p) spares
          (prepared_owns l l' b p (prepare-Reserved c f encode l l' b p prepared)))
