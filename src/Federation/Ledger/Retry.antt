-- ===== src/Federation/Ledger/Retry.antt =====
-- A bundle that is offered again to the ledger of src/federation/ledger.rs.
use mathlib.Core.Path.{subst}
use idnx.Common.{
  Bool, Text, sym, if◌then◌else◌, ℕ, ◌+◌, ◌%◌, ◌<◌, ◌≡◌, refl, ap, ◌∙◌, inl, inr, Option, none,
  some, true, false, Bool-cases, List, [], ◌∷◌, All, arith, text_eq, text_eq_iff, text_eq_refl,
}
use idnx.Common.Dict.{get-remove, get-insert}
use idnx.Federation.Identity.{Crypto, PeerId, to_hex}
use idnx.Federation.Wire.Records.{WireEvidence}
use idnx.Federation.Wire.Convert.{Formats}
use idnx.Federation.Bundle.{EvidenceBundle}
use idnx.Federation.Ledger
use idnx.Federation.Ledger.{
  Receipt, cursor, raise_from, PeerLedger, Prepared, Accepted, Answer, ok, rejected, panicked,
  is_paired, is_busy, prepare, token_mod,
}
use idnx.Federation.Ledger.Finish
use idnx.Federation.Ledger.Finish.{
  committed, owns, receipt_of, released, accept_immediately, commit_prepared,
}
use idnx.Federation.Ledger.Prepare.{
  is_ok, IsFresh, prepare_cases, Reserved, prepare-Reserved, prepare_succeeds,
}
use idnx.Federation.Ledger.Runs
use idnx.Federation.Ledger.Runs.{Op, pair, commit, abandon, restore_cursor, step, run}
use idnx.Federation.Ledger.Runs.Cursors.{commit_no_replay}
use idnx.Federation.Ledger.Runs.Held.{Spares, one_owner, step-owns, prepared_owns}

-- A call that does not restore the cursor of the receipt's peer to its sequence number or above.
abbrev pub StaysBelow : Receipt → Op → Type 0
StaysBelow r (restore_cursor peer n) = to_hex peer ≡ to_hex r.peer → n < r.sequence
StaysBelow r _ = Unit

raised :
    (seen : Option ℕ) (n sequence : ℕ)
    → n < sequence
    → IsFresh seen sequence
    → raise_from seen n < sequence
raised none n sequence low h = low
raised (some seen) n sequence low h = ground arith

module _ (c : Crypto) (f : Formats) (encode : WireEvidence → List ℕ) where
  commit_by :
      (l : PeerLedger) (q : Receipt) (theirs : Bool)
      → owns l q ≡ theirs
      → step c f encode l (commit q) ≡ (if theirs then committed l q else l)
  unfolding step
  commit_by l q true h =
      let e : Finish.commit l q ≡ (true, committed l q) = Finish.commit_lem l q ∙ rw h refl in
      ap (λ (x : Bool × PeerLedger). x.1) e
  commit_by l q false h =
      let e : Finish.commit l q ≡ (false, l) = Finish.commit_lem l q ∙ rw h refl in
      ap (λ (x : Bool × PeerLedger). x.1) e

  abandon_by :
      (l : PeerLedger) (q : Receipt) (theirs : Bool)
      → owns l q ≡ theirs
      → step c f encode l (abandon q) ≡ (if theirs then released l q else l)
  unfolding step
  abandon_by l q true h =
      let e : Finish.abandon l q ≡ (true, released l q) = Finish.abandon_lem l q ∙ rw h refl in
      ap (λ (x : Bool × PeerLedger). x.1) e
  abandon_by l q false h =
      let e : Finish.abandon l q ≡ (false, l) = Finish.abandon_lem l q ∙ rw h refl in
      ap (λ (x : Bool × PeerLedger). x.1) e

  -- The peer stays paired, whatever is called.
  step-paired :
      (l : PeerLedger) (op : Op) (peer : PeerId)
      → is_paired l peer ≡ true
      → is_paired (step c f encode l op) peer ≡ true
  unfolding step is_paired Ledger.pair Finish.restore_cursor
  step-paired l (pair q) peer h = ground (arith, get-insert l.trusted (to_hex q) (to_hex peer) q)
  step-paired l (Runs.prepare b) peer h = elim (prepare_cases c f encode l b) [
    | inl (p, reserved) ↦ rw reserved.after h
    | inr same ↦ rw same h
  ]
  step-paired l (commit q) peer h = elim (Bool-cases (owns l q)) [
    | inl theirs ↦ subst (λ x. is_paired x peer ≡ true) (sym (commit_by l q true theirs)) h
    | inr not_theirs ↦ subst (λ x. is_paired x peer ≡ true) (sym (commit_by l q false not_theirs)) h
  ]
  step-paired l (abandon q) peer h = elim (Bool-cases (owns l q)) [
    | inl theirs ↦ subst (λ x. is_paired x peer ≡ true) (sym (abandon_by l q true theirs)) h
    | inr not_theirs ↦
        subst (λ x. is_paired x peer ≡ true) (sym (abandon_by l q false not_theirs)) h
  ]
  step-paired l (restore_cursor q n) peer h = h

  -- A cursor is what it was after a commit for another peer.
  cursor-committed :
      (l : PeerLedger) (q : Receipt) (peer : Text)
      → text_eq (to_hex q.peer) peer ≡ false
      → cursor (committed l q) peer ≡ cursor l peer
  cursor-committed l q peer apart = rw (get-insert, apart) refl

  -- A call does not take the peer's cursor to the sequence number, while the receipt is owned.
  step-IsFresh :
      (l : PeerLedger) (op : Op) (r : Receipt)
      → Spares r op
      → StaysBelow r op
      → owns l r ≡ true
      → IsFresh (cursor l (to_hex r.peer)) r.sequence
      → IsFresh (cursor (step c f encode l op) (to_hex r.peer)) r.sequence
  step-IsFresh l (pair q) r spares low mine h = unfold step Ledger.pair in h
  step-IsFresh l (Runs.prepare b) r spares low mine h = elim (prepare_cases c f encode l b) [
    | inl (p, reserved) ↦
        unfold step in
        subst (λ x. IsFresh (cursor x (to_hex r.peer)) r.sequence) (sym reserved.after) h
    | inr same ↦
        unfold step in subst (λ x. IsFresh (cursor x (to_hex r.peer)) r.sequence) (sym same) h
  ]
  step-IsFresh l (commit q) r spares low mine h = elim (Bool-cases (owns l q)) [
    | inr not_theirs ↦
        subst (λ x. IsFresh (cursor x (to_hex r.peer)) r.sequence)
          (sym (commit_by l q false not_theirs)) h
    | inl theirs ↦ elim (Bool-cases (text_eq (to_hex q.peer) (to_hex r.peer))) [
      | inl same ↦
          let e = (text_eq_iff (to_hex q.peer) (to_hex r.peer)).0 same in
          absurd (spares e (one_owner l q r mine theirs e))
      | inr apart ↦
          subst (λ x. IsFresh (cursor x (to_hex r.peer)) r.sequence)
            (sym (commit_by l q true theirs))
            (subst (λ seen. IsFresh seen r.sequence)
              (sym (cursor-committed l q (to_hex r.peer) apart)) h)
    ]
  ]
  step-IsFresh l (abandon q) r spares low mine h = elim (Bool-cases (owns l q)) [
    | inl theirs ↦
        subst (λ x. IsFresh (cursor x (to_hex r.peer)) r.sequence)
          (sym (abandon_by l q true theirs)) h
    | inr not_theirs ↦
        subst (λ x. IsFresh (cursor x (to_hex r.peer)) r.sequence)
          (sym (abandon_by l q false not_theirs)) h
  ]
  step-IsFresh l (restore_cursor q n) r spares low mine h =
      unfold step Finish.restore_cursor in
      elim (Bool-cases (text_eq (to_hex q) (to_hex r.peer))) [
        | inr apart ↦ rw (get-insert, apart) h
        | inl same ↦
            let e = (text_eq_iff (to_hex q) (to_hex r.peer)).0 same in
            rw (get-insert, same, e) (raised (cursor l (to_hex r.peer)) n r.sequence (low e) h)
      ]

  -- What the receipt's owner can rely on: its reservation, the pairing, and a cursor that is still lower.
  record IsWaiting (l : PeerLedger) (r : Receipt) : Type 0 where
    pub mine : owns l r ≡ true
    pub paired : is_paired l r.peer ≡ true
    pub fresh : IsFresh (cursor l (to_hex r.peer)) r.sequence

  run-IsWaiting :
      (ops : List Op) (l : PeerLedger) (r : Receipt)
      → All (Spares r) ops
      → All (StaysBelow r) ops
      → IsWaiting l r
      → IsWaiting (run c f encode l ops) r
  unfolding run
  run-IsWaiting [] l r spares low h = h
  run-IsWaiting (op ∷ ops) l r spares low h =
      run-IsWaiting ops (step c f encode l op) r spares.1 low.1 (record {
        mine = step-owns c f encode l op r spares.0 h.mine;
        paired = step-paired l op r.peer h.paired;
        fresh = step-IsFresh l op r spares.0 low.0 h.mine h.fresh;
      })

  prepared-IsWaiting :
      (l l' : PeerLedger) (b : EvidenceBundle) (p : Prepared f)
      → Reserved c f encode l l' b p
      → IsWaiting l' (receipt_of p)
  unfolding is_paired
  prepared-IsWaiting l l' b p reserved = record {
    mine = prepared_owns c f encode l l' b p reserved;
    paired = rw reserved.after reserved.paired;
    fresh = rw (reserved.after, reserved.sequence) reserved.fresh;
  }

  idle_again : (l : PeerLedger) (r : Receipt) → is_busy (released l r) r.peer ≡ false
  unfolding is_busy
  idle_again l r = rw (get-remove, text_eq_refl)

  still_paired :
      (l : PeerLedger) (r : Receipt)
      → is_paired l r.peer ≡ true
      → is_paired (released l r) r.peer ≡ true
  unfolding is_paired
  still_paired l r h = h

  -- Whatever is called between the preparation of a bundle and the end of its transaction, where no call is
  -- that end and none restores the peer's cursor to the bundle's sequence number or above, the receipt can be
  -- abandoned, and the bundle is prepared when it is offered right after that, with the same peer, vantage,
  -- sequence and evidence and the next token.
  pub prepare-abandon :
      (l l' : PeerLedger) (b : EvidenceBundle) (p : Prepared f) (ops : List Op)
      → prepare c f encode l b ≡ (ok p, l')
      → All (Spares (receipt_of p)) ops
      → All (StaysBelow (receipt_of p)) ops
      → (let later = run c f encode l' ops in
          let (abandoned, after) = Finish.abandon later (receipt_of p) in
          (abandoned ≡ true)
          × ((prepare c f encode after b).0
              ≡ ok (record p { token = (later.next_token + 1) % token_mod })))
  prepare-abandon l l' b p ops prepared spares low =
      let reserved = prepare-Reserved c f encode l l' b p prepared in
      let r = receipt_of p in
      let later = run c f encode l' ops in
      let h = run-IsWaiting ops l' r spares low (prepared-IsWaiting l l' b p reserved) in
      rw (Finish.abandon_lem later r, h.mine)
        (
          refl,
          prepare_succeeds c f encode (released later r) b p.peer p.evidence reserved.verified
                (still_paired later r h.paired) (rw reserved.sequence at h.fresh)
                (idle_again later r) reserved.converted
              ∙ ap ok (cc (reserved.vantage, reserved.sequence)),
        )

  accepted_of :
      (x : Answer (Prepared f) × PeerLedger) (l' : PeerLedger) (a : Accepted f)
      → commit_prepared c f encode x ≡ (ok a, l')
      → (p : Prepared f) × (l₁ : PeerLedger) × (x ≡ (ok p, l₁))
        × ((Finish.commit l₁ (receipt_of p)).1 ≡ l')
  unfolding commit_prepared
  accepted_of (ok p, l₁) l' a h =
      (p, l₁, refl, ap (λ (y : Answer (Accepted f) × PeerLedger). y.1) h)
  accepted_of (rejected reason, l₁) l' a h = ground arith
  accepted_of (panicked, l₁) l' a h = ground arith

  -- A bundle that was accepted in one step is not prepared again.
  pub accept_immediately_once :
      (l l' : PeerLedger) (b : EvidenceBundle) (a : Accepted f)
      → accept_immediately c f encode l b ≡ (ok a, l')
      → is_ok (prepare c f encode l' b).0 ≡ false
  unfolding accept_immediately run
  accept_immediately_once l l' b a done =
      let (p, l₁, prepared, finished) = accepted_of (prepare c f encode l b) l' a done in
      let reserved = prepare-Reserved c f encode l l₁ b p prepared in
      let owned = prepared_owns c f encode l l₁ b p reserved in
      let commits : Finish.commit l₁ (receipt_of p) ≡ (true, l') =
        rw (Finish.commit_lem l₁ (receipt_of p), owned)
          (ap (λ (x : PeerLedger). (true, x))
            (rw (Finish.commit_lem l₁ (receipt_of p), owned) at finished)) in
      commit_no_replay c f encode l₁ l' (receipt_of p) [] b p.peer commits reserved.verified refl
        (omega (arith, reserved.sequence))
