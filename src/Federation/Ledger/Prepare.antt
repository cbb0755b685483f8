-- ===== src/Federation/Ledger/Prepare.antt =====
-- `prepare` of src/federation/ledger.rs, on all of its branches.
use idnx.Common.{
  ℕ, ◌+◌, ◌%◌, ◌<◌, ◌≡◌, ◌⊎◌, inl, inr, refl, Option, none, some, Bool, true, false, List, [],
  arith, Option-cases,
}
use idnx.Common.Dict
use idnx.Common.Dict.{get-insert}
use idnx.Federation.Identity.{Crypto, PeerId, to_hex}
use idnx.Federation.Wire.Records.{WireEvidence}
use idnx.Federation.Wire.Convert.{Formats, Evidence}
use idnx.Federation.Bundle.{EvidenceBundle, signed_by, verify}
use idnx.Federation.Ledger.{
  Prepared, PeerLedger, Answer, ok, rejected, panicked, cursor, is_paired, is_busy, origin_of,
  prepare, token_mod,
}
use idnx.Federation.Ledger.Decode.{decoded, decode_records}

abbrev pub is_ok : {A : Type 0} → Answer A → Bool
is_ok (ok _) = true
is_ok _ = false

-- A sequence number above the cursor, if there is one.
abbrev pub IsFresh : Option ℕ → ℕ → Type 0
IsFresh none sequence = Unit
IsFresh (some seen) sequence = seen < sequence

module _ (c : Crypto) (f : Formats) (encode : WireEvidence → List ℕ) where
  -- What held before a bundle was prepared, and what changed.
  pub record Reserved (l l' : PeerLedger) (b : EvidenceBundle) (p : Prepared f) : Type 0 where
    pub verified : verify c encode b ≡ signed_by p.peer
    pub paired : is_paired l p.peer ≡ true
    pub fresh : IsFresh (cursor l (to_hex p.peer)) b.sequence
    pub idle : is_busy l p.peer ≡ false
    pub converted : decode_records f (origin_of b p.peer) b.records [] [] ≡ decoded p.evidence []
    pub sequence : p.sequence ≡ b.sequence
    pub vantage : p.vantage ≡ b.vantage
    pub token : p.token ≡ (l.next_token + 1) % token_mod
    pub after : l' ≡ record l {
      next_token = p.token;
      in_flight = Dict.insert l.in_flight (to_hex p.peer) p.token;
    }

  pub prepare-Reserved :
      (l l' : PeerLedger) (b : EvidenceBundle) (p : Prepared f)
      → prepare c f encode l b ≡ (ok p, l')
      → Reserved l l' b p
  unfolding prepare is_busy
  prepare-Reserved l l' b p h = ground arith

  -- Whatever `prepare` answers but a prepared bundle, the ledger is what it was.
  pub prepare_unchanged :
      (l : PeerLedger) (b : EvidenceBundle)
      → is_ok (prepare c f encode l b).0 ≡ false
      → (prepare c f encode l b).1 ≡ l
  unfolding prepare
  prepare_unchanged l b h = ground arith

  -- What `prepare` returns where every check passes.
  abbrev pub prepared_of : PeerLedger → EvidenceBundle → PeerId → List (Evidence f) → Prepared f
  prepared_of l b peer evidence = record {
    peer = peer;
    vantage = b.vantage;
    sequence = b.sequence;
    evidence = evidence;
    token = (l.next_token + 1) % token_mod;
  }

  -- A bundle that verifies as a paired peer's, is above that peer's cursor, whose records all convert
  -- and whose peer holds no reservation is prepared, with the next token.
  pub prepare_succeeds :
      (l : PeerLedger) (b : EvidenceBundle) (peer : PeerId) (evidence : List (Evidence f))
      → verify c encode b ≡ signed_by peer
      → is_paired l peer ≡ true
      → IsFresh (cursor l (to_hex peer)) b.sequence
      → is_busy l peer ≡ false
      → decode_records f (origin_of b peer) b.records [] [] ≡ decoded evidence []
      → (prepare c f encode l b).0 ≡ ok (prepared_of l b peer evidence)
  unfolding prepare is_busy
  prepare_succeeds l b peer evidence verified paired fresh idle converted =
      elim (Option-cases (cursor l (to_hex peer))) [
        | inl none_seen ↦ ground arith
        | inr (seen, e) ↦ let above : seen < b.sequence = rw e at fresh in ground arith
      ]

  -- `prepare` reserves, or changes nothing.
  pub prepare_cases :
      (l : PeerLedger) (b : EvidenceBundle)
      → ((p : Prepared f) × Reserved l (prepare c f encode l b).1 b p)
        ⊎ ((prepare c f encode l b).1 ≡ l)
  prepare_cases l b = go (prepare c f encode l b).0 refl
    where
      go :
          (a : Answer (Prepared f))
          → (prepare c f encode l b).0 ≡ a
          → ((p : Prepared f) × Reserved l (prepare c f encode l b).1 b p)
            ⊎ ((prepare c f encode l b).1 ≡ l)
      go (ok p) e = inl (
        p,
        prepare-Reserved l (prepare c f encode l b).1 b p (λ i. (e i, (prepare c f encode l b).1)),
      )
      go (rejected reason) e = inr (prepare_unchanged l b (rw e))
      go panicked e = inr (prepare_unchanged l b (rw e))
