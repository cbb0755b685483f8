-- ===== src/Federation/Ledger/Finish.antt =====
-- How a transaction ends: `split`, `commit`, `abandon`, `restore_cursor` and `accept_immediately` of
-- src/federation/ledger.rs.
use idnx.Common.{
  ℕ, List, ◌≡◌, refl, arith, Option, none, some, Bool, true, false, ◌==◌, if◌then◌else◌,
}
use idnx.Common.Dict
use idnx.Federation.Identity.{Crypto, PeerId, to_hex}
use idnx.Federation.Wire.Records.{WireEvidence}
use idnx.Federation.Wire.Convert.{Formats}
use idnx.Federation.Bundle.{EvidenceBundle}
use idnx.Federation.Ledger.{
  Prepared, Receipt, Accepted, PeerLedger, Answer, ok, rejected, panicked, cursor, raise_from,
  prepare,
}

module _ {f : Formats} where
  -- `Prepared::into_accepted`
  unfoldable pub into_accepted : Prepared f → Accepted f
  into_accepted p = record {
    peer = p.peer;
    vantage = p.vantage;
    sequence = p.sequence;
    evidence = p.evidence;
  }

  abbrev pub receipt_of : Prepared f → Receipt
  receipt_of p = record { peer = p.peer; sequence = p.sequence; token = p.token }

  -- `Prepared::split`
  unfoldable pub split : Prepared f → Accepted f × Receipt
  unfolding into_accepted
  split p = (into_accepted p, receipt_of p)

-- `self.in_flight.get(&key) == Some(&receipt.token)`
abbrev pub holds : Option ℕ → ℕ → Bool
holds none token = false
holds (some held) token = held == token

-- Whether a receipt owns the reservation of its peer.
abbrev pub owns : PeerLedger → Receipt → Bool
owns l r = holds (Dict.get l.in_flight (to_hex r.peer)) r.token

-- `PeerLedger::commit`
unfoldable pub commit : PeerLedger → Receipt → Bool × PeerLedger
commit l r =
    let key = to_hex r.peer in
    if owns l r
    then (
      true,
      record l {
        highest_sequence =
            Dict.insert l.highest_sequence key (raise_from (cursor l key) r.sequence);
        in_flight = Dict.remove l.in_flight key;
      },
    )
    else (false, l)

-- `PeerLedger::abandon`
unfoldable pub abandon : PeerLedger → Receipt → Bool × PeerLedger
abandon l r =
    if owns l r
    then (true, record l { in_flight = Dict.remove l.in_flight (to_hex r.peer) })
    else (false, l)

-- The ledger after a reservation was released, and after a commit.
abbrev pub released : PeerLedger → Receipt → PeerLedger
released l r = record l { in_flight = Dict.remove l.in_flight (to_hex r.peer) }

abbrev pub committed : PeerLedger → Receipt → PeerLedger
committed l r = record l {
  highest_sequence =
      Dict.insert l.highest_sequence (to_hex r.peer)
        (raise_from (cursor l (to_hex r.peer)) r.sequence);
  in_flight = Dict.remove l.in_flight (to_hex r.peer);
}

-- A commit takes effect exactly where the receipt owns its peer's reservation.
pub commit_lem :
    (l : PeerLedger) (r : Receipt)
    → commit l r ≡ (if owns l r then (true, committed l r) else (false, l))
unfolding commit
commit_lem l r = refl

pub abandon_lem :
    (l : PeerLedger) (r : Receipt)
    → abandon l r ≡ (if owns l r then (true, released l r) else (false, l))
unfolding abandon
abandon_lem l r = refl

pub committed_of :
    (l l' : PeerLedger) (r : Receipt)
    → commit l r ≡ (true, l')
    → (owns l r ≡ true) × (l' ≡ committed l r)
unfolding commit
committed_of l l' r h = ground arith

pub released_of :
    (l l' : PeerLedger) (r : Receipt)
    → abandon l r ≡ (true, l')
    → (owns l r ≡ true) × (l' ≡ released l r)
unfolding abandon
released_of l l' r h = ground arith

-- `PeerLedger::restore_cursor`
unfoldable pub restore_cursor : PeerLedger → PeerId → ℕ → PeerLedger
restore_cursor l peer sequence =
    let key = to_hex peer in
    record l {
      highest_sequence = Dict.insert l.highest_sequence key (raise_from (cursor l key) sequence);
    }

module _ (c : Crypto) (f : Formats) (encode : WireEvidence → List ℕ) where
  unfoldable pub commit_prepared :
      Answer (Prepared f) × PeerLedger → Answer (Accepted f) × PeerLedger
  unfolding split commit
  commit_prepared (ok p, l) =
      let (accepted, receipt) = split p in let (_, l') = commit l receipt in (ok accepted, l')
  commit_prepared (rejected reason, l) = (rejected reason, l)
  commit_prepared (panicked, l) = (panicked, l)

  -- `PeerLedger::accept_immediately`
  unfoldable pub accept_immediately : PeerLedger → EvidenceBundle → Answer (Accepted f) × PeerLedger
  unfolding commit_prepared
  accept_immediately l b = commit_prepared (prepare c f encode l b)
