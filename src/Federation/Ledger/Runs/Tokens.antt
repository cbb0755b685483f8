-- ===== src/Federation/Ledger/Runs/Tokens.antt =====
-- The reservation tokens of src/federation/ledger.rs.
use idnx.Common.{
  ℕ, Text, ◌+◌, ◌≤◌, ◌<◌, ◌≡◌, inl, inr, some, true, false, List, arith, text_eq, text_eq_refl,
  Bool-cases, ◌==◌, if◌then◌else◌,
}
use idnx.Common.Dict
use idnx.Common.Dict.{get-insert, get-remove}
use idnx.Federation.Identity.{Crypto, to_hex}
use idnx.Federation.Wire.Records.{WireEvidence}
use idnx.Federation.Wire.Convert.{Formats}
use idnx.Federation.Bundle.{EvidenceBundle}
use idnx.Federation.Ledger.{PeerLedger, Prepared, Receipt, token_mod}
use idnx.Federation.Ledger.Finish
use idnx.Federation.Ledger.Finish.{owns, holds}
use idnx.Federation.Ledger.Prepare.{Reserved}

-- No token that is held was given out later than `next_token`.
pub record IsSound (l : PeerLedger) : Type 0 where
  pub past : (key : Text) (t : ℕ) → Dict.get l.in_flight key ≡ some t → t ≤ l.next_token

-- The token of a receipt was given out, and its peer's reservation is not the receipt's.
pub record IsSpent (l : PeerLedger) (r : Receipt) : Type 0 where
  pub past : r.token ≤ l.next_token
  pub gone : owns l r ≡ false

pub holds-insert :
    (d : Dict.Dict ℕ) (k j : Text) (t u : ℕ)
    → holds (Dict.get (Dict.insert d k t) j) u
      ≡ (if text_eq k j then t == u else holds (Dict.get d j) u)
holds-insert d k j t u = ground (arith, get-insert d k j t)

pub holds-remove :
    (d : Dict.Dict ℕ) (k j : Text) (u : ℕ)
    → holds (Dict.get (Dict.remove d k) j) u
      ≡ (if text_eq k j then false else holds (Dict.get d j) u)
holds-remove d k j u = ground (arith, get-remove d k j)

released-IsSound : (l : PeerLedger) (r : Receipt) → IsSound l → IsSound (Finish.released l r)
released-IsSound l r s = record {
  past = λ key t h. ground (arith, get-remove l.in_flight (to_hex r.peer) key, s.past key t);
}

pub commit-IsSound : (l : PeerLedger) (r : Receipt) → IsSound l → IsSound (Finish.commit l r).1
commit-IsSound l r s = elim (Bool-cases (owns l r)) [
  | inl mine ↦ rw (Finish.commit_lem l r, mine) (record { past = (released-IsSound l r s).past })
  | inr not_mine ↦ rw (Finish.commit_lem l r, not_mine) s
]

pub abandon-IsSound : (l : PeerLedger) (r : Receipt) → IsSound l → IsSound (Finish.abandon l r).1
abandon-IsSound l r s = elim (Bool-cases (owns l r)) [
  | inl mine ↦ rw (Finish.abandon_lem l r, mine) (released-IsSound l r s)
  | inr not_mine ↦ rw (Finish.abandon_lem l r, not_mine) s
]

released-IsSpent : (l : PeerLedger) (r q : Receipt) → IsSpent l q → IsSpent (Finish.released l r) q
released-IsSpent l r q s = record {
  past = s.past;
  gone = ground (arith, holds-remove l.in_flight (to_hex r.peer) (to_hex q.peer) q.token, s.gone);
}

pub commit-IsSpent :
    (l : PeerLedger) (r q : Receipt) → IsSpent l q → IsSpent (Finish.commit l r).1 q
commit-IsSpent l r q s = elim (Bool-cases (owns l r)) [
  | inl mine ↦
      rw (Finish.commit_lem l r, mine)
        (record { past = s.past; gone = (released-IsSpent l r q s).gone })
  | inr not_mine ↦ rw (Finish.commit_lem l r, not_mine) s
]

pub abandon-IsSpent :
    (l : PeerLedger) (r q : Receipt) → IsSpent l q → IsSpent (Finish.abandon l r).1 q
abandon-IsSpent l r q s = elim (Bool-cases (owns l r)) [
  | inl mine ↦ rw (Finish.abandon_lem l r, mine) (released-IsSpent l r q s)
  | inr not_mine ↦ rw (Finish.abandon_lem l r, not_mine) s
]

-- A released reservation is spent.
pub own_released : (l : PeerLedger) (r : Receipt) → owns (Finish.released l r) r ≡ false
own_released l r = ground (
  arith,
  holds-remove l.in_flight (to_hex r.peer) (to_hex r.peer) r.token,
  text_eq_refl (to_hex r.peer),
)

pub token_past :
    (l : PeerLedger) (r : Receipt) → IsSound l → owns l r ≡ true → r.token ≤ l.next_token
token_past l r s mine = ground (arith, s.past (to_hex r.peer) r.token)

module _ (c : Crypto) (f : Formats) (encode : WireEvidence → List ℕ) where
  -- What a reservation does to the tokens.
  module _ (l l' : PeerLedger) (b : EvidenceBundle) (p : Prepared f)
      (reserved : Reserved c f encode l l' b p) (room : l.next_token + 1 < token_mod) where
    new_token : p.token ≡ l.next_token + 1
    new_token = omega (arith, reserved.token)

    pub reserved-IsSound : IsSound l → IsSound l'
    reserved-IsSound s = rw reserved.after (record {
      past = λ key t h.
          ground
            (arith, get-insert l.in_flight (to_hex p.peer) key p.token, s.past key t, new_token);
    })

    pub reserved-IsSpent : (q : Receipt) → IsSpent l q → IsSpent l' q
    reserved-IsSpent q s = rw reserved.after (record {
      past = omega (arith, s.past, new_token);
      gone = ground (
        arith,
        holds-insert l.in_flight (to_hex p.peer) (to_hex q.peer) p.token q.token,
        s.past,
        s.gone,
        new_token,
      );
    })

    pub next_token-reserved : l'.next_token ≡ l.next_token + 1
    next_token-reserved = rw reserved.after new_token
