-- ===== src/Federation/Ledger.antt =====
-- src/federation/ledger.rs: accepting evidence from peers, a transaction at a time.
pub mod Decode
pub mod Finish
pub mod Prepare
pub mod Runs
pub mod Retry
use idnx.Common.{
  ℕ, Text, ◌+◌, ◌%◌, ◌^◌, Option, none, some, Bool, true, false, List, [], ◌==◌, leb, ltb,
  if◌then◌else◌,
}
use idnx.Common.Dict
use idnx.Common.Dict.{Dict}
use idnx.Topology.Evidence.{PeerOrigin}
use idnx.Federation.Identity.{Crypto, PeerId, to_hex}
use idnx.Federation.Wire.Records.{WireEvidence}
use idnx.Federation.Wire.Convert.{Formats, Evidence}
use idnx.Federation.Bundle.{EvidenceBundle, BundleError, Verdict, signed_by, invalid, verify}
use Decode.{Decoded, decoded, decode_panicked, decode_records, sort, dedup}

pub data RejectReason : Type 0 where
  unverifiable : BundleError → RejectReason
  not_paired : Text → RejectReason
  stale : ℕ → ℕ → RejectReason
  busy : Text → RejectReason
  undecodable : List Text → RejectReason

pub record Prepared (f : Formats) : Type 0 where
  pub peer : PeerId
  pub vantage : Text
  pub sequence : ℕ
  pub evidence : List (Evidence f)
  pub token : ℕ

pub record Receipt : Type 0 where
  pub peer : PeerId
  pub sequence : ℕ
  pub token : ℕ

pub record Accepted (f : Formats) : Type 0 where
  pub peer : PeerId
  pub vantage : Text
  pub sequence : ℕ
  pub evidence : List (Evidence f)

pub record PeerLedger : Type 0 where
  pub trusted : Dict PeerId
  pub highest_sequence : Dict ℕ
  pub in_flight : Dict ℕ
  pub next_token : ℕ

-- `PeerLedger::new`
abbrev pub new : PeerLedger
new = record { trusted = []; highest_sequence = []; in_flight = []; next_token = 0 }

-- What `prepare` answers; the process may also panic in a conversion.
pub data Answer (A : Type 0) : Type 0 where
  ok : A → Answer A
  rejected : RejectReason → Answer A
  panicked : Answer A

-- `PeerLedger::pair`
unfoldable pub pair : PeerLedger → PeerId → PeerLedger
pair l peer = record l { trusted = Dict.insert l.trusted (to_hex peer) peer }

-- `Option::is_some`, for `contains_key`
abbrev pub is_some {ℓ} : {A : Type ℓ} → Option A → Bool
is_some none = false
is_some (some _) = true

-- `PeerLedger::is_paired`
unfoldable pub is_paired : PeerLedger → PeerId → Bool
is_paired l peer = is_some (Dict.get l.trusted (to_hex peer))

-- `PeerLedger::is_busy`
unfoldable pub is_busy : PeerLedger → PeerId → Bool
is_busy l peer = is_some (Dict.get l.in_flight (to_hex peer))

-- The highest sequence accepted from a peer.
abbrev pub cursor : PeerLedger → Text → Option ℕ
cursor l key = Dict.get l.highest_sequence key

-- `entry(key).or_default()`, raised to `sequence` if that is higher.
abbrev pub raise_from : Option ℕ → ℕ → ℕ
raise_from none sequence = sequence
raise_from (some seen) sequence = if ltb seen sequence then sequence else seen

-- The tokens are `u64`s.
abbrev pub token_mod : ℕ
token_mod = 2 ^ 64

-- Who sent a bundle, for each record of it.
abbrev pub origin_of : EvidenceBundle → PeerId → PeerOrigin
origin_of b peer = record {
  peer = to_hex peer;
  vantage = b.vantage;
  sequence = b.sequence;
  published_at = b.published_at;
}

module _ (c : Crypto) (f : Formats) (encode : WireEvidence → List ℕ) where
  -- The reservation, which is the only change that `prepare` makes.
  unfoldable pub reserve :
      PeerLedger → EvidenceBundle → PeerId → List (Evidence f) → Answer (Prepared f) × PeerLedger
  reserve l b peer evidence = elim (Dict.get l.in_flight (to_hex peer)) [
    | some _ ↦ (rejected (busy (to_hex peer)), l)
    | none ↦
        let token = (l.next_token + 1) % token_mod in
        (
          ok (record {
            peer = peer;
            vantage = b.vantage;
            sequence = b.sequence;
            evidence = evidence;
            token = token;
          }),
          record l { next_token = token; in_flight = Dict.insert l.in_flight (to_hex peer) token },
        )
  ]

  unfoldable pub convert : PeerLedger → EvidenceBundle → PeerId → Answer (Prepared f) × PeerLedger
  unfolding reserve
  convert l b peer = elim (decode_records f (origin_of b peer) b.records [] []) [
    | decode_panicked ↦ (panicked, l)
    | decoded evidence [] ↦ reserve l b peer evidence
    | decoded evidence undecoded ↦ (rejected (undecodable (dedup (sort undecoded))), l)
  ]

  unfoldable pub authorise : PeerLedger → EvidenceBundle → PeerId → Answer (Prepared f) × PeerLedger
  unfolding is_paired convert
  authorise l b peer =
      if is_paired l peer
      then elim (cursor l (to_hex peer)) [
        | none ↦ convert l b peer
        | some seen ↦
            if leb b.sequence seen then (rejected (stale seen b.sequence), l) else convert l b peer
      ]
      else (rejected (not_paired (to_hex peer)), l)

  -- `PeerLedger::prepare`
  unfoldable pub prepare : PeerLedger → EvidenceBundle → Answer (Prepared f) × PeerLedger
  unfolding authorise
  prepare l b = elim (verify c encode b) [
    | invalid e ↦ (rejected (unverifiable e), l)
    | signed_by peer ↦ authorise l b peer
  ]
