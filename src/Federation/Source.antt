-- ===== src/Federation/Source.antt =====
-- src/federation/source.rs: accepted evidence on its way to the engine. Each lock is held for one
-- critical section; a lock is never poisoned, since no section panics.
pub mod Handover
pub mod Tallies
use idnx.Common.{
  ℕ, ◌+◌, ◌%◌, ◌^◌, Text, Bool, true, false, not, ◌&&◌, Option, none, some, List, [], ◌∷◌, ◌++◌,
  length, text_eq, if◌then◌else◌,
}
use idnx.Federation.Identity.{PeerId}
use idnx.Federation.Wire.Convert.{Formats, Evidence}
use idnx.Federation.Ledger.{Accepted}

pub record PeerOutcome : Type 0 where
  pub peer : PeerId
  pub vantage : Text
  pub bundles : ℕ
  pub records : ℕ
  pub rejected : List Text

pub data Delivery : Type 0 where
  queued declined : Delivery

-- `o.peer == peer && o.vantage == vantage`
abbrev pub is_for : PeerId → Text → PeerOutcome → Bool
is_for peer vantage o = text_eq o.peer.key peer.key && text_eq o.vantage vantage

-- `iter_mut().find(..)`, and the push where nothing is found.
unfoldable pub update_or_push :
    (PeerOutcome → Bool)
    → (PeerOutcome → PeerOutcome)
    → PeerOutcome
    → List PeerOutcome
    → List PeerOutcome
update_or_push p change fresh [] = fresh ∷ []
update_or_push p change fresh (o ∷ outcomes) =
    let rest = update_or_push p change fresh outcomes in
    if p o then change o ∷ outcomes else o ∷ rest

module _ (f : Formats) where
  pub record Queue : Type 0 where
    pub pending : List (Evidence f)
    pub stopped : Bool

  pub record FederationSource : Type 0 where
    pub queue : Queue
    pub outcomes : List PeerOutcome
    pub accepted_records : ℕ

  -- `FederationSource::new`
  abbrev pub new : FederationSource
  new = record {
    queue = record { pending = []; stopped = false };
    outcomes = [];
    accepted_records = 0;
  }

  -- The first critical section of `deliver`.
  unfoldable pub enqueue : Queue → List (Evidence f) → Delivery × Queue
  enqueue q evidence =
      if q.stopped then (declined, q) else (queued, record q { pending = q.pending ++ evidence })

  abbrev pub counted : ℕ → PeerOutcome → PeerOutcome
  counted records o = record o { bundles = o.bundles + 1; records = o.records + records }

  -- Its atomic counter and its second critical section.
  unfoldable pub tally : FederationSource → Accepted f → FederationSource
  tally s accepted =
      let records = length accepted.evidence in
      record s {
        accepted_records = (s.accepted_records + records) % 2 ^ 64;
        outcomes =
            update_or_push (is_for accepted.peer accepted.vantage) (counted records)
              (record {
                peer = accepted.peer;
                vantage = accepted.vantage;
                bundles = 1;
                records = records;
                rejected = [];
              })
              s.outcomes;
      }

  abbrev pub finish_delivery : FederationSource → Accepted f → Delivery → FederationSource
  finish_delivery s accepted queued = tally s accepted
  finish_delivery s accepted declined = s

  -- `deliver`
  unfoldable pub deliver : FederationSource → Accepted f → Delivery × FederationSource
  deliver s accepted =
      let (answer, queue) = enqueue s.queue accepted.evidence in
      (answer, finish_delivery (record s { queue = queue }) accepted answer)

  -- `reject`; `reason` is the text of the reason.
  unfoldable pub reject : FederationSource → Option PeerId → Text → Text → FederationSource
  reject s none vantage reason = s
  reject s (some peer) vantage reason = record s {
    outcomes =
        update_or_push (is_for peer vantage)
          (λ o. record o { rejected = o.rejected ++ reason ∷ [] })
          (record {
            peer = peer;
            vantage = vantage;
            bundles = 0;
            records = 0;
            rejected = reason ∷ [];
          })
          s.outcomes;
  }

  -- `had_peers`
  unfoldable pub had_peers : FederationSource → Bool
  had_peers s = elim s.outcomes [ [] ↦ false | _ ∷ _ ↦ true ]

  -- `drain`
  unfoldable pub drain : FederationSource → List (Evidence f) × FederationSource
  drain s = (s.queue.pending, record s { queue = record (s.queue) { pending = [] } })

  -- `finish`
  unfoldable pub finish : FederationSource → List (Evidence f) × FederationSource
  finish s = (s.queue.pending, record s { queue = record { pending = []; stopped = true } })
