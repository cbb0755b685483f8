-- ===== src/Federation/Store/Lives.antt =====
-- The processes that use one file of src/federation/store.rs, one after another.
use idnx.Common.{ℕ, Text, Bool, Option, none, some, List, [], ◌∷◌, ◌++◌}
use idnx.Federation.Identity.{Crypto, PeerId}
use idnx.Federation.Store
use idnx.Federation.Store.{Storage, Write}

module _ (c : Crypto) (g : Storage c) where
  -- The file, the process that runs, if one does, and the numbers that `next_sequence` returned.
  pub record Node : Type 0 where
    pub file : Option g.Json
    pub running : Option (Store.FederationStore c g)
    pub claimed : List ℕ

  abbrev pub start : Node
  start = record { file = none; running = none; claimed = [] }

  pub data Request : Type 0 where
    pair : PeerId → Text → Write → Request
    unpair : PeerId → Write → Request
    next_sequence : Write → Request
    record_inbound : PeerId → ℕ → Write → Request

  -- A call of the running process, a crash between calls, a crash in a call after its file operations,
  -- and a start.
  pub data Event : Type 0 where
    call : Request → Event
    crash : Event
    crash_in : Request → Event
    boot : c.SigningKey → Write → Event

  abbrev pub claims : Option ℕ → List ℕ
  claims none = []
  claims (some n) = n ∷ []

  abbrev pub committed : Node → Bool × Store.FederationStore c g × Option g.Json → Node
  committed n (answer, store, file) = record n { file = file; running = some store }

  abbrev pub claimed_by : Node → Option ℕ × Store.FederationStore c g × Option g.Json → Node
  claimed_by n (number, store, file) = record {
    file = file;
    running = some store;
    claimed = claims number ++ n.claimed;
  }

  unfoldable pub answered : Node → Store.FederationStore c g → Request → Node
  answered n store (pair peer note write) =
      committed n (Store.commit c g store (Store.pair_with peer note) write n.file)
  answered n store (unpair peer write) =
      committed n (Store.commit c g store (Store.unpair_from peer) write n.file)
  answered n store (next_sequence write) = claimed_by n (Store.next_sequence c g store write n.file)
  answered n store (record_inbound peer sequence write) =
      committed n (Store.record_inbound c g store peer sequence write n.file)

  abbrev pub booted : Node → Store.Opened c g × Option g.Json → Node
  booted n (Store.opened store, file) = record n { file = file; running = some store }
  booted n (Store.refused e, file) = record n { file = file }

  abbrev pub happens_to : Node → Option (Store.FederationStore c g) → Event → Node
  happens_to n (some store) (call r) = answered n store r
  happens_to n (some store) crash = record n { running = none }
  happens_to n (some store) (crash_in r) = record n {
    file = (answered n store r).file;
    running = none;
  }
  happens_to n (some store) (boot key write) = n
  happens_to n none (call r) = n
  happens_to n none crash = n
  happens_to n none (crash_in r) = n
  happens_to n none (boot key write) = booted n (Store.open_store c g key write n.file)

  unfoldable pub happens : Node → Event → Node
  happens n e = happens_to n n.running e

  unfoldable pub lives : Node → List Event → Node
  lives n [] = n
  lives n (e ∷ es) = lives (happens n e) es
