-- ===== src/Federation/Ledger/Runs.antt =====
-- Any interleaving of the operations of src/federation/ledger.rs.
pub mod Tokens
pub mod Cursors
pub mod Once
pub mod Held
use idnx.Common.{ℕ, suc, List, [], ◌∷◌}
use idnx.Federation.Identity.{Crypto, PeerId}
use idnx.Federation.Wire.Records.{WireEvidence}
use idnx.Federation.Wire.Convert.{Formats}
use idnx.Federation.Bundle.{EvidenceBundle}
use idnx.Federation.Ledger
use idnx.Federation.Ledger.{PeerLedger, Receipt}
use idnx.Federation.Ledger.Finish

-- One call of the ledger by some connection.
pub data Op : Type 0 where
  pair : PeerId → Op
  prepare : EvidenceBundle → Op
  commit abandon : Receipt → Op
  restore_cursor : PeerId → ℕ → Op

module _ (c : Crypto) (f : Formats) (encode : WireEvidence → List ℕ) where
  unfoldable pub step : PeerLedger → Op → PeerLedger
  step l (pair peer) = Ledger.pair l peer
  step l (prepare b) = (Ledger.prepare c f encode l b).1
  step l (commit r) = (Finish.commit l r).1
  step l (abandon r) = (Finish.abandon l r).1
  step l (restore_cursor peer sequence) = Finish.restore_cursor l peer sequence

  unfoldable pub run : PeerLedger → List Op → PeerLedger
  unfolding step
  run l [] = l
  run l (op ∷ ops) = run (step l op) ops
