-- ===== src/Examples/Accepting.antt =====
-- The transactions of src/federation/ledger.rs, with one bundle of one paired peer.
use idnx.Common.{
  ◌↔◌, All, ◌∙◌, ◌+◌, ◌%◌, to_ascii_lowercase, lower_byte, ◌≡◌, refl, List, [], ◌∷◌, ◌≤◌, none,
  bytes, length, true, false, arith, text_eq,
}
use idnx.Common.Dict
use idnx.Topology.Evidence.{SystemTime, unix_seconds, from_peer, PeerOrigin}
use idnx.Federation.Identity.{PeerId, to_hex, encode_hex}
use idnx.Federation.Wire.Convert.{Evidence, from_evidence, to_evidence}
use idnx.Federation.Wire.Errors.{Outcome}
use idnx.Federation.Wire.Records.{WireEvidence}
use idnx.Federation.Wire.Convert.RoundTrip.{IsExpressible, received, to_evidence-from_evidence}
use idnx.Federation.Bundle.{EvidenceBundle, publish, id, verify, signed_by}
use idnx.Federation.Bundle.Signed.{verify-publish}
use idnx.Federation.Ledger
use idnx.Federation.Ledger.{
  PeerLedger, Prepared, Accepted, Receipt, new, is_paired, is_busy, cursor, ok, origin_of,
  token_mod,
}
use idnx.Federation.Ledger.Decode.{decoded, decode_records}
use idnx.Federation.Ledger.Finish
use idnx.Federation.Ledger.Finish.{receipt_of, committed, released, owns, commit_lem, abandon_lem}
use idnx.Federation.Ledger.Prepare.{IsFresh, is_ok, prepare-Reserved, prepared_of, prepare_succeeds}
use idnx.Federation.Ledger.Retry.{prepare-abandon}
use idnx.Federation.Ledger.Runs.{Op, step, run}
use idnx.Federation.Ledger.Runs.Cursors.{commit_no_replay}
use idnx.Federation.Ledger.Runs.Once.{commit_once}
use idnx.Federation.Ledger.Runs.Held.{prepared_owns, prepare_holds}
use idnx.Federation.Limits.{check_message, passed, max_records, max_vantage_bytes, max_text_bytes}
use idnx.Federation.Limits.Bounds.{IsRecordBounded, check_message_iff}
use idnx.Examples.Fixtures.{plain, plain-IsReadable, toy, toy-IsSound, sighting, encode}

abbrev friend : PeerId
friend = id toy 7

abbrev letter : EvidenceBundle
letter = publish toy encode plain 7 (bytes "roof") 5 (sighting ∷ []) (SystemTime.after_epoch 90 0)

abbrev ledger : PeerLedger
ledger = Ledger.pair new friend

letter_verifies : verify toy encode letter ≡ signed_by friend
letter_verifies =
    verify-publish toy encode toy-IsSound plain 7 (bytes "roof") 5 (sighting ∷ [])
      (SystemTime.after_epoch 90 0)

friend_paired : is_paired ledger friend ≡ true
unfolding is_paired Ledger.pair Dict.insert Dict.get to_hex encode_hex text_eq
friend_paired = refl

friend_idle : is_busy ledger friend ≡ false
unfolding is_busy Ledger.pair Dict.get
friend_idle = refl

nothing_seen : cursor ledger (to_hex friend) ≡ none
unfolding Ledger.pair Dict.get
nothing_seen = refl

lower_mac : IsExpressible sighting.fact
unfolding to_ascii_lowercase lower_byte
lower_mac = refl

early : unix_seconds sighting.observed_at ≤ 10_000
unfolding unix_seconds
early = omega arith

-- What the ledger hands on: the sighting, by its sender.
abbrev handed_on : Evidence plain
handed_on = from_peer (received sighting) (origin_of letter friend)

converts_one :
    (w : WireEvidence) (e : Evidence plain) (origin : PeerOrigin)
    → to_evidence plain w ≡ Outcome.ok e
    → decode_records plain origin (w ∷ []) [] [] ≡ decoded (from_peer e origin ∷ []) []
unfolding decode_records
converts_one w e origin h = ground arith

converted :
    decode_records plain (origin_of letter friend) letter.records [] []
    ≡ decoded (handed_on ∷ []) []
unfolding publish
converted =
    converts_one (from_evidence plain sighting) (received sighting) (origin_of letter friend)
      (to_evidence-from_evidence plain plain-IsReadable sighting lower_mac early)

abbrev prepared : Prepared plain
prepared = prepared_of toy plain encode ledger letter friend (handed_on ∷ [])

abbrev after : PeerLedger
after = (Ledger.prepare toy plain encode ledger letter).1

unseen : IsFresh (cursor ledger (to_hex friend)) letter.sequence
unseen = rw nothing_seen tt

opened : Ledger.prepare toy plain encode ledger letter ≡ (ok prepared, after)
opened =
    let e =
      prepare_succeeds toy plain encode ledger letter friend (handed_on ∷ []) letter_verifies
        friend_paired unseen friend_idle converted in
    λ i. (e i, after)

abbrev old_letter : EvidenceBundle
old_letter = record letter { schema_version = 2 }

abbrev foreign : Receipt
foreign = record (receipt_of prepared) { token = prepared.token + 1 }

-- What others call while the letter's transaction is open.
abbrev meanwhile : List Op
meanwhile = Op.restore_cursor friend 3 ∷ Op.prepare old_letter ∷ Op.abandon foreign ∷ []

abbrev later : PeerLedger
later = run toy plain encode after meanwhile

prepare-abandon_example :
    ((Finish.abandon later (receipt_of prepared)).0 ≡ true)
    × ((Ledger.prepare toy plain encode (Finish.abandon later (receipt_of prepared)).1 letter).0
        ≡ ok (record prepared { token = (later.next_token + 1) % token_mod }))
unfolding publish
prepare-abandon_example =
    prepare-abandon toy plain encode ledger after letter prepared meanwhile opened
      (tt, (tt, (λ e same. absurd (omega (arith, same)), tt))) (λ e. omega arith, (tt, (tt, tt)))

abbrev receipt : Receipt
receipt = receipt_of prepared

mine : owns after receipt ≡ true
mine =
    prepared_owns toy plain encode ledger after letter prepared
      (prepare-Reserved toy plain encode ledger after letter prepared opened)

commits : Finish.commit after receipt ≡ (true, committed after receipt)
commits = commit_lem after receipt ∙ rw mine refl

commit_no_replay_example :
    is_ok
      (Ledger.prepare toy plain encode
        (run toy plain encode (committed after receipt) (Op.prepare old_letter ∷ []))
        letter).0
    ≡ false
commit_no_replay_example =
    commit_no_replay toy plain encode after (committed after receipt) receipt
      (Op.prepare old_letter ∷ []) letter friend commits letter_verifies refl (omega arith)

abbrev raised : PeerLedger
raised = record new { highest_sequence = Dict.insert [] (bytes "ab") 5 }

-- What led to `after`.
abbrev before : List Op
before = Op.pair friend ∷ Op.prepare letter ∷ []

same_after : run toy plain encode new before ≡ after
unfolding run step
same_after = refl

commits_then :
    Finish.commit (run toy plain encode new before) receipt ≡ (true, committed after receipt)
commits_then = rw same_after commits

commit_once_example :
    ((Finish.commit (run toy plain encode (committed after receipt) before) receipt).0 ≡ false)
    × ((Finish.abandon (run toy plain encode (committed after receipt) before) receipt).0 ≡ false)
commit_once_example =
    commit_once toy plain encode before before (committed after receipt) receipt (omega arith)
      commits_then

prepare_holds_example :
    ((Finish.commit (run toy plain encode after before) receipt).0 ≡ true)
    × (is_busy (run toy plain encode after before) friend ≡ true)
prepare_holds_example =
    prepare_holds toy plain encode ledger after letter prepared before opened (tt, (tt, tt))

check_message_iff_example : (check_message letter ≡ passed) ↔ (
    (length letter.records ≤ max_records)
    × (length letter.vantage ≤ max_vantage_bytes)
    × (length letter.peer ≤ max_text_bytes)
    × (length letter.signature ≤ max_text_bytes)
    × All IsRecordBounded letter.records)
check_message_iff_example = check_message_iff letter
