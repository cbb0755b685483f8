-- ===== src/Federation/Source/Handover.antt =====
-- Runs of the calls of src/federation/source.rs, by the connections and by the engine.
use mathlib.Core.List.{append_assoc, append-nil}
use idnx.Common.{
  ◌≡◌, refl, sym, ap, ◌∙◌, Text, true, Option, List, [], ◌∷◌, ◌++◌, Bool-cases, inl, inr,
}
use idnx.Federation.Identity.{PeerId}
use idnx.Federation.Wire.Convert.{Formats, Evidence}
use idnx.Federation.Ledger.{Accepted}
use idnx.Federation.Source
use idnx.Federation.Source.{Delivery, queued, declined}

module _ (f : Formats) where
  pub data Call : Type 0 where
    deliver : Accepted f → Call
    reject : Option PeerId → Text → Text → Call
    drain finish : Call

  -- What a run has come to: the source, the evidence that the engine took, and the evidence of the
  -- bundles that were answered as queued.
  pub record Progress : Type 0 where
    pub source : Source.FederationSource f
    pub taken : List (Evidence f)
    pub acknowledged : List (Evidence f)

  abbrev pub evidence_if_queued : Delivery → List (Evidence f) → List (Evidence f)
  evidence_if_queued queued evidence = evidence
  evidence_if_queued declined evidence = []

  unfoldable pub call : Progress → Call → Progress
  call p (deliver accepted) =
      let (answer, source) = Source.deliver f p.source accepted in
      record p {
        source = source;
        acknowledged = p.acknowledged ++ evidence_if_queued answer accepted.evidence;
      }
  call p (reject peer vantage reason) = record p {
    source = Source.reject f p.source peer vantage reason;
  }
  call p drain =
      let (evidence, source) = Source.drain f p.source in
      record p { source = source; taken = p.taken ++ evidence }
  call p finish =
      let (evidence, source) = Source.finish f p.source in
      record p { source = source; taken = p.taken ++ evidence }

  unfoldable pub calls : Progress → List Call → Progress
  calls p [] = p
  calls p (c ∷ cs) = calls (call p c) cs

  abbrev pub start : Progress
  start = record { source = Source.new f; taken = []; acknowledged = [] }

  -- What was acknowledged was taken, or is pending.
  abbrev IsKept : Progress → Type 0
  IsKept p = p.taken ++ p.source.queue.pending ≡ p.acknowledged

  reject-queue :
      (s : Source.FederationSource f) (peer : Option PeerId) (vantage reason : Text)
      → (Source.reject f s peer vantage reason).queue ≡ s.queue
  unfolding Source.reject
  reject-queue s Option.none vantage reason = refl
  reject-queue s (Option.some peer) vantage reason = refl

  call-IsKept : (p : Progress) (c : Call) → IsKept p → IsKept (call p c)
  unfolding call Source.deliver Source.enqueue Source.tally Source.drain Source.finish
  call-IsKept p (deliver accepted) h = elim (Bool-cases p.source.queue.stopped) [
    | inl stopped ↦ rw stopped (h ∙ sym (append-nil p.acknowledged))
    | inr open' ↦ rw open' (
        sym (append_assoc p.taken p.source.queue.pending accepted.evidence)
        ∙ ap (λ (t : List (Evidence f)). t ++ accepted.evidence) h)
  ]
  call-IsKept p (reject peer vantage reason) h = rw (reject-queue p.source peer vantage reason) h
  call-IsKept p drain h = append-nil (p.taken ++ p.source.queue.pending) ∙ h
  call-IsKept p finish h = append-nil (p.taken ++ p.source.queue.pending) ∙ h

  calls-IsKept : (cs : List Call) (p : Progress) → IsKept p → IsKept (calls p cs)
  unfolding calls
  calls-IsKept [] p h = h
  calls-IsKept (c ∷ cs) p h = calls-IsKept cs (call p c) (call-IsKept p c h)

  -- The engine has finished with the source.
  abbrev IsFinished : Progress → Type 0
  IsFinished p = (p.source.queue.stopped ≡ true) × (p.source.queue.pending ≡ [])

  call-IsFinished :
      (p : Progress) (c : Call)
      → IsFinished p
      → IsFinished (call p c) × ((call p c).acknowledged ≡ p.acknowledged)
  unfolding call Source.deliver Source.enqueue Source.drain Source.finish
  call-IsFinished p (deliver accepted) h = rw h.0 ((refl, h.1), append-nil p.acknowledged)
  call-IsFinished p (reject peer vantage reason) h =
      rw (reject-queue p.source peer vantage reason) (h, refl)
  call-IsFinished p drain h = ((h.0, refl), refl)
  call-IsFinished p finish h = ((refl, refl), refl)

  calls-IsFinished :
      (cs : List Call) (p : Progress)
      → IsFinished p
      → IsFinished (calls p cs) × ((calls p cs).acknowledged ≡ p.acknowledged)
  unfolding calls
  calls-IsFinished [] p h = (h, refl)
  calls-IsFinished (c ∷ cs) p h =
      let (now, same) = call-IsFinished p c h in
      let (then', kept) = calls-IsFinished cs (call p c) now in (then', kept ∙ same)

  calls-append :
      (p : Progress) (before after : List Call)
      → calls p (before ++ after) ≡ calls (calls p before) after
  unfolding calls
  calls-append p [] after = refl
  calls-append p (c ∷ before) after = calls-append (call p c) before after

  -- Whatever connections and the engine call before the engine finishes and after, the engine has
  -- taken, in order and once, the evidence of exactly the bundles that were answered as queued; all
  -- of them were answered before it finished.
  pub taken_is_acknowledged :
      (before after : List Call)
      → ((calls start (before ++ finish ∷ after)).taken
          ≡ (calls start (before ++ finish ∷ after)).acknowledged)
        × ((calls start (before ++ finish ∷ after)).acknowledged
            ≡ (calls start before).acknowledged)
  unfolding calls call Source.finish
  taken_is_acknowledged before after = rw (calls-append start before (finish ∷ after)) (
      let p = calls start before in
      let (done, same) = calls-IsFinished after (call p finish) (refl, refl) in
      let kept =
        calls-IsKept after (call p finish)
          (call-IsKept p finish (calls-IsKept before start refl)) in
      (sym (rw done.1 (append-nil (calls (call p finish) after).taken)) ∙ kept, same))

  -- After the engine finished, whatever is called, a bundle is declined.
  pub declined_once_finished :
      (before after : List Call) (accepted : Accepted f)
      → (Source.deliver f (calls start (before ++ finish ∷ after)).source accepted).0 ≡ declined
  unfolding calls call Source.finish Source.deliver Source.enqueue
  declined_once_finished before after accepted = rw (calls-append start before (finish ∷ after)) (
      let (done, same) = calls-IsFinished after (call (calls start before) finish) (refl, refl) in
      rw done.0 refl)
