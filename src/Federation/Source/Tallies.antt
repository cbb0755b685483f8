-- ===== src/Federation/Source/Tallies.antt =====
-- The coverage report of src/federation/source.rs: what the outcomes add up to.
use mathlib.Core.List.{append-nil}
use idnx.Common.{
  length-append, ℕ, ◌+◌, ◌%◌, ◌^◌, ◌≡◌, refl, ◌∙◌, Text, Bool, false, Option, List, [], ◌∷◌, ◌++◌,
  arith, Bool-cases, inl, inr, length,
}
use idnx.Federation.Identity.{PeerId}
use idnx.Federation.Wire.Convert.{Formats}
use idnx.Federation.Ledger.{Accepted}
use idnx.Federation.Source
use idnx.Federation.Source.{PeerOutcome, Delivery, queued, declined}
use idnx.Federation.Source.Handover
use idnx.Federation.Source.Handover.{calls, call, start}

-- The sum of a count over the outcomes.
abbrev pub sum_of : (PeerOutcome → ℕ) → List PeerOutcome → ℕ
sum_of count [] = 0
sum_of count (o ∷ outcomes) = count o + sum_of count outcomes

sum_of-update_or_push :
    (count : PeerOutcome → ℕ) (p : PeerOutcome → Bool) (change : PeerOutcome → PeerOutcome)
    (fresh : PeerOutcome) (n : ℕ) (outcomes : List PeerOutcome)
    → ((o : PeerOutcome) → count (change o) ≡ count o + n)
    → count fresh ≡ n
    → sum_of count (Source.update_or_push p change fresh outcomes) ≡ sum_of count outcomes + n
unfolding Source.update_or_push
sum_of-update_or_push count p change fresh n [] h k = omega arith
sum_of-update_or_push count p change fresh n (o ∷ outcomes) h k =
    ground (arith, h o, sum_of-update_or_push count p change fresh n outcomes h k)

module _ (f : Formats) where
  -- The outcomes and the counter agree with the evidence that was acknowledged.
  abbrev AreCounted : Handover.Progress f → Type 0
  AreCounted p =
      (sum_of (λ o. o.records) p.source.outcomes ≡ length p.acknowledged)
      × (p.source.accepted_records ≡ length p.acknowledged % 2 ^ 64)

  reject-AreCounted :
      (s : Source.FederationSource f) (peer : Option PeerId) (vantage reason : Text)
      → (sum_of (λ o. o.records) (Source.reject f s peer vantage reason).outcomes
          ≡ sum_of (λ o. o.records) s.outcomes)
        × ((Source.reject f s peer vantage reason).accepted_records ≡ s.accepted_records)
  unfolding Source.reject
  reject-AreCounted s Option.none vantage reason = (refl, refl)
  reject-AreCounted s (Option.some peer) vantage reason = (
    sum_of-update_or_push (λ o. o.records) _ _ _ 0 s.outcomes (λ o. omega arith) refl ∙ omega arith,
    refl,
  )

  tally-AreCounted :
      (s : Source.FederationSource f) (accepted : Accepted f)
      → (sum_of (λ o. o.records) (Source.tally f s accepted).outcomes
          ≡ sum_of (λ o. o.records) s.outcomes + length accepted.evidence)
        × ((Source.tally f s accepted).accepted_records
            ≡ (s.accepted_records + length accepted.evidence) % 2 ^ 64)
  unfolding Source.tally
  tally-AreCounted s accepted = (
    sum_of-update_or_push (λ o. o.records) _ _ _ (length accepted.evidence) s.outcomes (λ o. refl)
        refl,
    refl,
  )

  call-AreCounted :
      (p : Handover.Progress f) (c : Handover.Call f) → AreCounted p → AreCounted (call f p c)
  unfolding call Source.deliver Source.enqueue Source.drain Source.finish
  call-AreCounted p (Handover.deliver accepted) h = elim (Bool-cases p.source.queue.stopped) [
    | inl stopped ↦ rw (stopped, append-nil) h
    | inr running ↦
        let longer = length-append p.acknowledged accepted.evidence in
        let (records, counter) =
          tally-AreCounted
            (record (p.source) {
              queue = record {
                pending = p.source.queue.pending ++ accepted.evidence;
                stopped = false;
              };
            })
            accepted in
        rw running (records ∙ omega (arith, h.0, longer), counter ∙ omega (arith, h.1, longer))
  ]
  call-AreCounted p (Handover.reject peer vantage reason) h =
      let (records, counter) = reject-AreCounted p.source peer vantage reason in
      (records ∙ h.0, counter ∙ h.1)
  call-AreCounted p Handover.drain h = h
  call-AreCounted p Handover.finish h = h

  calls-AreCounted :
      (cs : List (Handover.Call f)) (p : Handover.Progress f)
      → AreCounted p
      → AreCounted (calls f p cs)
  unfolding calls
  calls-AreCounted [] p h = h
  calls-AreCounted (c ∷ cs) p h = calls-AreCounted cs (call f p c) (call-AreCounted p c h)

  -- Whatever is called, the records that the outcomes report are as many as those of the bundles that
  -- were answered as queued, and so is the counter of accepted records, modulo 2 ^ 64.
  pub outcomes_count_acknowledged :
      (cs : List (Handover.Call f))
      → (sum_of (λ o. o.records) (calls f (start f) cs).source.outcomes
          ≡ length (calls f (start f) cs).acknowledged)
        × ((calls f (start f) cs).source.accepted_records
            ≡ length (calls f (start f) cs).acknowledged % 2 ^ 64)
  outcomes_count_acknowledged cs = calls-AreCounted cs (start f) (refl, refl)
