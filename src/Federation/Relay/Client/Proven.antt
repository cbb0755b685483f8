-- ===== src/Federation/Relay/Client/Proven.antt =====
-- Connections of src/federation/relay.rs, request by request.
use idnx.Common.{
  ℕ, ◌≡◌, ◌⊎◌, inl, inr, refl, sym, ap, ◌∙◌, Text, true, false, Option, none, some, List, [], ◌∷◌,
  arith, Option-cases,
}
use idnx.Federation.Identity.{Crypto, PeerId, IdResult, from_hex, decode_hex, verify_signature}
use idnx.Federation.Relay.{RelayQueue}
use idnx.Federation.Relay.Client
use idnx.Federation.Relay.Client.{
  RelayClient, RelayRequest, authenticate, deposit_for, collect_from, challenge_payload, handle,
  prove, if_named, if_signed, if_verified,
}

-- A request, and the clock at it.
pub record Turn : Type 0 where
  pub now : ℕ
  pub later : ℕ
  pub request : RelayRequest

module _ (c : Crypto) (sha256 : List ℕ → List ℕ) where
  -- The client and the queue after requests in a row.
  unfoldable pub handled : RelayClient → RelayQueue → List Turn → RelayClient × RelayQueue
  handled client queue [] = (client, queue)
  handled client queue (t ∷ turns) =
      let (answer, next, rest) = handle c sha256 client queue t.now t.later t.request in
      handled next rest turns

  -- The request names the peer, with a signature of the challenge that checks with the peer's key.
  pub record IsProof (nonce : List ℕ) (p : PeerId) (r : RelayRequest) : Type 0 where
    pub name : Text
    pub text : Text
    pub signature : List ℕ
    pub asked : r ≡ authenticate name text
    pub named : from_hex c name ≡ IdResult.ok p
    pub decoded : decode_hex text ≡ some signature
    pub checked : c.checks p.key (challenge_payload nonce) signature ≡ true

  abbrev pub HasProof : List ℕ → PeerId → List Turn → Type 0
  HasProof nonce p [] = true ≡ false
  HasProof nonce p (t ∷ turns) = IsProof nonce p t.request ⊎ HasProof nonce p turns

  if_verified-proof :
      (client next : RelayClient) (peer p : PeerId) (signature : List ℕ) (r : IdResult (Unit {0}))
      → verify_signature c peer (challenge_payload client.nonce) signature ≡ r
      → if_verified c sha256 client peer r ≡ some next
      → next.identity ≡ some p
      → (next.nonce ≡ client.nonce)
        × (peer ≡ p)
        × (c.checks p.key (challenge_payload client.nonce) signature ≡ true)
  unfolding verify_signature
  if_verified-proof client next peer p signature (IdResult.err e) is h k = absurd (cc)
  if_verified-proof client next peer p signature (IdResult.ok _) is h k =
      let made : record client { identity = some peer } ≡ next = cc in
      let k' : some peer ≡ some p = ap (λ (x : RelayClient). x.identity) made ∙ k in
      let same : peer ≡ p = cc in
      let checks : c.checks peer.key (challenge_payload client.nonce) signature ≡ true =
        ground arith in
      (
        ap (λ (x : RelayClient). x.nonce) (sym made),
        same,
        rw (ap (λ (x : PeerId). x.key) same) at checks,
      )

  -- What a proof adds to a connection.
  abbrev IsProven : RelayClient → RelayClient → RelayRequest → Type 0
  IsProven client next r =
      (next.nonce ≡ client.nonce)
      × ((p : PeerId) → next.identity ≡ some p → IsProof client.nonce p r)

  signed_proof :
      (client next : RelayClient) (name text : Text) (peer : PeerId) (signature : List ℕ)
      → from_hex c name ≡ IdResult.ok peer
      → decode_hex text ≡ some signature
      → if_signed c sha256 client peer (some signature) ≡ some next
      → next.nonce ≡ client.nonce
      → IsProven client next (authenticate name text)
  signed_proof client next name text peer signature hn hd e kept = (
    kept,
    λ p k.
        let (_, same, checks) = if_verified-proof client next peer p signature _ refl e k in
        record {
          name = name;
          text = text;
          signature = signature;
          asked = refl;
          named = hn ∙ ap (λ (x : PeerId). IdResult.ok x) same;
          decoded = hd;
          checked = checks;
        },
  )

  if_verified-nonce :
      (client next : RelayClient) (peer : PeerId) (r : IdResult (Unit {0}))
      → if_verified c sha256 client peer r ≡ some next
      → next.nonce ≡ client.nonce
  if_verified-nonce client next peer (IdResult.err e) h = absurd (cc)
  if_verified-nonce client next peer (IdResult.ok _) h =
      let made : record client { identity = some peer } ≡ next = cc in
      ap (λ (x : RelayClient). x.nonce) (sym made)

  if_signed-IsProven :
      (client next : RelayClient) (name text : Text) (peer : PeerId) (o : Option (List ℕ))
      → from_hex c name ≡ IdResult.ok peer
      → decode_hex text ≡ o
      → if_signed c sha256 client peer o ≡ some next
      → IsProven client next (authenticate name text)
  if_signed-IsProven client next name text peer none hn hd e = absurd (cc)
  if_signed-IsProven client next name text peer (some signature) hn hd e =
      signed_proof client next name text peer signature hn hd e
        (if_verified-nonce client next peer _ e)

  if_named-IsProven :
      (client next : RelayClient) (name text : Text) (r : IdResult PeerId)
      → from_hex c name ≡ r
      → if_named c sha256 client text r ≡ some next
      → IsProven client next (authenticate name text)
  if_named-IsProven client next name text (IdResult.err x) hn e = absurd (cc)
  if_named-IsProven client next name text (IdResult.ok peer) hn e =
      if_signed-IsProven client next name text peer (decode_hex text) hn refl e

  -- After a request the connection is as it was, or the request was a proof that left the queue alone;
  -- and the queue is as it was where the connection has proved nothing.
  abbrev IsStep : RelayClient → RelayQueue → RelayRequest → RelayClient → RelayQueue → Type 0
  IsStep client queue r next rest =
      ((next ≡ client) ⊎ IsProven client next r) × (client.identity ≡ none → rest ≡ queue)

  handle-IsStep :
      (client : RelayClient) (queue : RelayQueue) (now later : ℕ) (r : RelayRequest)
      → IsStep client queue r
          (handle c sha256 client queue now later r).1
          (handle c sha256 client queue now later r).2
  unfolding handle prove
  handle-IsStep client queue now later (deposit_for to envelope) = (inl refl, λ h. rw h refl)
  handle-IsStep client queue now later (collect_from from) = (inl refl, λ h. rw h refl)
  handle-IsStep client queue now later (authenticate name text) =
      elim (Option-cases (if_named c sha256 client text (from_hex c name))) [
        | inl e ↦ rw e (inl refl, λ h. refl)
        | inr (next, e) ↦
            rw e (inr (if_named-IsProven client next name text (from_hex c name) refl e), λ h. refl)
      ]

  identity_proven :
      (turns : List Turn) (client : RelayClient) (queue : RelayQueue) (p : PeerId)
      → (handled client queue turns).0.identity ≡ some p
      → (client.identity ≡ some p) ⊎ HasProof client.nonce p turns
  unfolding handled
  identity_proven [] client queue p h = inl h
  identity_proven (t ∷ turns) client queue p h =
      let next = (handle c sha256 client queue t.now t.later t.request).1 in
      let rest = (handle c sha256 client queue t.now t.later t.request).2 in
      let (step, alone) = handle-IsStep client queue t.now t.later t.request in
      elim step [
        | inl same ↦ elim (identity_proven turns next rest p h) [
          | inl before ↦ inl (ap (λ (x : RelayClient). x.identity) (sym same) ∙ before)
          | inr proof ↦ inr (inr (rw (ap (λ (x : RelayClient). x.nonce) same) at proof))
        ]
        | inr (nonce, proven) ↦ elim (identity_proven turns next rest p h) [
          | inl here ↦ inr (inl (proven p here))
          | inr proof ↦ inr (inr (rw nonce at proof))
        ]
      ]

  queue_alone :
      (turns : List Turn) (client : RelayClient) (queue : RelayQueue)
      → client.identity ≡ none
      → ((handled client queue turns).1 ≡ queue) ⊎ ((p : PeerId) × HasProof client.nonce p turns)
  unfolding handled
  queue_alone [] client queue h = inl refl
  queue_alone (t ∷ turns) client queue h =
      let next = (handle c sha256 client queue t.now t.later t.request).1 in
      let rest = (handle c sha256 client queue t.now t.later t.request).2 in
      let (step, alone) = handle-IsStep client queue t.now t.later t.request in
      let same_queue : rest ≡ queue = alone h in
      elim step [
        | inl same ↦
            elim (queue_alone turns next rest (ap (λ (x : RelayClient). x.identity) same ∙ h)) [
              | inl kept ↦ inl (kept ∙ same_queue)
              | inr (p, proof) ↦ inr (p, inr (rw (ap (λ (x : RelayClient). x.nonce) same) at proof))
            ]
        | inr (nonce, proven) ↦ elim (Option-cases next.identity) [
          | inl unproven ↦ elim (queue_alone turns next rest unproven) [
            | inl kept ↦ inl (kept ∙ same_queue)
            | inr (p, proof) ↦ inr (p, inr (rw nonce at proof))
          ]
          | inr (p, here) ↦ inr (p, inl (proven p here))
        ]
      ]

  -- On a new connection, whatever is asked: an identity is held only after a request that named it with a
  -- signature of the connection's challenge that checks with its key, and the queue is as it was unless
  -- some identity was proved so.
  pub served_only_proven :
      (nonce : List ℕ) (queue : RelayQueue) (turns : List Turn)
      → ((p : PeerId)
          → (handled (Client.new nonce) queue turns).0.identity ≡ some p
          → HasProof nonce p turns)
        × (((handled (Client.new nonce) queue turns).1 ≡ queue)
            ⊎ ((p : PeerId) × HasProof nonce p turns))
  served_only_proven nonce queue turns = (
    λ p h. elim (identity_proven turns (Client.new nonce) queue p h) [
      | inl early ↦ absurd (cc)
      | inr proof ↦ proof
    ],
    queue_alone turns (Client.new nonce) queue refl,
  )
