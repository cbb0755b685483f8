-- ===== src/Federation/Relay/Client.antt =====
-- One client connection of src/federation/relay.rs. A refusal carries the error, whose text the code
-- sends.
pub mod Proven
use idnx.Common.{ℕ, Text, bytes, Option, none, some, List, [], ◌∷◌, ◌++◌, map, take}
use idnx.Federation.Identity.{
  Crypto, PeerId, IdResult, from_hex, to_hex, encode_hex, decode_hex, verify_signature,
}
use idnx.Federation.Relay
use idnx.Federation.Relay.{RelayQueue, RelayError, unauthenticated, Deposit, accepted, failed}

pub data RelayRequest : Type 0 where
  authenticate : Text → Text → RelayRequest
  deposit_for : Text → Text → RelayRequest
  collect_from : Text → RelayRequest

pub data RelayResponse : Type 0 where
  challenge : Text → RelayResponse
  authenticated stored : RelayResponse
  envelopes : List Text → RelayResponse
  refused : RelayError → RelayResponse

abbrev pub challenge_payload : List ℕ → List ℕ
challenge_payload nonce = (bytes "idnx-relay-challenge-v1" ++ 10 ∷ []) ++ nonce

pub record RelayClient : Type 0 where
  pub nonce : List ℕ
  pub identity : Option PeerId

-- `RelayClient::new`, by the nonce that the system's generator gives.
abbrev pub new : List ℕ → RelayClient
new nonce = record { nonce = nonce; identity = none }

-- `RelayClient::challenge`
abbrev pub challenge_of : RelayClient → RelayResponse
challenge_of client = challenge (encode_hex client.nonce)

abbrev pub answer_of : Deposit → RelayResponse
answer_of accepted = stored
answer_of (failed e) = refused e

-- `sha256` is the digest of the updates in a row.
module _ (c : Crypto) (sha256 : List ℕ → List ℕ) where
  unfoldable pub mailbox : PeerId → PeerId → Text
  mailbox from to =
      encode_hex
        (take 16 (sha256 (bytes "idnx-relay-mailbox-v1" ++ to_hex from ++ bytes "->" ++ to_hex to)))

  abbrev pub if_verified : RelayClient → PeerId → IdResult (Unit {0}) → Option RelayClient
  if_verified client peer (IdResult.err e) = none
  if_verified client peer (IdResult.ok _) = some (record client { identity = some peer })

  abbrev pub if_signed : RelayClient → PeerId → Option (List ℕ) → Option RelayClient
  if_signed client peer none = none
  if_signed client peer (some signature) =
      if_verified client peer (verify_signature c peer (challenge_payload client.nonce) signature)

  abbrev pub if_named : RelayClient → Text → IdResult PeerId → Option RelayClient
  if_named client signature (IdResult.err e) = none
  if_named client signature (IdResult.ok peer) = if_signed client peer (decode_hex signature)

  -- `authenticate`, with `none` for its error.
  unfoldable pub prove : RelayClient → Text → Text → Option RelayClient
  prove client peer signature = if_named client signature (from_hex c peer)

  abbrev pub if_proven :
      RelayClient → RelayQueue → Option RelayClient → RelayResponse × RelayClient × RelayQueue
  if_proven client queue none = (refused unauthenticated, client, queue)
  if_proven client queue (some next) = (authenticated, next, queue)

  abbrev pub deposit_as :
      RelayQueue → ℕ → ℕ → PeerId → IdResult PeerId → Option (List ℕ) → RelayResponse × RelayQueue
  deposit_as queue now later identity (IdResult.err e) envelope = (refused unauthenticated, queue)
  deposit_as queue now later identity (IdResult.ok to) none = (refused unauthenticated, queue)
  deposit_as queue now later identity (IdResult.ok to) (some envelope) =
      let (answer, next) = Relay.deposit queue now later (mailbox identity to) envelope in
      (answer_of answer, next)

  abbrev pub collect_as : RelayQueue → ℕ → PeerId → IdResult PeerId → RelayResponse × RelayQueue
  collect_as queue now identity (IdResult.err e) = (refused unauthenticated, queue)
  collect_as queue now identity (IdResult.ok from) =
      let (held, next) = Relay.collect queue now (mailbox from identity) in
      (envelopes (map encode_hex held), next)

  -- A request of a connection that has proved who it is, or the refusal.
  abbrev pub as_proven :
      RelayQueue
      → Option PeerId
      → (PeerId → RelayResponse × RelayQueue)
      → RelayResponse × RelayQueue
  as_proven queue none act = (refused unauthenticated, queue)
  as_proven queue (some identity) act = act identity

  -- `handle`, with the clock at `now` and `later`.
  unfoldable pub handle :
      RelayClient → RelayQueue → ℕ → ℕ → RelayRequest → RelayResponse × RelayClient × RelayQueue
  handle client queue now later (authenticate peer signature) =
      if_proven client queue (prove client peer signature)
  handle client queue now later (deposit_for to envelope) =
      let (answer, next) =
        as_proven queue client.identity
          (λ p. deposit_as queue now later p (from_hex c to) (decode_hex envelope)) in
      (answer, client, next)
  handle client queue now later (collect_from from) =
      let (answer, next) =
        as_proven queue client.identity (λ p. collect_as queue now p (from_hex c from)) in
      (answer, client, next)
