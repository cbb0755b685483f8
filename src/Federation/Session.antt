-- ===== src/Federation/Session.antt =====
-- src/federation/session.rs: the handshake, and messages that are sealed and opened.
pub mod Frames
pub mod Agreed
use idnx.Common.{
  ℕ, ◌+◌, ◌/◌, ◌%◌, ◌^◌, Text, bytes, Bool, true, false, Option, none, some, List, [], ◌∷◌, ◌++◌,
  length, ltb, text_eq, take, drop, if◌then◌else◌,
}
use idnx.Common.Bytes.{to_be_bytes, from_be_bytes}
use idnx.Federation.Identity.{Crypto, PeerId, IdentityError, IdResult, verify_signature, to_hex}
use idnx.Federation.Bundle
use idnx.Federation.Limits.{
  LimitError, Checked, passed, refused, check_frame_length, max_envelope_bytes,
}

-- What the crates x25519-dalek, hkdf with sha2, and chacha20poly1305 do: the public key of a secret,
-- `diffie_hellman`, 32 bytes of `Hkdf::<Sha256>` from a salt, a shared secret and a context,
-- `Sha256` of the updates in a row, and encryption and decryption by key, nonce, message and
-- associated data.
pub record Suite : Type 1 where
  pub StaticSecret : Type 0
  pub public_key : StaticSecret → List ℕ
  pub diffie_hellman : StaticSecret → List ℕ → List ℕ
  pub expand : List ℕ → List ℕ → List ℕ → Option (List ℕ)
  pub sha256 : List ℕ → List ℕ
  pub encrypt : List ℕ → List ℕ → List ℕ → List ℕ → Option (List ℕ)
  pub decrypt : List ℕ → List ℕ → List ℕ → List ℕ → Option (List ℕ)

abbrev pub hkdf_info : List ℕ
hkdf_info = bytes "idnx-federation-session-v1"

pub record Handshake : Type 0 where
  pub peer : PeerId
  pub ephemeral : List ℕ
  pub signature : List ℕ

pub data SessionError : Type 0 where
  identity : IdentityError → SessionError
  wrong_peer : Text → Text → SessionError
  key_derivation cipher_failed counter_exhausted : SessionError
  limit : LimitError → SessionError

pub data Answer {ℓ} (A : Type ℓ) : Type ℓ where
  ok : A → Answer A
  err : SessionError → Answer A

abbrev pub signed_ephemeral : List ℕ → List ℕ
signed_ephemeral ephemeral = (bytes "idnx-ephemeral-v1" ++ 10 ∷ []) ++ ephemeral

-- `<=` on arrays of bytes and on texts.
unfoldable pub lex_leb : List ℕ → List ℕ → Bool
lex_leb [] ys = true
lex_leb (x ∷ xs) [] = false
lex_leb (x ∷ xs) (y ∷ ys) =
    let rest = lex_leb xs ys in if ltb x y then true else if ltb y x then false else rest

abbrev pub in_order : List ℕ → List ℕ → List ℕ × List ℕ
in_order a b = if lex_leb a b then (a, b) else (b, a)

-- `{:03}` of a number below 1000.
abbrev pub three_digits : ℕ → Text
three_digits n = (b'0' + n / 100) ∷ (b'0' + n / 10 % 10) ∷ (b'0' + n % 10) ∷ []

-- Builds a nonce of 12 bytes.
unfoldable pub nonce : ℕ → ℕ → List ℕ
nonce prefix counter = prefix ∷ 0 ∷ 0 ∷ 0 ∷ to_be_bytes 8 counter

-- The cipher of a session is its key.
pub record Session : Type 0 where
  pub cipher : List ℕ
  pub peer : PeerId
  pub send_prefix : ℕ
  pub receive_prefix : ℕ
  pub sent : ℕ
  pub authentication_code : Text

module _ (u : Suite) where
  -- `authentication_code`
  unfoldable pub code_of : PeerId → PeerId → Text
  code_of a b =
      let (first, second) = in_order (to_hex a) (to_hex b) in
      let digest = u.sha256 (bytes "idnx-pairing-code-v1" ++ first ++ second) in
      let value = from_be_bytes (take 4 digest) % 1_000_000 in
      three_digits (value / 1000) ++ b'-' ∷ three_digits (value % 1000)

  abbrev pub framed_as : ℕ → Option (List ℕ) → Answer (List ℕ)
  framed_as counter none = err cipher_failed
  framed_as counter (some ciphertext) = ok (to_be_bytes 8 counter ++ ciphertext)

  -- `Session::seal`; the counter has 64 bits.
  unfoldable pub seal : Session → List ℕ → List ℕ → Answer (List ℕ) × Session
  seal s plaintext associated =
      if ltb (s.sent + 1) (2 ^ 64)
      then (
        framed_as s.sent (u.encrypt s.cipher (nonce s.send_prefix s.sent) plaintext associated),
        record s { sent = s.sent + 1 },
      )
      else (err counter_exhausted, s)

  abbrev pub or_failed : Option (List ℕ) → Answer (List ℕ)
  or_failed none = err cipher_failed
  or_failed (some plaintext) = ok plaintext

  abbrev pub open_measured : Session → List ℕ → List ℕ → Checked → Answer (List ℕ)
  open_measured s framed associated (refused e) = err (limit e)
  open_measured s framed associated passed =
      if ltb (length framed) 8
      then err cipher_failed
      else or_failed (
          u.decrypt s.cipher (nonce s.receive_prefix (from_be_bytes (take 8 framed)))
            (drop 8 framed) associated)

  -- `Session::open`
  unfoldable pub open_frame : Session → List ℕ → List ℕ → Answer (List ℕ)
  open_frame s framed associated =
      open_measured s framed associated (check_frame_length (length framed) max_envelope_bytes)

  module _ (c : Crypto) where
    -- `Handshake::verify`
    unfoldable pub verify_handshake : Handshake → IdResult (Unit {0})
    verify_handshake h = verify_signature c h.peer (signed_ephemeral h.ephemeral) h.signature

    pub record SessionOffer : Type 0 where
      pub secret : u.StaticSecret
      pub handshake : Handshake

    -- `SessionOffer::new`, by the secret that the system's generator gives.
    unfoldable pub new : c.SigningKey → u.StaticSecret → SessionOffer
    new key secret =
        let ephemeral = u.public_key secret in
        record {
          secret = secret;
          handshake = record {
            peer = Bundle.id c key;
            ephemeral = ephemeral;
            signature = c.sign key (signed_ephemeral ephemeral);
          };
        }

    abbrev pub session_with : SessionOffer → Handshake → Option (List ℕ) → Answer Session
    session_with offer theirs none = err key_derivation
    session_with offer theirs (some key) =
        let we_are_first = lex_leb offer.handshake.ephemeral theirs.ephemeral in
        ok (record {
          cipher = key;
          peer = theirs.peer;
          send_prefix = if we_are_first then 0 else 1;
          receive_prefix = if we_are_first then 1 else 0;
          sent = 0;
          authentication_code = code_of offer.handshake.peer theirs.peer;
        })

    abbrev pub derived : SessionOffer → Handshake → Option (List ℕ)
    derived offer theirs =
        let shared = u.diffie_hellman offer.secret theirs.ephemeral in
        let (first, second) = in_order offer.handshake.ephemeral theirs.ephemeral in
        u.expand (first ++ second) shared hkdf_info

    abbrev pub accept_verified :
        SessionOffer → Handshake → PeerId → IdResult (Unit {0}) → Answer Session
    accept_verified offer theirs expected (IdResult.err e) = err (identity e)
    accept_verified offer theirs expected (IdResult.ok _) =
        if text_eq theirs.peer.key expected.key
        then session_with offer theirs (derived offer theirs)
        else err (wrong_peer (to_hex expected) (to_hex theirs.peer))

    -- `SessionOffer::accept`
    unfoldable pub accept : SessionOffer → Handshake → PeerId → Answer Session
    accept offer theirs expected = accept_verified offer theirs expected (verify_handshake theirs)
