-- ===== src/Examples/Talking.antt =====
-- Sessions of src/federation/session.rs between two peers, with a toy cipher and key exchange.
use idnx.Common.{
  ℕ, ◌+◌, ◌-◌, ◌≡◌, refl, true, Option, none, some, List, [], ◌∷◌, ◌++◌, bytes, length, arith, ◌==◌,
  ==_iff, if◌then◌else◌, Distinct, sym, ap,
}
use idnx.Common.Bytes.{to_be_bytes}
use idnx.Federation.Bundle.{id}
use idnx.Federation.Session
use idnx.Federation.Session.{
  Suite, Session, Answer, accept, seal, open_frame, nonce, signed_ephemeral,
}
use idnx.Federation.Session.Frames.{
  AreMirrored, Decrypts, open_frame-seal, nonces_given, nonces_once,
}
use idnx.Federation.Session.Agreed.{
  IsExchange, ends_agree, accept-honest, session_of, accept_only_expected,
}
use idnx.Examples.Fixtures.{toy, toy-IsSound, total}

abbrev tag : List ℕ → List ℕ → List ℕ → ℕ
tag key n associated = total key + total n + total associated

abbrev decrypt_tagged : ℕ → List ℕ → Option (List ℕ)
decrypt_tagged expected [] = none
decrypt_tagged expected (t ∷ message) = if t == expected then some message else none

-- A secret is its own public key, a shared secret is their sum, and a message is sealed by a tag.
abbrev toy_suite : Suite
toy_suite = record {
  StaticSecret = ℕ;
  public_key = λ a. a ∷ [];
  diffie_hellman = λ a p. (a + total p) ∷ [];
  expand = λ salt shared info. some (salt ++ shared);
  sha256 = λ message. to_be_bytes 4 (total message);
  encrypt = λ key n message associated. some (tag key n associated ∷ message);
  decrypt = λ key n ciphertext associated. decrypt_tagged (tag key n associated) ciphertext;
}

toy_suite-Decrypts : Decrypts toy_suite
toy_suite-Decrypts key n message associated ciphertext e =
    let is : tag key n associated ∷ message ≡ ciphertext = cc in
    rw (sym is, (==_iff (tag key n associated) (tag key n associated)).1 refl) refl

toy_suite-IsExchange : IsExchange toy_suite
toy_suite-IsExchange = record {
  same_secret = λ a b. ap (λ (n : ℕ). n ∷ []) (omega arith);
  expands = λ salt shared info. (salt ++ shared, refl);
}

abbrev end : ℕ → Session
end prefix = record {
  cipher = bytes "key";
  peer = id toy 7;
  send_prefix = prefix;
  receive_prefix = 1 - prefix;
  sent = 3;
  authentication_code = bytes "000-001";
}

ends-AreMirrored : AreMirrored (end 0) (end 1)
ends-AreMirrored = record {
  same_key = refl;
  there = refl;
  back = refl;
  apart = λ e. absurd (omega arith);
}

abbrev frame : List ℕ
frame = to_be_bytes 8 3 ++ tag (bytes "key") (nonce 0 3) (bytes "bundle") ∷ bytes "hello"

sealed : (seal toy_suite (end 0) (bytes "hello") (bytes "bundle")).0 ≡ Answer.ok frame
unfolding seal
sealed = refl

open_frame-seal_example :
    open_frame toy_suite (end 1) frame (bytes "bundle") ≡ Answer.ok (bytes "hello")
unfolding to_be_bytes
open_frame-seal_example =
    open_frame-seal toy_suite toy_suite-Decrypts (end 0) (end 1) (bytes "hello") (bytes "bundle")
      frame ends-AreMirrored sealed (omega arith)

nonces_once_example : Distinct (
    nonces_given toy_suite (end 0) ((bytes "a", []) ∷ (bytes "b", []) ∷ [])
    ++ nonces_given toy_suite (end 1) ((bytes "c", []) ∷ []))
nonces_once_example =
    nonces_once toy_suite (end 0) (end 1) ((bytes "a", []) ∷ (bytes "b", []) ∷ [])
      ((bytes "c", []) ∷ []) ends-AreMirrored

ends_agree_example :
    (s t : Session) × (accept toy_suite toy
        (Session.new toy_suite toy 7 2)
        (Session.new toy_suite toy 8 3).handshake
        (id toy 8)
      ≡ Answer.ok s)
    × (accept toy_suite toy
          (Session.new toy_suite toy 8 3)
          (Session.new toy_suite toy 7 2).handshake
          (id toy 7)
        ≡ Answer.ok t)
    × AreMirrored s t
    × (s.authentication_code ≡ t.authentication_code)
ends_agree_example =
    ends_agree toy_suite toy toy-IsSound toy_suite-IsExchange 7 8 2 3 (λ e. absurd (cc))

abbrev theirs : Session.Handshake
theirs = (Session.new toy_suite toy 8 3).handshake

-- The public keys 2 and 3 and the sum of the secrets.
agreed_key :
    Session.derived toy_suite toy (Session.new toy_suite toy 7 2) theirs ≡ some (2 ∷ 3 ∷ 5 ∷ [])
unfolding Session.new Session.lex_leb
agreed_key = refl

accept_only_expected_example :
    (toy.checks (id toy 8).key (signed_ephemeral theirs.ephemeral) theirs.signature ≡ true)
    × (length theirs.signature ≡ 64)
    × ((session_of toy_suite toy (Session.new toy_suite toy 7 2) theirs (2 ∷ 3 ∷ 5 ∷ [])).peer
        ≡ id toy 8)
    × ((session_of toy_suite toy (Session.new toy_suite toy 7 2) theirs (2 ∷ 3 ∷ 5 ∷ [])).sent ≡ 0)
accept_only_expected_example =
    accept_only_expected toy_suite toy (Session.new toy_suite toy 7 2) theirs (id toy 8)
      (session_of toy_suite toy (Session.new toy_suite toy 7 2) theirs (2 ∷ 3 ∷ 5 ∷ []))
      (accept-honest toy_suite toy toy-IsSound 7 8 2 3 (2 ∷ 3 ∷ 5 ∷ []) agreed_key)
