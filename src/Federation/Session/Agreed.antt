-- ===== src/Federation/Session/Agreed.antt =====
-- The handshake of src/federation/session.rs, as both ends complete it.
use idnx.Common.{
  ℕ, ◌≡◌, ◌≢◌, refl, sym, ap, ◌∙◌, true, false, not, Option, none, some, List, [], ◌∷◌, ◌++◌, arith,
  length, Bool-cases, inl, inr, text_eq, text_eq_iff, text_eq_refl, if◌then◌else◌,
}
use idnx.Federation.Identity.{Crypto, PeerId, IdResult, verify_signature, to_hex}
use idnx.Federation.Bundle.{id}
use idnx.Federation.Bundle.Signed.{IsSound}
use idnx.Federation.Session
use idnx.Federation.Session.{
  Suite, Session, Handshake, Answer, SessionOffer, lex_leb, in_order, code_of, accept,
  accept_verified, session_with, derived, signed_ephemeral, verify_handshake, hkdf_info,
}
use idnx.Federation.Session.Frames.{AreMirrored}

lex_total : (a b : List ℕ) → lex_leb a b ≡ false → lex_leb b a ≡ true
unfolding lex_leb
lex_total [] b h = absurd (cc)
lex_total (x ∷ a) [] h = refl
lex_total (x ∷ a) (y ∷ b) h = ground (arith, lex_total a b)

lex_antisym : (a b : List ℕ) → lex_leb a b ≡ true → lex_leb b a ≡ true → a ≡ b
unfolding lex_leb
lex_antisym [] [] h k = refl
lex_antisym [] (y ∷ b) h k = absurd (cc)
lex_antisym (x ∷ a) [] h k = absurd (cc)
lex_antisym (x ∷ a) (y ∷ b) h k = ground (arith, lex_antisym a b)

lex_flip : (a b : List ℕ) → a ≢ b → lex_leb b a ≡ not (lex_leb a b)
lex_flip a b apart = elim (Bool-cases (lex_leb a b)) [
  | inr after ↦ rw after (lex_total a b after)
  | inl before ↦ elim (Bool-cases (lex_leb b a)) [
    | inl both ↦ absurd (apart (lex_antisym a b before both))
    | inr one ↦ rw (before, one) refl
  ]
]

in_order_comm : (a b : List ℕ) → in_order a b ≡ in_order b a
in_order_comm a b = elim (Bool-cases (lex_leb a b)) [
  | inr after ↦ rw (after, lex_total a b after) refl
  | inl before ↦ elim (Bool-cases (lex_leb b a)) [
    | inl both ↦ rw (lex_antisym a b before both) refl
    | inr one ↦ rw (before, one) refl
  ]
]

-- What the key exchange promises: both ends compute the same secret, and 32 bytes can be derived.
pub record IsExchange (u : Suite) : Type 0 where
  pub same_secret :
      (a b : u.StaticSecret)
      → u.diffie_hellman a (u.public_key b) ≡ u.diffie_hellman b (u.public_key a)
  pub expands :
      (salt shared info : List ℕ) → (key : List ℕ) × (u.expand salt shared info ≡ some key)

module _ (u : Suite) (c : Crypto) where
  -- The session that `accept` makes of a derived key.
  abbrev pub session_of : SessionOffer u c → Handshake → List ℕ → Session
  session_of offer theirs key =
      let we_are_first = lex_leb offer.handshake.ephemeral theirs.ephemeral in
      record {
        cipher = key;
        peer = theirs.peer;
        send_prefix = if we_are_first then 0 else 1;
        receive_prefix = if we_are_first then 1 else 0;
        sent = 0;
        authentication_code = code_of u offer.handshake.peer theirs.peer;
      }

  pub accept-honest :
      IsSound c
      → (j k : c.SigningKey) (a b : u.StaticSecret) (key : List ℕ)
      → derived u c (Session.new u c j a) (Session.new u c k b).handshake ≡ some key
      → accept u c (Session.new u c j a) (Session.new u c k b).handshake (id c k)
        ≡ Answer.ok (session_of (Session.new u c j a) (Session.new u c k b).handshake key)
  unfolding accept verify_handshake verify_signature Session.new
  accept-honest sound j k a b key e =
      rw
        (
          sound.signature_size k (signed_ephemeral (u.public_key b)),
          sound.signature_checks k (signed_ephemeral (u.public_key b)),
          text_eq_refl (c.verifying_key k),
          e,
        )
        refl

  abbrev expand_of : List ℕ × List ℕ → List ℕ → Option (List ℕ)
  expand_of (first, second) shared = u.expand (first ++ second) shared hkdf_info

  derived_comm :
      IsExchange u
      → (j k : c.SigningKey) (a b : u.StaticSecret)
      → derived u c (Session.new u c j a) (Session.new u c k b).handshake
        ≡ derived u c (Session.new u c k b) (Session.new u c j a).handshake
  unfolding Session.new
  derived_comm x j k a b =
      ap (λ (d : List ℕ). expand_of (in_order (u.public_key a) (u.public_key b)) d)
        (x.same_secret a b)
      ∙ ap (λ (p : List ℕ × List ℕ). expand_of p (u.diffie_hellman b (u.public_key a)))
          (in_order_comm (u.public_key a) (u.public_key b))

  code_of_comm : (p q : PeerId) → code_of u p q ≡ code_of u q p
  unfolding code_of
  code_of_comm p q = rw (in_order_comm (to_hex p) (to_hex q)) refl

  sessions_mirrored :
      (j k : c.SigningKey) (a b : u.StaticSecret) (key : List ℕ)
      → u.public_key a ≢ u.public_key b
      → AreMirrored
          (session_of (Session.new u c j a) (Session.new u c k b).handshake key)
          (session_of (Session.new u c k b) (Session.new u c j a).handshake key)
  unfolding Session.new
  sessions_mirrored j k a b key apart =
      let flip = lex_flip (u.public_key a) (u.public_key b) apart in
      elim (Bool-cases (lex_leb (u.public_key a) (u.public_key b))) [
        | inl first ↦
            let second : lex_leb (u.public_key b) (u.public_key a) ≡ false = rw first at flip in
            record {
              same_key = refl;
              there = rw (first, second) refl;
              back = rw (first, second) refl;
              apart = rw (first, second) (λ e. absurd (omega arith));
            }
        | inr second ↦
            let first : lex_leb (u.public_key b) (u.public_key a) ≡ true = rw second at flip in
            record {
              same_key = refl;
              there = rw (first, second) refl;
              back = rw (first, second) refl;
              apart = rw (first, second) (λ e. absurd (omega arith));
            }
      ]

  -- Where honest signatures check and the key exchange agrees, two peers with different ephemeral keys
  -- that each expect the other both complete the handshake, with one key, prefixes that differ, and one
  -- code to compare.
  pub ends_agree :
      IsSound c
      → IsExchange u
      → (j k : c.SigningKey) (a b : u.StaticSecret) → u.public_key a ≢ u.public_key b
      → (s t : Session) × (accept u c (Session.new u c j a) (Session.new u c k b).handshake (id c k)
          ≡ Answer.ok s)
        × (accept u c (Session.new u c k b) (Session.new u c j a).handshake (id c j) ≡ Answer.ok t)
        × AreMirrored s t
        × (s.authentication_code ≡ t.authentication_code)
  unfolding Session.new
  ends_agree sound x j k a b apart =
      let (key, e) = x.expands _ (u.diffie_hellman a (u.public_key b)) hkdf_info in
      let ours = e in
      let theirs = sym (derived_comm x j k a b) ∙ e in
      (
        session_of (Session.new u c j a) (Session.new u c k b).handshake key,
        session_of (Session.new u c k b) (Session.new u c j a).handshake key,
        accept-honest sound j k a b key ours,
        accept-honest sound k j b a key theirs,
        sessions_mirrored j k a b key apart,
        code_of_comm (id c j) (id c k),
      )

  session_with-ok :
      (offer : SessionOffer u c) (theirs : Handshake) (o : Option (List ℕ)) (s : Session)
      → session_with u c offer theirs o ≡ Answer.ok s
      → (s.peer ≡ theirs.peer) × (s.sent ≡ 0)
  session_with-ok offer theirs none s e = absurd (cc)
  session_with-ok offer theirs (some key) s e =
      let is : session_of offer theirs key ≡ s = cc in
      (ap (λ (x : Session). x.peer) (sym is), ap (λ (x : Session). x.sent) (sym is))

  accept_verified-ok :
      (offer : SessionOffer u c) (theirs : Handshake) (expected : PeerId) (r : IdResult (Unit {0}))
      (s : Session)
      → accept_verified u c offer theirs expected r ≡ Answer.ok s
      → (r ≡ IdResult.ok tt) × (theirs.peer ≡ expected) × (s.peer ≡ expected) × (s.sent ≡ 0)
  accept_verified-ok offer theirs expected (IdResult.err x) s e = absurd (cc)
  accept_verified-ok offer theirs expected (IdResult.ok _) s e =
      elim (Bool-cases (text_eq theirs.peer.key expected.key)) [
        | inl same ↦
            let named : theirs.peer ≡ expected =
              ap (λ (k : List ℕ). record { key = k })
                ((text_eq_iff theirs.peer.key expected.key).0 same) in
            let (peer, sent) =
              session_with-ok offer theirs (derived u c offer theirs) s (rw same at e) in
            (refl, named, peer ∙ named, sent)
        | inr other ↦
            let e' : Answer.err (Session.wrong_peer (to_hex expected) (to_hex theirs.peer))
                ≡ Answer.ok s =
              rw other at e in
            absurd (cc)
      ]

  signature_ok :
      (h : Handshake)
      → verify_handshake u c h ≡ IdResult.ok tt
      → (length h.signature ≡ 64)
        × (c.checks h.peer.key (signed_ephemeral h.ephemeral) h.signature ≡ true)
  unfolding verify_handshake verify_signature
  signature_ok h verified = ground arith

  -- A handshake that completes carries a 64-byte signature of its ephemeral key that checks with the key
  -- of the peer expected, and its session is with that peer and has sent nothing.
  pub accept_only_expected :
      (offer : SessionOffer u c) (theirs : Handshake) (expected : PeerId) (s : Session)
      → accept u c offer theirs expected ≡ Answer.ok s
      → (c.checks expected.key (signed_ephemeral theirs.ephemeral) theirs.signature ≡ true)
        × (length theirs.signature ≡ 64)
        × (s.peer ≡ expected)
        × (s.sent ≡ 0)
  unfolding accept
  accept_only_expected offer theirs expected s e =
      let (verified, named, peer, sent) = accept_verified-ok offer theirs expected _ s e in
      let key : theirs.peer.key ≡ expected.key = ap (λ (p : PeerId). p.key) named in
      let (size, checks) = signature_ok theirs verified in (rw key at checks, size, peer, sent)
