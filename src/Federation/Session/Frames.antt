-- ===== src/Federation/Session/Frames.antt =====
-- What `seal` and `open` of src/federation/session.rs do with nonces, and with each other.
use idnx.Common.{
  ℕ, ◌+◌, ◌^◌, ◌≤◌, ◌<◌, ◌≡◌, ◌≢◌, refl, sym, ◌∙◌, false, Option, none, some, List, [], ◌∷◌, ◌++◌,
  arith, length, length-append, Bool-cases, inl, inr, ltb, take, drop, take-append, All, All-map,
  Distinct, Distinct-append,
}
use idnx.Common.Bytes.{to_be_bytes, to_be_bytes_inj, from_be_bytes-to_be_bytes, length-to_be_bytes}
use idnx.Federation.Limits.{max_envelope_bytes, check_frame_length}
use idnx.Federation.Session.{
  Suite, Session, Answer, SessionError, nonce, seal, open_frame, framed_as,
}

-- The two ends of one session.
pub record AreMirrored (a b : Session) : Type 0 where
  pub same_key : a.cipher ≡ b.cipher
  pub there : a.send_prefix ≡ b.receive_prefix
  pub back : b.send_prefix ≡ a.receive_prefix
  pub apart : a.send_prefix ≢ b.send_prefix

nonce_inj : (p q i j : ℕ) → i < 2 ^ 64 → j < 2 ^ 64 → nonce p i ≡ nonce q j → (p ≡ q) × (i ≡ j)
unfolding nonce
nonce_inj p q i j hi hj e =
    let counters : to_be_bytes 8 i ≡ to_be_bytes 8 j = cc in
    (cc, to_be_bytes_inj 8 i j (omega arith) (omega arith) counters)

module _ (u : Suite) where
  -- What was encrypted decrypts.
  abbrev pub Decrypts : Type 0
  Decrypts =
      (key n message associated ciphertext : List ℕ)
      → u.encrypt key n message associated ≡ some ciphertext
      → u.decrypt key n ciphertext associated ≡ some message

  framed_as-ok :
      (counter : ℕ) (o : Option (List ℕ)) (framed : List ℕ)
      → framed_as u counter o ≡ Answer.ok framed
      → (ct : List ℕ) × (o ≡ some ct) × (to_be_bytes 8 counter ++ ct ≡ framed)
  framed_as-ok counter none framed e = absurd (cc)
  framed_as-ok counter (some ct) framed e = (ct, refl, cc)

  seal-ok :
      (s : Session) (plaintext associated framed : List ℕ)
      → (seal u s plaintext associated).0 ≡ Answer.ok framed
      → (s.sent + 1 < 2 ^ 64)
        × (framed_as u s.sent (u.encrypt s.cipher (nonce s.send_prefix s.sent) plaintext associated)
            ≡ Answer.ok framed)
  unfolding seal
  seal-ok s plaintext associated framed e = elim (Bool-cases (ltb (s.sent + 1) (2 ^ 64))) [
    | inl room ↦ (ground arith, rw room at e)
    | inr used ↦
        let e' : Answer.err SessionError.counter_exhausted ≡ Answer.ok framed = rw used at e in
        absurd (cc)
  ]

  -- Where what was encrypted decrypts, a message that one end seals is opened by the other, if its
  -- frame is within the limit, whatever was sealed before and in whatever order frames arrive.
  pub open_frame-seal :
      Decrypts
      → (a b : Session) (plaintext associated framed : List ℕ) → AreMirrored a b
      → (seal u a plaintext associated).0 ≡ Answer.ok framed
      → length framed ≤ max_envelope_bytes
      → open_frame u b framed associated ≡ Answer.ok plaintext
  unfolding open_frame check_frame_length
  open_frame-seal decrypts a b plaintext associated framed m e small =
      let (room, e') = seal-ok a plaintext associated framed e in
      let (ct, encrypted, is) =
        framed_as-ok a.sent (u.encrypt a.cipher (nonce a.send_prefix a.sent) plaintext associated)
          framed e' in
      let word = length-to_be_bytes 8 a.sent in
      let (front, rest) = take-append 8 (to_be_bytes 8 a.sent) ct word in
      let counter = from_be_bytes-to_be_bytes 8 a.sent (omega (arith, room)) in
      let decrypted =
        decrypts a.cipher (nonce a.send_prefix a.sent) plaintext associated ct encrypted in
      let front' : take 8 framed ≡ to_be_bytes 8 a.sent = rw is at front in
      let rest' : drop 8 framed ≡ ct = rw is at rest in
      let long = length-append (to_be_bytes 8 a.sent) ct in
      let long' : length (to_be_bytes 8 a.sent) + length ct ≡ length framed = rw is at (sym long) in
      let not_over : ltb max_envelope_bytes (length framed) ≡ false = ground arith in
      let not_short : ltb (length framed) 8 ≡ false = ground arith in
      rw (not_over, not_short, front', rest', counter, sym m.same_key, sym m.there, decrypted) refl

  -- The cipher that answers with the nonce that it was given.
  abbrev pub spy : Suite
  spy = record u { encrypt = λ key n message associated. some n }

  -- What stands behind the counter of a frame.
  abbrev pub behind_counter : Answer (List ℕ) → List (List ℕ)
  behind_counter (Answer.ok framed) = drop 8 framed ∷ []
  behind_counter (Answer.err e) = []

  -- The nonces that the cipher is given for messages in a row, each with its associated data: every call
  -- is made once with the cipher that shows its nonce, and goes on with the session that the call leaves
  -- with the cipher of the suite.
  unfoldable pub nonces_given : Session → List (List ℕ × List ℕ) → List (List ℕ)
  nonces_given s [] = []
  nonces_given s ((plaintext, associated) ∷ messages) =
      behind_counter (seal spy s plaintext associated).0
      ++ nonces_given (seal u s plaintext associated).1 messages

  abbrev IsLater : Session → List ℕ → Type 0
  IsLater s n = (k : ℕ) × (s.sent ≤ k) × (k < 2 ^ 64) × (n ≡ nonce s.send_prefix k)

  shown :
      (s : Session)
      → drop 8 (to_be_bytes 8 s.sent ++ nonce s.send_prefix s.sent) ≡ nonce s.send_prefix s.sent
  shown s =
      (take-append 8 (to_be_bytes 8 s.sent) (nonce s.send_prefix s.sent)
        (length-to_be_bytes 8 s.sent)).1

  nonces_given_lem :
      (messages : List (List ℕ × List ℕ)) (s : Session)
      → All (IsLater s) (nonces_given s messages) × Distinct (nonces_given s messages)
  unfolding nonces_given seal
  nonces_given_lem [] s = (tt, tt)
  nonces_given_lem ((plaintext, associated) ∷ messages) s =
      elim (Bool-cases (ltb (s.sent + 1) (2 ^ 64))) [
        | inr used ↦ rw used (nonces_given_lem messages s)
        | inl room ↦
            let next : Session = record s { sent = s.sent + 1 } in
            let (later, distinct) = nonces_given_lem messages next in
            let room' : s.sent + 1 < 2 ^ 64 = ground arith in
            rw (room, shown s)
              (
                (
                  (s.sent, omega arith, omega arith, refl),
                  All-map (IsLater next) (IsLater s) _
                      (λ n (k, from', below, is). (k, omega arith, below, is)) later,
                ),
                (
                  All-map (IsLater next) _ _
                      (λ n (k, from', below, is) same.
                        let number =
                          (nonce_inj s.send_prefix s.send_prefix s.sent k (omega arith) below
                            (same ∙ is)).1 in
                        absurd (omega arith))
                      later,
                  distinct,
                ),
              )
      ]

  -- Whatever the two ends of a session seal, and whatever the cipher answers, no nonce goes to the cipher
  -- twice, neither by one end nor by both.
  pub nonces_once :
      (a b : Session) (ours theirs : List (List ℕ × List ℕ))
      → AreMirrored a b
      → Distinct (nonces_given a ours ++ nonces_given b theirs)
  nonces_once a b ours theirs m =
      let (later, distinct) = nonces_given_lem ours a in
      let (later', distinct') = nonces_given_lem theirs b in
      Distinct-append (nonces_given a ours) (nonces_given b theirs) distinct distinct' (
        All-map (IsLater a) _ _
          (λ n (k, from', below, is).
            All-map (IsLater b) _ _
              (λ n' (k', from'', below', is') same.
                m.apart
                  (nonce_inj a.send_prefix b.send_prefix k k' below below' (sym is ∙ same ∙ is')).0)
              later')
          later)
