-- ===== src/Federation/Store/Kept.antt =====
-- What the file of src/federation/store.rs keeps, whatever fails or crashes.
use idnx.Common.{
  ℕ, suc, ◌+◌, ◌%◌, ◌^◌, ◌≤◌, ◌<◌, ◌≡◌, ◌⊎◌, refl, Text, some, List, [], ◌∷◌, arith, length, inl,
  inr, All, All-map, Distinct,
}
use idnx.Common.Dict
use idnx.Federation.Identity.{Crypto}
use idnx.Federation.Store.{Storage}
use idnx.Federation.Store.Lives
use idnx.Federation.Store.Lives.{Node, Request, Event, happens, lives, answered}
use idnx.Federation.Store.Steps.{Reads, state_of, IsMirrored, happens-Follows}

claimed_next :
    (a b bound : ℕ) (xs ys : List ℕ)
    → bound + 1 < 2 ^ 64
    → a ≤ bound
    → (b ≡ a) ⊎ (b ≡ (a + 1) % 2 ^ 64)
    → (ys ≡ xs) ⊎ ((ys ≡ b ∷ xs) × (b ≡ (a + 1) % 2 ^ 64))
    → All (λ x. x ≤ a) xs
    → Distinct xs
    → (b ≤ bound + 1) × All (λ x. x ≤ b) ys × Distinct ys
claimed_next a b bound xs ys small low moved (inr (is, next)) below distinct = rw is (
  omega arith,
  (omega arith, All-map _ _ xs (λ x h. omega arith) below),
  (All-map _ _ xs (λ x h e. absurd (omega arith)) below, distinct),
)
claimed_next a b bound xs ys small low (inl e) (inl is) below distinct =
    rw is (omega arith, All-map _ _ xs (λ x h. omega arith) below, distinct)
claimed_next a b bound xs ys small low (inr e) (inl is) below distinct =
    rw is (omega arith, All-map _ _ xs (λ x h. omega arith) below, distinct)

plus_none : (n : ℕ) → n + 0 ≡ n
plus_none n = omega arith

plus_one : (n m : ℕ) → n + suc m ≡ n + 1 + m
plus_one n m = omega arith

module _ (c : Crypto) (g : Storage c) where
  -- Where a state is read back from the file's contents: whatever is called, fails, crashes or starts, the state of a
  -- running process is the file's, and over any events the cursor of a peer is never lost nor lowered.
  lives_keep :
      Reads c g
      → (es : List (Event c g)) (n : Node c g) → IsMirrored c g n
      → IsMirrored c g (lives c g n es)
        × ((k : Text) (low : ℕ)
            → Dict.get (state_of c g n).inbound_cursor k ≡ some low
            → (high : ℕ) × (Dict.get (state_of c g (lives c g n es)).inbound_cursor k ≡ some high)
              × (low ≤ high))
  unfolding lives
  lives_keep reads [] n m = (m, λ k low h. (low, h, omega arith))
  lives_keep reads (e ∷ es) n m =
      let (m', after, claim) = happens-Follows c g reads n.file n.running n.claimed e m in
      let (held, later) = lives_keep reads es (happens c g n e) m' in
      (
        held,
        λ k low h.
            let (middle, h', up) = after.cursors k low h in
            let (high, h'', up') = later k middle h' in (high, h'', omega arith),
      )

  -- The numbers claimed are below the bound and distinct, and the next is above them.
  abbrev AreClaimed : Node c g → ℕ → Type 0
  AreClaimed n bound =
      IsMirrored c g n
      × ((state_of c g n).outbound_sequence ≤ bound)
      × All (λ x. x ≤ (state_of c g n).outbound_sequence) n.claimed
      × Distinct n.claimed

  happens-AreClaimed :
      Reads c g
      → (n : Node c g) (e : Event c g) (bound : ℕ) → bound + 1 < 2 ^ 64
      → AreClaimed n bound
      → AreClaimed (happens c g n e) (bound + 1)
  happens-AreClaimed reads n e bound small (m, low, below, distinct) =
      let (m', after, claim) = happens-Follows c g reads n.file n.running n.claimed e m in
      let (up, all, apart) =
        claimed_next (state_of c g n).outbound_sequence
          (state_of c g (happens c g n e)).outbound_sequence bound n.claimed
          (happens c g n e).claimed small low after.sequence claim below distinct in
      (m', up, all, apart)

  lives-AreClaimed :
      Reads c g
      → (es : List (Event c g)) (n : Node c g) (bound : ℕ) → bound + length es < 2 ^ 64
      → AreClaimed n bound
      → AreClaimed (lives c g n es) (bound + length es)
  unfolding lives
  lives-AreClaimed reads [] n bound small h = rw (plus_none bound) h
  lives-AreClaimed reads (e ∷ es) n bound small h =
      let more =
        lives-AreClaimed reads es (happens c g n e) (bound + 1) (omega arith)
          (happens-AreClaimed reads n e bound (omega arith) h) in
      rw (plus_one bound (length es)) more

  -- Where a state is read back from the file's contents: from no file on, over fewer than 2 ^ 64 events, whatever is
  -- called, fails, crashes or starts, a running process holds the state that is in the file, and
  -- `next_sequence` never returns one number twice.
  pub numbers_once :
      Reads c g
      → (es : List (Event c g)) → length es < 2 ^ 64
      → IsMirrored c g (lives c g (Lives.start c g) es)
        × Distinct (lives c g (Lives.start c g) es).claimed
  numbers_once reads es few =
      let h =
        lives-AreClaimed reads es (Lives.start c g) 0 (omega arith)
          (inl refl, omega arith, tt, tt) in
      (h.0, h.3)

  -- Where a state is read back from the file's contents: the cursor of a peer, once recorded, is never lost nor
  -- lowered by later events, whatever is called, fails, crashes or starts.
  pub cursors_kept :
      Reads c g
      → (before after : List (Event c g)) (k : Text) (low : ℕ)
      → Dict.get (state_of c g (lives c g (Lives.start c g) before)).inbound_cursor k ≡ some low
      → (high : ℕ) × (Dict.get
            (state_of c g (lives c g (lives c g (Lives.start c g) before) after)).inbound_cursor
            k
          ≡ some high)
        × (low ≤ high)
  cursors_kept reads before after k low h =
      let m = (lives_keep reads before (Lives.start c g) (inl refl)).0 in
      (lives_keep reads after (lives c g (Lives.start c g) before) m).1 k low h
