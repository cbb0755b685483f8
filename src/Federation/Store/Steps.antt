-- ===== src/Federation/Store/Steps.antt =====
-- One event in the life of the file of src/federation/store.rs.
use idnx.Common.{
  ℕ, ◌+◌, ◌%◌, ◌^◌, ◌≤◌, ◌≡◌, ◌⊎◌, refl, sym, ap, ◌∙◌, Text, false, Option, none, some, List, [],
  ◌∷◌, arith, Bool-cases, Option-cases, inl, inr, leb, text_eq, text_eq_iff,
}
use idnx.Common.Dict
use idnx.Federation.Identity.{Crypto, PeerId, to_hex, decode_hex}
use idnx.Federation.Store
use idnx.Federation.Store.{
  Storage, StoredState, Write, replaced, failed, Change, changed, default, is_seen,
}
use idnx.Federation.Store.Lives
use idnx.Federation.Store.Lives.{Node, Request, Event, happens, lives, answered}

-- No cursor is lower, and the sequence number is as it was or the next.
pub record IsAfter (d e : StoredState) : Type 0 where
  pub sequence :
      (e.outbound_sequence ≡ d.outbound_sequence)
      ⊎ (e.outbound_sequence ≡ (d.outbound_sequence + 1) % 2 ^ 64)
  pub cursors :
      (k : Text) (low : ℕ)
      → Dict.get d.inbound_cursor k ≡ some low
      → (high : ℕ) × (Dict.get e.inbound_cursor k ≡ some high) × (low ≤ high)

unchanged : (d : StoredState) → IsAfter d d
unchanged d = record { sequence = inl refl; cursors = λ k low h. (low, h, omega arith) }

inbound-IsAfter :
    (d : StoredState) (peer : PeerId) (n : ℕ)
    → is_seen (Dict.get d.inbound_cursor (to_hex peer)) n ≡ false
    → IsAfter d (changed (Store.inbound peer n) d)
unfolding changed
inbound-IsAfter d peer n new = record {
  sequence = inl refl;
  cursors = λ k low h. elim (Bool-cases (text_eq (to_hex peer) k)) [
    | inl same ↦
        let h' : Dict.get d.inbound_cursor (to_hex peer) ≡ some low =
          ap (Dict.get d.inbound_cursor) ((text_eq_iff (to_hex peer) k).0 same) ∙ h in
        let above : leb n low ≡ false = rw h' at new in
        (n, rw (Dict.get-insert d.inbound_cursor (to_hex peer) k n, same) refl, ground arith)
    | inr other ↦
        (low, rw (Dict.get-insert d.inbound_cursor (to_hex peer) k n, other) h, omega arith)
  ];
}

module _ (c : Crypto) (g : Storage c) where
  -- A state is read back from the file's contents.
  abbrev pub Reads : Type 0
  Reads = (d : StoredState) → g.from_json (g.to_json d) ≡ some d

  abbrev or_default : Option StoredState → StoredState
  or_default none = default
  or_default (some d) = d

  abbrev of_file : Option g.Json → StoredState
  of_file none = default
  of_file (some text) = or_default (g.from_json text)

  abbrev of_process : Option (Store.FederationStore c g) → Option g.Json → StoredState
  of_process none file = of_file file
  of_process (some store) file = store.state

  -- The state in memory, or else the one that the file is read as.
  abbrev pub state_of : Node c g → StoredState
  state_of n = of_process n.running n.file

  abbrev IsFile : Option g.Json → Type 0
  IsFile file = (file ≡ none) ⊎ ((d : StoredState) × (file ≡ some (g.to_json d)))

  abbrev IsHeld : Option (Store.FederationStore c g) → Option g.Json → Type 0
  IsHeld none file = IsFile file
  IsHeld (some store) file = file ≡ some (g.to_json store.state)

  -- What is in memory is in the file.
  abbrev pub IsMirrored : Node c g → Type 0
  IsMirrored n = IsHeld n.running n.file

  -- A number was claimed only as the next.
  abbrev pub IsClaim : Node c g → Node c g → Type 0
  IsClaim n m =
      (m.claimed ≡ n.claimed)
      ⊎ ((m.claimed ≡ (state_of m).outbound_sequence ∷ n.claimed)
          × ((state_of m).outbound_sequence ≡ ((state_of n).outbound_sequence + 1) % 2 ^ 64))

  abbrev pub Follows : Node c g → Node c g → Type 0
  Follows n m = IsMirrored m × IsAfter (state_of n) (state_of m) × IsClaim n m

  -- With a running process.
  abbrev with : Option g.Json → Store.FederationStore c g → List ℕ → Node c g
  with file store claimed = record { file = file; running = some store; claimed = claimed }

  commit-Follows :
      (file : Option g.Json) (store : Store.FederationStore c g) (claimed : List ℕ)
      (change : Change) (write : Write)
      → IsMirrored (with file store claimed)
      → IsAfter store.state (changed change store.state)
      → Follows
          (with file store claimed)
          (Lives.committed c g (with file store claimed) (Store.commit c g store change write file))
  unfolding Store.commit Store.persist
  commit-Follows file store claimed change replaced m after = (refl, after, inl refl)
  commit-Follows file store claimed change failed m after = (m, unchanged store.state, inl refl)

  answered-Follows :
      (file : Option g.Json) (store : Store.FederationStore c g) (claimed : List ℕ)
      (r : Request c g)
      → IsMirrored (with file store claimed)
      → Follows (with file store claimed) (answered c g (with file store claimed) store r)
  unfolding answered Store.next_sequence Store.record_inbound Store.commit Store.persist changed
  answered-Follows file store claimed (Lives.pair peer note write) m =
      commit-Follows file store claimed (Store.pair_with peer note) write m
        (record { sequence = inl refl; cursors = λ k low h. (low, h, omega arith) })
  answered-Follows file store claimed (Lives.unpair peer write) m =
      commit-Follows file store claimed (Store.unpair_from peer) write m
        (record { sequence = inl refl; cursors = λ k low h. (low, h, omega arith) })
  answered-Follows file store claimed (Lives.next_sequence replaced) m = (
    refl,
    record { sequence = inr refl; cursors = λ k low h. (low, h, omega arith) },
    inr (refl, refl),
  )
  answered-Follows file store claimed (Lives.next_sequence failed) m =
      (m, unchanged store.state, inl refl)
  answered-Follows file store claimed (Lives.record_inbound peer n write) m =
      elim (Bool-cases (is_seen (Dict.get store.state.inbound_cursor (to_hex peer)) n)) [
        | inl seen ↦ rw seen (m, unchanged store.state, inl refl)
        | inr new ↦ rw new (
            commit-Follows file store claimed (Store.inbound peer n) write m
              (inbound-IsAfter store.state peer n new))
      ]

  -- A crash loses the process and not what it wrote.
  stopped :
      (reads : Reads) (running : Option (Store.FederationStore c g)) (file : Option g.Json)
      → IsHeld running file
      → IsFile file × (of_file file ≡ of_process running file)
  stopped reads none file m = (m, refl)
  stopped reads (some store) file m = (inr (store.state, m), rw (m, reads store.state) refl)

  stopped-Follows :
      Reads
      → (file : Option g.Json) (store : Store.FederationStore c g) (claimed : List ℕ) (m : Node c g)
      → Follows (with file store claimed) m
      → Follows
          (with file store claimed)
          (record { file = m.file; running = none; claimed = claimed })
  stopped-Follows reads file store claimed m (mirrored, after, claim) =
      let (kept, same) = stopped reads m.running m.file mirrored in
      (kept, rw (sym same) at after, inl refl)

  text_cases : (t : Text) → (t ≡ []) ⊎ ((b : ℕ) × (rest : Text) × (t ≡ b ∷ rest))
  text_cases [] = inl refl
  text_cases (b ∷ rest) = inr (b, rest, refl)

  -- What a start makes of a state: nothing, or a state with the same numbers.
  abbrev IsLoaded : StoredState → Store.Loaded c g → Type 0
  IsLoaded d Store.unusable = Unit
  IsLoaded d (Store.loaded key e) = IsAfter d e

  with_key-IsLoaded :
      (generated : c.SigningKey) (d : StoredState) → IsLoaded d (Store.with_key c g generated d)
  with_key-IsLoaded generated d = elim (text_cases d.identity_seed) [
    | inl e ↦ rw e (record { sequence = inl refl; cursors = λ k low h. (low, h, omega arith) })
    | inr (b, rest, e) ↦ elim (Option-cases (decode_hex (b ∷ rest))) [
      | inl odd ↦ rw (e, odd) tt
      | inr (bs, hex) ↦ elim (Option-cases (Store.from_seed c g bs)) [
        | inl no_key ↦ rw (e, hex, no_key) tt
        | inr (key, is) ↦ rw (e, hex, is) (unchanged _)
      ]
    ]
  ]

  loaded_from-IsLoaded :
      Reads
      → (generated : c.SigningKey) (file : Option g.Json) → IsFile file
      → IsLoaded (of_file file) (Store.loaded_from c g generated file)
  loaded_from-IsLoaded reads generated file (inl e) = rw e (with_key-IsLoaded generated default)
  loaded_from-IsLoaded reads generated file (inr (d, e)) =
      rw (e, reads d) (with_key-IsLoaded generated d)

  -- At rest.
  abbrev rest : Option g.Json → List ℕ → Node c g
  rest file claimed = record { file = file; running = none; claimed = claimed }

  persisted-Follows :
      (file : Option g.Json) (claimed : List ℕ) (l : Store.Loaded c g) (write : Write)
      → IsFile file
      → IsLoaded (of_file file) l
      → Follows
          (rest file claimed)
          (Lives.booted c g (rest file claimed) (Store.persisted c g l write file))
  unfolding Store.persist
  persisted-Follows file claimed Store.unusable write m after =
      (m, unchanged (of_file file), inl refl)
  persisted-Follows file claimed (Store.loaded key d) replaced m after = (refl, after, inl refl)
  persisted-Follows file claimed (Store.loaded key d) failed m after =
      (m, unchanged (of_file file), inl refl)

  pub happens-Follows :
      Reads
      → (file : Option g.Json) (running : Option (Store.FederationStore c g)) (claimed : List ℕ)
        (e : Event c g)
      → IsHeld running file
      → Follows
          (record { file = file; running = running; claimed = claimed })
          (happens c g (record { file = file; running = running; claimed = claimed }) e)
  unfolding happens Store.open_store
  happens-Follows reads file (some store) claimed (Lives.call r) m =
      answered-Follows file store claimed r m
  happens-Follows reads file (some store) claimed Lives.crash m =
      stopped-Follows reads file store claimed (with file store claimed)
        (m, unchanged store.state, inl refl)
  happens-Follows reads file (some store) claimed (Lives.crash_in r) m =
      stopped-Follows reads file store claimed (answered c g (with file store claimed) store r)
        (answered-Follows file store claimed r m)
  happens-Follows reads file (some store) claimed (Lives.boot key write) m =
      (m, unchanged store.state, inl refl)
  happens-Follows reads file none claimed (Lives.call r) m = (m, unchanged (of_file file), inl refl)
  happens-Follows reads file none claimed Lives.crash m = (m, unchanged (of_file file), inl refl)
  happens-Follows reads file none claimed (Lives.crash_in r) m =
      (m, unchanged (of_file file), inl refl)
  happens-Follows reads file none claimed (Lives.boot key write) m =
      persisted-Follows file claimed (Store.loaded_from c g key file) write m
        (loaded_from-IsLoaded reads key file m)
