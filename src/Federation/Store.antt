-- ===== src/Federation/Store.antt =====
-- src/federation/store.rs: federation state in memory and in its file. The file is its contents, or
-- none where there is no file.
pub mod Lives
pub mod Steps
pub mod Kept
use idnx.Common.{
  ℕ, ◌+◌, ◌%◌, ◌^◌, Text, Bool, true, false, Option, none, some, List, [], ◌∷◌, leb, length, ◌==◌,
  if◌then◌else◌,
}
use idnx.Common.Dict
use idnx.Common.Dict.{Dict}
use idnx.Federation.Identity.{Crypto, PeerId, to_hex, encode_hex, decode_hex}

pub record StoredState : Type 0 where
  pub identity_seed : Text
  pub paired : Dict Text
  pub outbound_sequence : ℕ
  pub inbound_cursor : Dict ℕ

-- `StoredState::default`
abbrev pub default : StoredState
default = record { identity_seed = []; paired = []; outbound_sequence = 0; inbound_cursor = [] }

-- What serde_json and ed25519-dalek do: the file's contents for a state, a state from contents, and a
-- key from 32 bytes and back.
pub record Storage (c : Crypto) : Type 1 where
  pub Json : Type 0
  pub to_json : StoredState → Json
  pub from_json : Json → Option StoredState
  pub from_bytes : List ℕ → c.SigningKey
  pub to_bytes : c.SigningKey → List ℕ

-- Whether the temporary file is written and renamed over the file, or an error comes first.
pub data Write : Type 0 where
  replaced failed : Write

pub data StoreError : Type 0 where
  invalid_data write_error : StoreError

-- `get` and the test of `record_inbound`.
abbrev pub is_seen : Option ℕ → ℕ → Bool
is_seen none sequence = false
is_seen (some seen) sequence = leb sequence seen

-- The changes that are committed: `pair`, `unpair`, `next_sequence` and `record_inbound`.
pub data Change : Type 0 where
  pair_with : PeerId → Text → Change
  unpair_from : PeerId → Change
  next_number : Change
  inbound : PeerId → ℕ → Change

unfoldable pub changed : Change → StoredState → StoredState
changed (pair_with peer note) state = record state {
  paired = Dict.insert state.paired (to_hex peer) note;
}
changed (unpair_from peer) state = record state { paired = Dict.remove state.paired (to_hex peer) }
changed next_number state = record state {
  outbound_sequence = (state.outbound_sequence + 1) % 2 ^ 64;
}
changed (inbound peer sequence) state = record state {
  inbound_cursor = Dict.insert state.inbound_cursor (to_hex peer) sequence;
}

module _ (c : Crypto) (g : Storage c) where
  pub record FederationStore : Type 0 where
    pub key : c.SigningKey
    pub state : StoredState

  -- `persist`: whether it succeeds, and the file after it.
  unfoldable pub persist : StoredState → Write → Option g.Json → Bool × Option g.Json
  persist state replaced file = (true, some (g.to_json state))
  persist state failed file = (false, file)

  abbrev pub rolled_back :
      FederationStore → StoredState → Bool × Option g.Json → Bool × FederationStore × Option g.Json
  rolled_back store state (true, file) = (true, record store { state = state }, file)
  rolled_back store state (false, file) = (false, store, file)

  -- `commit`
  unfoldable pub commit :
      FederationStore → Change → Write → Option g.Json → Bool × FederationStore × Option g.Json
  commit store change write file =
      let state = changed change store.state in rolled_back store state (persist state write file)

  -- `record_inbound`
  unfoldable pub record_inbound :
      FederationStore → PeerId → ℕ → Write → Option g.Json → Bool × FederationStore × Option g.Json
  record_inbound store peer sequence write file =
      if is_seen (Dict.get store.state.inbound_cursor (to_hex peer)) sequence
      then (true, store, file)
      else commit store (inbound peer sequence) write file

  abbrev pub number_if_committed :
      Bool × FederationStore × Option g.Json → Option ℕ × FederationStore × Option g.Json
  number_if_committed (true, store, file) = (some store.state.outbound_sequence, store, file)
  number_if_committed (false, store, file) = (none, store, file)

  -- `next_sequence`
  unfoldable pub next_sequence :
      FederationStore → Write → Option g.Json → Option ℕ × FederationStore × Option g.Json
  next_sequence store write file = number_if_committed (commit store next_number write file)

  pub data Loaded : Type 0 where
    loaded : c.SigningKey → StoredState → Loaded
    unusable : Loaded

  -- `PeerKey::from_seed`, with `none` for its error.
  unfoldable pub from_seed : List ℕ → Option c.SigningKey
  from_seed bs = if length bs == 32 then some (g.from_bytes bs) else none

  abbrev pub with_parsed_key : StoredState → Option c.SigningKey → Loaded
  with_parsed_key state none = unusable
  with_parsed_key state (some key) = loaded key state

  abbrev pub from_hex_seed : StoredState → Option (List ℕ) → Loaded
  from_hex_seed state none = unusable
  from_hex_seed state (some bs) = with_parsed_key state (from_seed bs)

  -- The key: `generated` where there is no seed.
  abbrev pub with_key : c.SigningKey → StoredState → Loaded
  with_key generated state = elim state.identity_seed [
    | [] ↦ loaded generated (record state { identity_seed = encode_hex (g.to_bytes generated) })
    | _ ∷ _ ↦ from_hex_seed state (decode_hex state.identity_seed)
  ]

  abbrev pub parsed : c.SigningKey → Option StoredState → Loaded
  parsed generated none = unusable
  parsed generated (some state) = with_key generated state

  abbrev pub loaded_from : c.SigningKey → Option g.Json → Loaded
  loaded_from generated none = with_key generated default
  loaded_from generated (some text) = parsed generated (g.from_json text)

  pub data Opened : Type 0 where
    opened : FederationStore → Opened
    refused : StoreError → Opened

  abbrev pub if_persisted : FederationStore → Bool × Option g.Json → Opened × Option g.Json
  if_persisted store (true, file) = (opened store, file)
  if_persisted store (false, file) = (refused write_error, file)

  abbrev pub persisted : Loaded → Write → Option g.Json → Opened × Option g.Json
  persisted unusable write file = (refused invalid_data, file)
  persisted (loaded key state) write file =
      if_persisted (record { key = key; state = state }) (persist state write file)

  -- `FederationStore::open`, where the directory can be made and the file, if there is one, be read.
  unfoldable pub open_store : c.SigningKey → Write → Option g.Json → Opened × Option g.Json
  open_store generated write file = persisted (loaded_from generated file) write file
