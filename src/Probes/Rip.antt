-- ===== src/Probes/Rip.antt =====
-- src/probes/rip.rs: RIPv2 responses, and the table that a router's answers add up to.
pub mod Mask
pub mod Entries
pub mod Table
use idnx.Common.{
  ℕ, zero, suc, ◌+◌, ◌-◌, ◌*◌, ◌/◌, ◌%◌, ◌^◌, Option, none, some, Bool, true, false, not, List, [],
  ◌∷◌, ◌++◌, ◌==◌, ltb, leb, ◌&&◌, ◌||◌, if◌then◌else◌, length, take, drop, bytes,
}
use idnx.Common.Bytes.{from_be_bytes, to_be_bytes}

-- What the crate ipnet does for IPv4: `Ipv4Net::new` (`none` is its error) and `trunc`. Addresses are
-- numbers below 2 ^ 32.
pub record Ipv4Nets : Type 1 where
  pub Ipv4Net : Type 0
  pub new : ℕ → ℕ → Option Ipv4Net
  pub trunc : Ipv4Net → Ipv4Net

-- `u32::leading_ones`, over the lowest `k` bits.
unfoldable pub leading_ones : ℕ → ℕ → ℕ
leading_ones zero bits = 0
leading_ones (suc k) bits =
    let rest = leading_ones k bits in if bits / 2 ^ k % 2 == 1 then suc rest else 0

unfoldable pub contiguous_prefix_length : ℕ → Option ℕ
contiguous_prefix_length bits =
    let leading = leading_ones 32 bits in
    if leading == 32
    then some 32
    else if bits * 2 ^ leading % 2 ^ 32 == 0
    then some leading
    else none

-- `MAX_ENTRIES_PER_DATAGRAM`
abbrev pub max_entries_per_datagram : ℕ
max_entries_per_datagram = 25

module _ (nets : Ipv4Nets) where
  open nets use {Ipv4Net, new, trunc}

  pub record RipRoute : Type 0 where
    pub prefix : Ipv4Net
    pub next_hop : Option ℕ
    pub metric : ℕ
    pub tag : ℕ
    pub raw_entry : List ℕ

  unfoldable pub is_reachable : RipRoute → Bool
  is_reachable r = ltb r.metric 16

  -- `&entry[from..from + size]`, as a number.
  abbrev pub field : ℕ → ℕ → List ℕ → ℕ
  field from size entry = from_be_bytes (take size (drop from entry))

  -- `(!next_hop.is_unspecified()).then_some(next_hop)`
  abbrev pub next_hop_of : ℕ → Option ℕ
  next_hop_of address = if address == 0 then none else some address

  abbrev pub route_with : List ℕ → Ipv4Net → RipRoute
  route_with entry network = record {
    prefix = trunc network;
    next_hop = next_hop_of (field 12 4 entry);
    metric = field 16 4 entry;
    tag = field 2 2 entry;
    raw_entry = entry;
  }

  -- `let Ok(network) = Ipv4Net::new(..) else { continue }`, and the route.
  abbrev pub route_made : List ℕ → Option Ipv4Net → Option RipRoute
  route_made entry none = none
  route_made entry (some network) = some (route_with entry network)

  -- One turn of the loop of `parse_response`; `none` is a `continue`.
  unfoldable pub route_of : List ℕ → Option RipRoute
  route_of entry =
      if not (field 0 2 entry == 2)
      then none
      else if not (leb 1 (field 16 4 entry) && leb (field 16 4 entry) 16)
      then none
      else elim (contiguous_prefix_length (field 8 4 entry)) [
        | none ↦ none
        | some prefix_length ↦ route_made entry (new (field 4 4 entry) prefix_length)
      ]

  abbrev pub push_some : List RipRoute → Option RipRoute → List RipRoute
  push_some routes none = routes
  push_some routes (some r) = routes ++ r ∷ []

  -- `while offset + 20 <= datagram.len()` over what is left, with fuel.
  unfoldable pub entries_loop : ℕ → List ℕ → List RipRoute → List RipRoute
  entries_loop zero rest routes = routes
  entries_loop (suc fuel) rest routes =
      let more = entries_loop fuel (drop 20 rest) (push_some routes (route_of (take 20 rest))) in
      if leb 20 (length rest) then more else routes

  unfoldable pub parse_response : List ℕ → Option (List RipRoute)
  parse_response (command ∷ version ∷ r1 ∷ r2 ∷ body) =
      if not (command == 2)
      then none
      else if not (version == 2)
      then none
      else if not (r1 == 0) || not (r2 == 0)
      then none
      else if not (length body % 20 == 0)
      then none
      else if ltb max_entries_per_datagram (length body / 20)
      then none
      else some (entries_loop (length body) body [])
  parse_response _ = none
