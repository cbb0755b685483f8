-- ===== src/Probes/Rip/Table.antt =====
-- `request_table` of src/probes/rip.rs: the table that a router's datagrams add up to. What the socket
-- delivers before the deadlines is a list of arrivals.
pub mod Merged
use idnx.Common.{
  ℕ, ◌+◌, Option, none, some, Bool, true, false, ◌&&◌, List, [], ◌∷◌, ◌++◌, ◌==◌, ltb, any,
  if◌then◌else◌,
}
use idnx.Probes.Rip
use idnx.Probes.Rip.{Ipv4Nets}

-- A datagram with its sender's address.
pub record Arrival : Type 0 where
  pub from : ℕ
  pub datagram : List ℕ

-- `PartialEq` of an optional address.
abbrev pub same_hop : Option ℕ → Option ℕ → Bool
same_hop none none = true
same_hop (some a) (some b) = a == b
same_hop _ _ = false

-- `same_net` is `PartialEq` of the crate's networks.
module _ (nets : Ipv4Nets) (same_net : nets.Ipv4Net → nets.Ipv4Net → Bool) where
  pub record RipTable : Type 0 where
    pub routes : List (Rip.RipRoute nets)
    pub datagrams : ℕ

  unfoldable pub same_route : Rip.RipRoute nets → Rip.RipRoute nets → Bool
  same_route existing route =
      same_net existing.prefix route.prefix
      && (same_hop existing.next_hop route.next_hop
          && (existing.metric == route.metric && existing.tag == route.tag))

  abbrev pub has : List (Rip.RipRoute nets) → Rip.RipRoute nets → Bool
  has routes route = any (λ existing. same_route existing route) routes

  abbrev pub keep_new : List (Rip.RipRoute nets) → Rip.RipRoute nets → List (Rip.RipRoute nets)
  keep_new routes route = if has routes route then routes else routes ++ route ∷ []

  -- `for route in parsed`
  unfoldable pub merge :
      List (Rip.RipRoute nets) → List (Rip.RipRoute nets) → List (Rip.RipRoute nets)
  merge routes [] = routes
  merge routes (route ∷ parsed) = merge (keep_new routes route) parsed

  abbrev pub count_in : RipTable → Option (List (Rip.RipRoute nets)) → RipTable
  count_in t none = t
  count_in t (some parsed) = record { routes = merge t.routes parsed; datagrams = t.datagrams + 1 }

  -- One turn of the loop that did not time out.
  unfoldable pub receive : ℕ → RipTable → Arrival → RipTable
  receive target t a =
      if a.from == target then count_in t (Rip.parse_response nets a.datagram) else t

  unfoldable pub receive_all : ℕ → RipTable → List Arrival → RipTable
  receive_all target t [] = t
  receive_all target t (a ∷ arrivals) = receive_all target (receive target t a) arrivals

  abbrev pub answered : RipTable → Option RipTable
  answered t = if ltb 0 t.datagrams then some t else none

  unfoldable pub request_table : ℕ → List Arrival → Option RipTable
  request_table target arrivals =
      answered (receive_all target (record { routes = []; datagrams = 0 }) arrivals)
