-- ===== src/Examples/Routing.antt =====
-- The RIP probe's theorems at small inputs, and the role of a device.
use idnx.Common.{
  ◌||◌, leb, length, Distinct, map, ◌++◌, ◌==◌, ℕ, ◌≡◌, ◌↔◌, refl, List, [], ◌∷◌, ◌<◌, some, true,
  arith, All, any, ltb, ◌&&◌, Bool,
}
use idnx.Common.Bytes.{from_be_bytes, from_be_bytes_on}
use idnx.Topology.Names.{RoleSignal}
use idnx.Topology.Role.{score_role}
use idnx.Topology.Role.Scoring.{
  is_router, is_bridge, is_strong, is_observed, is_bridge_signal, score_role_iff,
}
use idnx.Probes.Rip
use idnx.Probes.Rip.Table
use idnx.Probes.Rip.Table.{Arrival}
use idnx.Probes.Rip.Table.Merged.{IsEquality, IsIn, said, advertised, request_table_once}
use idnx.Probes.Rip.{Ipv4Nets, contiguous_prefix_length, leading_ones}
use idnx.Probes.Rip.Entries.{route_of_iff, IsRoute}

-- Networks as their address and length, of which the address is not cut.
abbrev nets : Ipv4Nets
nets = record { Ipv4Net = ℕ × ℕ; new = λ a n. some (a, n); trunc = λ n. n }

-- 10.1.2.0/24, metric 3, by the sender.
abbrev entry : List ℕ
entry = 0 ∷ 2 ∷ 0 ∷ 0 ∷ 10 ∷ 1 ∷ 2 ∷ 0 ∷ 255 ∷ 255 ∷ 255 ∷ 0 ∷ 0 ∷ 0 ∷ 0 ∷ 0 ∷ 0 ∷ 0 ∷ 0 ∷ 3 ∷ []

abbrev all_small : List ℕ → Bool
all_small [] = true
all_small (b ∷ bs) = ltb b 256 && all_small bs

all_small-All : (bs : List ℕ) → all_small bs ≡ true → All (λ b. b < 256) bs
all_small-All [] h = tt
all_small-All (b ∷ bs) h = (ground arith, all_small-All bs (ground arith))

entry_bytes : All (λ b. b < 256) entry
entry_bytes = all_small-All entry refl

route_of_iff_example :
    (Rip.route_of nets entry ≡ some (Rip.route_with nets entry (0x0a010200, 24)))
    ↔ IsRoute nets entry (Rip.route_with nets entry (0x0a010200, 24))
route_of_iff_example =
    route_of_iff nets entry (Rip.route_with nets entry (0x0a010200, 24)) entry_bytes

abbrev heard : List RoleSignal
heard = RoleSignal.observed_forwarding ∷ RoleSignal.management_surface ∷ []

score_role_iff_example :
    (is_router (score_role heard)
      ≡ (any is_strong heard || (any is_observed heard && leb 2 (length heard))))
    × (is_bridge (score_role heard) ≡ any is_bridge_signal heard)
score_role_iff_example = score_role_iff heard

abbrev router : ℕ
router = 0x0a010201

abbrev answers : List Arrival
answers =
    record { from = router; datagram = 2 ∷ 2 ∷ 0 ∷ 0 ∷ entry }
    ∷ record { from = 7; datagram = 2 ∷ 2 ∷ 0 ∷ 0 ∷ entry }
    ∷ record { from = router; datagram = 2 ∷ 2 ∷ 0 ∷ 0 ∷ entry ++ entry }
    ∷ record { from = router; datagram = 2 ∷ 1 ∷ 0 ∷ 0 ∷ [] }
    ∷ []

abbrev same_net : ℕ × ℕ → ℕ × ℕ → Bool
same_net m n = m.0 == n.0 && m.1 == n.1

same_net_IsEquality : IsEquality nets same_net
same_net_IsEquality m n = (λ h. ground arith, λ h. ground arith)

abbrev one_route : List (Rip.RipRoute nets)
one_route = Rip.route_with nets entry (0x0a010200, 24) ∷ []

abbrev its_table : Table.RipTable nets same_net
its_table = record { routes = one_route; datagrams = 2 }

gives_table : Table.request_table nets same_net router answers ≡ some its_table
unfolding Table.request_table Table.receive_all Table.receive Table.merge Table.same_route
    Rip.parse_response Rip.entries_loop Rip.route_of contiguous_prefix_length leading_ones
    from_be_bytes from_be_bytes_on
gives_table = refl

request_table_once_example :
    Distinct (map (said nets same_net) one_route)
    × All
        (λ r. IsIn nets same_net (said nets same_net r) (map (said nets same_net) one_route))
        (advertised nets same_net router answers)
    × All (λ r. IsIn nets same_net r (advertised nets same_net router answers)) one_route
request_table_once_example =
    request_table_once nets same_net router answers its_table same_net_IsEquality gives_table
