-- ===== src/Topology/Role/Scoring.antt =====
-- When `score_role` of src/topology/role.rs accepts a device as infrastructure, and what more
-- evidence does to that.
use idnx.Common.{
  ◌*◌, ◌∙◌, ◌+◌, ◌≤◌, leb, length, contains, bytes, ◌≡◌, refl, Bool, true, false, ◌&&◌, ◌||◌, List,
  [], ◌∷◌, ltb, any, arith, Bool-cases, inl, inr, if◌then◌else◌,
}
use idnx.Topology.Names.{RoleSignal, weight}
use idnx.Topology.Role.{
  DeviceRole, infrastructure_threshold, is_routing, is_bridging, total_weight, role_for, score_role,
}

-- Whether a device of the role routes, and whether it bridges.
unfoldable pub is_router : DeviceRole → Bool
is_router DeviceRole.router = true
is_router DeviceRole.layer3_switch = true
is_router _ = false

unfoldable pub is_bridge : DeviceRole → Bool
is_bridge DeviceRole.switch = true
is_bridge DeviceRole.layer3_switch = true
is_bridge _ = false

-- A list of signals weighs enough.
unfoldable pub is_heavy : List RoleSignal → Bool
is_heavy signals = if ltb (total_weight signals) infrastructure_threshold then false else true

roles_of :
    (heavy routes bridges : Bool)
    → (is_router (if heavy then role_for routes bridges else DeviceRole.host) ≡ (heavy && routes))
      × (is_bridge (if heavy then role_for routes bridges else DeviceRole.host)
          ≡ (heavy && bridges))
unfolding is_router is_bridge
roles_of false routes bridges = (refl, refl)
roles_of true true true = (refl, refl)
roles_of true true false = (refl, refl)
roles_of true false true = (refl, refl)
roles_of true false false = (refl, refl)

-- The role of a list of signals says "router" exactly if they weigh at least the threshold and one of
-- them is counted as routing, and "bridge" exactly if they weigh as much and one is counted as bridging.
score_role_by_claims :
    (signals : List RoleSignal)
    → (is_router (score_role signals) ≡ (is_heavy signals && any is_routing signals))
      × (is_bridge (score_role signals) ≡ (is_heavy signals && any is_bridging signals))
unfolding score_role is_heavy is_router is_bridge
score_role_by_claims [] = (refl, refl)
score_role_by_claims (s ∷ signals) =
    elim (Bool-cases (ltb (total_weight (s ∷ signals)) infrastructure_threshold)) [
      | inl light ↦ rw light (refl, refl)
      | inr heavy ↦
          rw heavy (roles_of true (any is_routing (s ∷ signals)) (any is_bridging (s ∷ signals)))
    ]

-- The signals that make a router alone, the one that needs company, and those that make a bridge.
unfoldable pub is_strong : RoleSignal → Bool
is_strong RoleSignal.default_gateway = true
is_strong RoleSignal.dhcp_router = true
is_strong RoleSignal.router_advertisement = true
is_strong RoleSignal.internet_gateway_device = true
is_strong RoleSignal.snmp_forwarding = true
is_strong RoleSignal.kernel_next_hop = true
is_strong (RoleSignal.link_layer_capability c) = contains c (bytes "Router")
is_strong _ = false

unfoldable pub is_observed : RoleSignal → Bool
is_observed RoleSignal.observed_forwarding = true
is_observed _ = false

unfoldable pub is_bridge_signal : RoleSignal → Bool
is_bridge_signal RoleSignal.spanning_tree_bridge = true
is_bridge_signal (RoleSignal.link_layer_capability c) = contains c (bytes "Bridge")
is_bridge_signal _ = false

routing_lem : (s : RoleSignal) → is_routing s ≡ (is_strong s || is_observed s)
unfolding is_routing is_strong is_observed
routing_lem s = ground arith

bridging_lem : (s : RoleSignal) → is_bridging s ≡ is_bridge_signal s
unfolding is_bridging is_bridge_signal
bridging_lem s = ground arith

weight-ge : (s : RoleSignal) → 30 ≤ weight s
unfolding weight
weight-ge s = ground arith

weight-strong : (s : RoleSignal) → is_strong s ≡ true → 70 ≤ weight s
unfolding weight is_strong
weight-strong s h = ground arith

weight-bridge : (s : RoleSignal) → is_bridge_signal s ≡ true → 70 ≤ weight s
unfolding weight is_bridge_signal
weight-bridge s h = ground arith

weight-observed : (s : RoleSignal) → is_observed s ≡ true → weight s ≡ 60
unfolding weight is_observed
weight-observed s h = ground arith

any-eq :
    (p q : RoleSignal → Bool)
    → ((s : RoleSignal) → p s ≡ q s)
    → (signals : List RoleSignal) → any p signals ≡ any q signals
any-eq p q same [] = refl
any-eq p q same (s ∷ signals) = rw (same s, any-eq p q same signals) refl

any-or :
    (p q : RoleSignal → Bool) (signals : List RoleSignal)
    → any (λ s. p s || q s) signals ≡ (any p signals || any q signals)
any-or p q [] = refl
any-or p q (s ∷ signals) = let h = any-or p q signals in ground arith

total_weight-ge : (signals : List RoleSignal) → 30 * length signals ≤ total_weight signals
total_weight-ge [] = omega arith
total_weight-ge (s ∷ signals) = omega (arith, weight-ge s, total_weight-ge signals)

-- One signal of a kind that weighs 70 is heavy enough.
any_heavy :
    (p : RoleSignal → Bool)
    → ((s : RoleSignal) → p s ≡ true → 70 ≤ weight s)
    → (signals : List RoleSignal) → any p signals ≡ true
    → 70 ≤ total_weight signals
any_heavy p heavy [] h = absurd (cc)
any_heavy p heavy (s ∷ signals) h = elim (Bool-cases (p s)) [
  | inl here ↦ omega (arith, heavy s here)
  | inr elsewhere ↦ omega (arith, any_heavy p heavy signals (rw elsewhere at h))
]

observed_weight :
    (signals : List RoleSignal)
    → any is_observed signals ≡ true
    → 30 * length signals + 30 ≤ total_weight signals
observed_weight [] h = absurd (cc)
observed_weight (s ∷ signals) h = elim (Bool-cases (is_observed s)) [
  | inl here ↦ omega (arith, weight-observed s here, total_weight-ge signals)
  | inr elsewhere ↦ omega (arith, weight-ge s, observed_weight signals (rw elsewhere at h))
]

is_heavy-ge : (signals : List RoleSignal) → 70 ≤ total_weight signals → is_heavy signals ≡ true
unfolding is_heavy
is_heavy-ge signals h = ground arith

-- An observation on its own is too light.
observed_alone : (s : RoleSignal) → is_observed s ≡ true → is_heavy (s ∷ []) ≡ false
unfolding is_heavy
observed_alone s h = let w = weight-observed s h in ground arith

enough_to_route :
    (signals : List RoleSignal)
    → (is_heavy signals && (any is_strong signals || any is_observed signals))
      ≡ (any is_strong signals || (any is_observed signals && leb 2 (length signals)))
enough_to_route [] = ground arith
enough_to_route (s ∷ []) = elim (Bool-cases (is_strong s)) [
  | inl strong ↦ rw (is_heavy-ge (s ∷ []) (omega (arith, weight-strong s strong)), strong) refl
  | inr weak ↦ elim (Bool-cases (is_observed s)) [
    | inl seen ↦ rw (observed_alone s seen, weak, seen) (ground arith)
    | inr unseen ↦ rw (weak, unseen) (ground arith)
  ]
]
enough_to_route (s ∷ s' ∷ signals) = elim (Bool-cases (any is_strong (s ∷ s' ∷ signals))) [
  | inl strong ↦
      rw
        (
          is_heavy-ge (s ∷ s' ∷ signals)
              (any_heavy is_strong weight-strong (s ∷ s' ∷ signals) strong),
          strong,
        )
        refl
  | inr weak ↦ elim (Bool-cases (any is_observed (s ∷ s' ∷ signals))) [
    | inl seen ↦
        let w = observed_weight (s ∷ s' ∷ signals) seen in
        let heavy = is_heavy-ge (s ∷ s' ∷ signals) (omega arith) in
        let two : leb 2 (length (s ∷ s' ∷ signals)) ≡ true = ground arith in
        rw (heavy, weak, seen, two) refl
    | inr unseen ↦ rw (weak, unseen) (ground arith)
  ]
]

enough_to_bridge :
    (signals : List RoleSignal)
    → (is_heavy signals && any is_bridge_signal signals) ≡ any is_bridge_signal signals
enough_to_bridge signals = elim (Bool-cases (any is_bridge_signal signals)) [
  | inl bridges ↦
      rw (is_heavy-ge signals (any_heavy is_bridge_signal weight-bridge signals bridges), bridges)
        refl
  | inr silent ↦ rw silent (ground arith)
]

-- A device is a router exactly if one of its signals is the default gateway, a router that DHCP names, a router
-- advertisement, an internet gateway device, SNMP forwarding, a kernel next hop or a link-layer capability that
-- contains "Router", or if it was observed to forward and has one more signal of any kind; it is a bridge exactly if one is
-- the spanning tree's or a link-layer capability that contains "Bridge".
pub score_role_iff :
    (signals : List RoleSignal)
    → (is_router (score_role signals)
        ≡ (any is_strong signals || (any is_observed signals && leb 2 (length signals))))
      × (is_bridge (score_role signals) ≡ any is_bridge_signal signals)
score_role_iff signals =
    let (routes, bridges) = score_role_by_claims signals in
    (
      rw
            (
              any-eq is_routing (λ s. is_strong s || is_observed s) routing_lem signals,
              any-or is_strong is_observed signals,
            )
            at routes
          ∙ enough_to_route signals,
      rw (any-eq is_bridging is_bridge_signal bridging_lem signals) at bridges
          ∙ enough_to_bridge signals,
    )

heavier :
    (s : RoleSignal) (signals : List RoleSignal) (here there : Bool)
    → (is_heavy signals && there) ≡ true
    → (is_heavy (s ∷ signals) && (here || there)) ≡ true
unfolding is_heavy
heavier s signals here there h = ground arith

-- More signals never take a claim away: a list that gives a router (a bridge) still does with one
-- more signal before it.
pub score_role_monotone :
    (s : RoleSignal) (signals : List RoleSignal)
    → (is_router (score_role signals) ≡ true → is_router (score_role (s ∷ signals)) ≡ true)
      × (is_bridge (score_role signals) ≡ true → is_bridge (score_role (s ∷ signals)) ≡ true)
score_role_monotone s signals =
    let (routes, bridges) = score_role_by_claims signals in
    let (routes', bridges') = score_role_by_claims (s ∷ signals) in
    (
      λ h. rw routes' (heavier s signals (is_routing s) _ (rw routes at h)),
      λ h. rw bridges' (heavier s signals (is_bridging s) _ (rw bridges at h)),
    )

-- Signals of which none is counted as routing or bridging leave the device a host, whatever they weigh.
pub score_role_unclaimed :
    (signals : List RoleSignal)
    → any is_routing signals ≡ false
    → any is_bridging signals ≡ false
    → score_role signals ≡ DeviceRole.host
unfolding score_role
score_role_unclaimed [] r b = refl
score_role_unclaimed (s ∷ signals) r b =
    elim (Bool-cases (ltb (total_weight (s ∷ signals)) infrastructure_threshold)) [
      | inl light ↦ rw light refl
      | inr heavy ↦ rw (heavy, r, b) refl
    ]
