-- ===== src/Probes/Rip/Table/Merged.antt =====
-- The merge of routes in `request_table` of src/probes/rip.rs.
use mathlib.Core.Path.{subst}
use idnx.Common.{
  ℕ, ◌≡◌, refl, sym, ap, ◌∙◌, Option, none, some, Bool, true, false, List, [], ◌∷◌, ◌++◌, ◌==◌,
  arith, All, any-left, any-last, All-last, All-map, map, ◌≢◌, ◌↔◌, ◌⊎◌, Distinct, Distinct-append,
  Bool-cases, inl, inr, if◌then◌else◌,
}
use idnx.Probes.Rip
use idnx.Probes.Rip.{Ipv4Nets}
use idnx.Probes.Rip.Table
use idnx.Probes.Rip.Table.{Arrival}

module _ (nets : Ipv4Nets) (same_net : nets.Ipv4Net → nets.Ipv4Net → Bool) where
  -- The routes of the datagrams that the target sent and that parse, in the order of arrival.
  abbrev pub parsed_or_none : Option (List (Rip.RipRoute nets)) → List (Rip.RipRoute nets)
  parsed_or_none none = []
  parsed_or_none (some parsed) = parsed

  abbrev pub advertised_by : ℕ → Arrival → List (Rip.RipRoute nets)
  advertised_by target a =
      if a.from == target then parsed_or_none (Rip.parse_response nets a.datagram) else []

  unfoldable pub advertised : ℕ → List Arrival → List (Rip.RipRoute nets)
  advertised target [] = []
  advertised target (a ∷ arrivals) = advertised_by target a ++ advertised target arrivals

  -- What a route says, apart from the bytes that it was read from: prefix, next hop, metric and tag.
  abbrev pub said : Rip.RipRoute nets → nets.Ipv4Net × Option ℕ × ℕ × ℕ
  said r = (r.prefix, r.next_hop, r.metric, r.tag)

  abbrev pub IsIn : {A : Type 0} → A → List A → Type 0
  IsIn a [] = ⊥
  IsIn a (x ∷ xs) = (x ≡ a) ⊎ IsIn a xs

  -- Two networks compare as equal exactly if they are.
  abbrev pub IsEquality : Type 0
  IsEquality = (n m : nets.Ipv4Net) → (same_net n m ≡ true) ↔ (n ≡ m)

  same_hop_eq : (a b : Option ℕ) → Table.same_hop a b ≡ true → a ≡ b
  same_hop_eq none none h = refl
  same_hop_eq (some a) (some b) h = ap some (ground arith)
  same_hop_eq none (some b) h = cc
  same_hop_eq (some a) none h = cc

  same_hop_refl : (o : Option ℕ) → Table.same_hop o o ≡ true
  same_hop_refl none = refl
  same_hop_refl (some a) = ground arith

  same_route-said :
      IsEquality
      → (r q : Rip.RipRoute nets) → Table.same_route nets same_net r q ≡ true
      → said r ≡ said q
  unfolding Table.same_route
  same_route-said equal r q h =
      let net : same_net r.prefix q.prefix ≡ true = ground arith in
      let hop : Table.same_hop r.next_hop q.next_hop ≡ true = ground arith in
      let metric : r.metric ≡ q.metric = ground arith in
      let tag : r.tag ≡ q.tag = ground arith in
      cc ((equal r.prefix q.prefix).0 net, same_hop_eq r.next_hop q.next_hop hop, metric, tag)

  said-same_route :
      IsEquality
      → (r q : Rip.RipRoute nets) → said r ≡ said q
      → Table.same_route nets same_net r q ≡ true
  unfolding Table.same_route
  said-same_route equal r q h =
      let net = (equal r.prefix q.prefix).1 (ap (λ (x : nets.Ipv4Net × Option ℕ × ℕ × ℕ). x.0) h) in
      let hop : Table.same_hop r.next_hop q.next_hop ≡ true =
        rw (ap (λ (x : nets.Ipv4Net × Option ℕ × ℕ × ℕ). x.1) h) (same_hop_refl q.next_hop) in
      let metric = ap (λ (x : nets.Ipv4Net × Option ℕ × ℕ × ℕ). x.2) h in
      let tag = ap (λ (x : nets.Ipv4Net × Option ℕ × ℕ × ℕ). x.3) h in
      ground (arith, net, hop, metric, tag)

  has-IsIn :
      IsEquality
      → (routes : List (Rip.RipRoute nets)) (r : Rip.RipRoute nets)
      → Table.has nets same_net routes r ≡ true
      → IsIn (said r) (map said routes)
  has-IsIn equal [] r h = cc h
  has-IsIn equal (q ∷ routes) r h = elim (Bool-cases (Table.same_route nets same_net q r)) [
    | inl same ↦ inl (same_route-said equal q r same)
    | inr apart ↦ inr (has-IsIn equal routes r (rw apart at h))
  ]

  has-apart :
      IsEquality
      → (routes : List (Rip.RipRoute nets)) (r : Rip.RipRoute nets)
      → Table.has nets same_net routes r ≡ false
      → All (λ k. All (λ j. k ≢ j) (said r ∷ [])) (map said routes)
  has-apart equal [] r h = tt
  has-apart equal (q ∷ routes) r h = elim (Bool-cases (Table.same_route nets same_net q r)) [
    | inl same ↦ absurd (cc (rw same at h))
    | inr apart ↦ (
      (λ e. absurd (cc (apart, said-same_route equal q r e)), tt),
      has-apart equal routes r (rw apart at h),
    )
  ]

  map-last :
      (routes : List (Rip.RipRoute nets)) (r : Rip.RipRoute nets)
      → map said (routes ++ r ∷ []) ≡ map said routes ++ said r ∷ []
  map-last [] r = refl
  map-last (q ∷ routes) r =
      ap (λ (t : List (nets.Ipv4Net × Option ℕ × ℕ × ℕ)). said q ∷ t) (map-last routes r)

  merge-Distinct :
      IsEquality
      → (routes parsed : List (Rip.RipRoute nets)) → Distinct (map said routes)
      → Distinct (map said (Table.merge nets same_net routes parsed))
  unfolding Table.merge
  merge-Distinct equal routes [] h = h
  merge-Distinct equal routes (r ∷ parsed) h =
      elim (Bool-cases (Table.has nets same_net routes r)) [
        | inl known ↦ rw known (merge-Distinct equal routes parsed h)
        | inr fresh ↦ rw fresh (
            merge-Distinct equal (routes ++ r ∷ []) parsed (
              subst Distinct (sym (map-last routes r)) (
                Distinct-append (map said routes) (said r ∷ []) h (tt, tt)
                  (has-apart equal routes r fresh))))
      ]

  merge-keeps :
      (routes parsed : List (Rip.RipRoute nets)) (q : Rip.RipRoute nets)
      → Table.has nets same_net routes q ≡ true
      → Table.has nets same_net (Table.merge nets same_net routes parsed) q ≡ true
  unfolding Table.merge
  merge-keeps routes [] q h = h
  merge-keeps routes (r ∷ parsed) q h = elim (Bool-cases (Table.has nets same_net routes r)) [
    | inl known ↦ rw known (merge-keeps routes parsed q h)
    | inr fresh ↦ rw fresh (merge-keeps (routes ++ r ∷ []) parsed q (any-left _ routes (r ∷ []) h))
  ]

  merge-All :
      (P : Rip.RipRoute nets → Type 0) (routes parsed : List (Rip.RipRoute nets))
      → All P routes
      → All P parsed
      → All P (Table.merge nets same_net routes parsed)
  unfolding Table.merge
  merge-All P routes [] h k = h
  merge-All P routes (r ∷ parsed) h k = elim (Bool-cases (Table.has nets same_net routes r)) [
    | inl known ↦ rw known (merge-All P routes parsed h k.1)
    | inr fresh ↦ rw fresh (merge-All P (routes ++ r ∷ []) parsed (All-last P routes r h k.0) k.1)
  ]

  merge-append :
      (routes xs ys : List (Rip.RipRoute nets))
      → Table.merge nets same_net routes (xs ++ ys)
        ≡ Table.merge nets same_net (Table.merge nets same_net routes xs) ys
  unfolding Table.merge
  merge-append routes [] ys = refl
  merge-append routes (x ∷ xs) ys = merge-append (Table.keep_new nets same_net routes x) xs ys

  count_in-routes :
      (t : Table.RipTable nets same_net) (o : Option (List (Rip.RipRoute nets)))
      → (Table.count_in nets same_net t o).routes
        ≡ Table.merge nets same_net t.routes (parsed_or_none o)
  unfolding Table.merge
  count_in-routes t none = refl
  count_in-routes t (some parsed) = refl

  receive-routes :
      (target : ℕ) (t : Table.RipTable nets same_net) (a : Arrival)
      → (Table.receive nets same_net target t a).routes
        ≡ Table.merge nets same_net t.routes (advertised_by target a)
  unfolding Table.receive Table.merge
  receive-routes target t a = elim (Bool-cases (a.from == target)) [
    | inr other ↦ rw other refl
    | inl ours ↦ rw ours (count_in-routes t (Rip.parse_response nets a.datagram))
  ]

  receive_all-routes :
      (target : ℕ) (t : Table.RipTable nets same_net) (arrivals : List Arrival)
      → (Table.receive_all nets same_net target t arrivals).routes
        ≡ Table.merge nets same_net t.routes (advertised target arrivals)
  unfolding Table.receive_all advertised Table.merge
  receive_all-routes target t [] = refl
  receive_all-routes target t (a ∷ arrivals) =
      receive_all-routes target (Table.receive nets same_net target t a) arrivals
      ∙ ap
          (λ (rs : List (Rip.RipRoute nets)).
            Table.merge nets same_net rs (advertised target arrivals))
          (receive-routes target t a)
      ∙ sym (merge-append t.routes (advertised_by target a) (advertised target arrivals))

  table_routes :
      (target : ℕ) (arrivals : List Arrival) (t : Table.RipTable nets same_net)
      → Table.request_table nets same_net target arrivals ≡ some t
      → t.routes ≡ Table.merge nets same_net [] (advertised target arrivals)
  unfolding Table.request_table
  table_routes target arrivals t h =
      ap (λ (x : Table.RipTable nets same_net). x.routes) (answered_same _ t h)
      ∙ receive_all-routes target (record { routes = []; datagrams = 0 }) arrivals
    where
      answered_same :
          (s t : Table.RipTable nets same_net) → Table.answered nets same_net s ≡ some t → t ≡ s
      answered_same s t h = ground arith

  merge-covers :
      (routes parsed : List (Rip.RipRoute nets))
      → ((r : Rip.RipRoute nets) → Table.same_route nets same_net r r ≡ true)
      → All (λ r. Table.has nets same_net (Table.merge nets same_net routes parsed) r ≡ true) parsed
  unfolding Table.merge
  merge-covers routes [] same = tt
  merge-covers routes (r ∷ parsed) same = (
    merge-keeps (Table.keep_new nets same_net routes r) parsed r (keep_new-has routes r),
    merge-covers (Table.keep_new nets same_net routes r) parsed same,
  )
    where
      keep_new-has :
          (routes : List (Rip.RipRoute nets)) (r : Rip.RipRoute nets)
          → Table.has nets same_net (Table.keep_new nets same_net routes r) r ≡ true
      keep_new-has routes r = elim (Bool-cases (Table.has nets same_net routes r)) [
        | inl known ↦ rw (known, known) refl
        | inr fresh ↦ rw fresh (any-last _ routes r (same r))
      ]

  All-IsIn :
      {A : Type 0} (all xs : List A) → ((x : A) → IsIn x xs → IsIn x all) → All (λ x. IsIn x all) xs
  All-IsIn all [] h = tt
  All-IsIn all (x ∷ xs) h = (h x (inl refl), All-IsIn all xs (λ y k. h y (inr k)))

  -- Where two networks compare as equal exactly if they are, a table that was answered has no two routes of
  -- one prefix, next hop, metric and tag; has those of every route that the target's valid datagrams
  -- advertise; and has no route but these.
  pub request_table_once :
      (target : ℕ) (arrivals : List Arrival) (t : Table.RipTable nets same_net)
      → IsEquality
      → Table.request_table nets same_net target arrivals ≡ some t
      → Distinct (map said t.routes)
        × All (λ r. IsIn (said r) (map said t.routes)) (advertised target arrivals)
        × All (λ r. IsIn r (advertised target arrivals)) t.routes
  request_table_once target arrivals t equal h =
      let heard = advertised target arrivals in
      rw (table_routes target arrivals t h) (
        merge-Distinct equal [] heard tt,
        All-map _ (λ r. IsIn (said r) (map said (Table.merge nets same_net [] heard))) heard
            (has-IsIn equal (Table.merge nets same_net [] heard))
            (merge-covers [] heard (λ r. said-same_route equal r r refl)),
        merge-All (λ r. IsIn r heard) [] heard tt (All-IsIn heard heard (λ r k. k)),
      )
