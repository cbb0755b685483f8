-- ===== src/Probes/Rip/Entries.antt =====
-- What a RIPv2 response of src/probes/rip.rs is read as: its entries one by one, and the
-- fields of an entry that a route is kept for.
use idnx.Common.{
  ◌↔◌, ℕ, zero, suc, ◌*◌, ◌/◌, ◌%◌, ◌^◌, ◌≤◌, ◌<◌, ◌≡◌, ◌≢◌, ◌⊎◌, refl, sym, ap, ◌∙◌, Option, none,
  some, true, false, List, [], ◌∷◌, ◌++◌, arith, length, take, drop, All, All-take, All-drop,
  take-append, length-take-le, ◌==◌, leb, ltb, ==_iff, Bool-cases, inl, inr, Option-cases, ◌&&◌,
  length-append,
}
use mathlib.Core.List.{append_assoc, append-nil}
use idnx.Common.Bytes.{from_be_bytes-lt}
use idnx.Probes.Rip
use idnx.Probes.Rip.{Ipv4Nets, contiguous_prefix_length, max_entries_per_datagram}
use idnx.Probes.Rip.Mask.{mask_of, contiguous_prefix_length_iff}

fits : {n : ℕ} → 20 ≤ n → leb 20 n ≡ true
fits {n} le = ground arith

within : (n : ℕ) → (1 ≤ n) × (n ≤ 16) → (leb 1 n && leb n 16) ≡ true
within n h = ground arith

within_sound : (n : ℕ) → (leb 1 n && leb n 16) ≡ true → (1 ≤ n) × (n ≤ 16)
within_sound n h = ground arith

-- The bytes of several entries, one after the other.
abbrev pub joined : List (List ℕ) → List ℕ
joined [] = []
joined (e ∷ es) = e ++ joined es

-- Whole entries, and no more than the protocol permits.
abbrev pub IsResponse : List ℕ → Type 0
IsResponse body = (length body % 20 ≡ 0) × (length body ≤ 20 * max_entries_per_datagram)

module _ (nets : Ipv4Nets) where
  open nets use {Ipv4Net, new, trunc}

  abbrev pub kept : Option (Rip.RipRoute nets) → List (Rip.RipRoute nets)
  kept none = []
  kept (some r) = r ∷ []

  -- The routes of the usable entries, in the order of the entries.
  unfoldable pub routes_of : List (List ℕ) → List (Rip.RipRoute nets)
  routes_of [] = []
  routes_of (e ∷ es) = kept (Rip.route_of nets e) ++ routes_of es

  push_some-kept :
      (routes more : List (Rip.RipRoute nets)) (o : Option (Rip.RipRoute nets))
      → Rip.push_some nets routes o ++ more ≡ routes ++ (kept o ++ more)
  push_some-kept routes more none = refl
  push_some-kept routes more (some r) = append_assoc routes (r ∷ []) more

  entries_loop-joined :
      (fuel : ℕ) (es : List (List ℕ)) (routes : List (Rip.RipRoute nets))
      → All (λ e. length e ≡ 20) es
      → length es ≤ fuel
      → Rip.entries_loop nets fuel (joined es) routes ≡ routes ++ routes_of es
  unfolding Rip.entries_loop routes_of
  entries_loop-joined zero [] routes h le = sym (append-nil routes)
  entries_loop-joined zero (e ∷ es) routes h le = absurd (omega arith)
  entries_loop-joined (suc fuel) [] routes h le = sym (append-nil routes)
  entries_loop-joined (suc fuel) (e ∷ es) routes h le =
      let (front, back) = take-append 20 e (joined es) h.0 in
      let long : leb 20 (length (e ++ joined es)) ≡ true =
        fits (omega (arith, length-append e (joined es), h.0)) in
      rw (long, front, back)
        (entries_loop-joined fuel es _ h.1 (omega arith)
          ∙ push_some-kept routes (routes_of es) (Rip.route_of nets e))

  length-joined :
      (es : List (List ℕ)) → All (λ e. length e ≡ 20) es → length (joined es) ≡ 20 * length es
  length-joined [] h = omega arith
  length-joined (e ∷ es) h = omega (arith, length-append e (joined es), length-joined es h.1)

  -- A version 2 response with zero reserved bytes and at most 25 whole entries is read as the routes
  -- of its usable entries, in their order: an entry that is unusable takes no other with it.
  pub parse_response_complete :
      (es : List (List ℕ))
      → All (λ e. length e ≡ 20) es
      → length es ≤ max_entries_per_datagram
      → Rip.parse_response nets (2 ∷ 2 ∷ 0 ∷ 0 ∷ joined es) ≡ some (routes_of es)
  unfolding Rip.parse_response
  parse_response_complete es h le =
      let n = length-joined es h in
      let whole : (length (joined es) % 20 == 0) ≡ true = (==_iff _ 0).1 (omega arith) in
      let short : ltb max_entries_per_datagram (length (joined es) / 20) ≡ false = ground arith in
      rw (whole, short) (ap some (entries_loop-joined (length (joined es)) es [] h (omega arith)))

  -- An entry is the route `r` as the protocol says: IPv4, a metric from 1 to 16, a netmask that is `n`
  -- ones and then zeros, and a network of that length which ipnet accepts; with that network's prefix, the
  -- next hop where one is specified, the metric, the tag and the entry itself.
  pub record IsRoute (entry : List ℕ) (r : Rip.RipRoute nets) : Type 0 where
    pub family : Rip.field nets 0 2 entry ≡ 2
    pub reachable_or_withdrawn : (1 ≤ Rip.field nets 16 4 entry) × (Rip.field nets 16 4 entry ≤ 16)
    pub prefix_length : ℕ
    pub at_most_32 : prefix_length ≤ 32
    pub netmask : Rip.field nets 8 4 entry ≡ mask_of prefix_length
    pub network : Ipv4Net
    pub accepted : new (Rip.field nets 4 4 entry) prefix_length ≡ some network
    pub prefix_is : r.prefix ≡ trunc network
    pub next_hop_is :
        ((Rip.field nets 12 4 entry ≡ 0) × (r.next_hop ≡ none))
        ⊎ ((Rip.field nets 12 4 entry ≢ 0) × (r.next_hop ≡ some (Rip.field nets 12 4 entry)))
    pub metric_is : r.metric ≡ Rip.field nets 16 4 entry
    pub tag_is : r.tag ≡ Rip.field nets 2 2 entry
    pub entry_is : r.raw_entry ≡ entry

  field-lt : (entry : List ℕ) → All (λ b. b < 256) entry → Rip.field nets 8 4 entry < 2 ^ 32
  field-lt entry h =
      from_be_bytes-lt (take 4 (drop 8 entry)) 4 (All-take _ 4 _ (All-drop _ 8 entry h))
        (length-take-le 4 (drop 8 entry))

  next_hop_cases :
      (address : ℕ)
      → ((address ≡ 0) × (Rip.next_hop_of nets address ≡ none))
        ⊎ ((address ≢ 0) × (Rip.next_hop_of nets address ≡ some address))
  next_hop_cases address = elim (Bool-cases (address == 0)) [
    | inl unspecified ↦ inl (ground arith, rw unspecified refl)
    | inr given ↦ inr (λ e. absurd (ground arith), rw given refl)
  ]

  next_hop_eq :
      (address : ℕ) (hop : Option ℕ)
      → ((address ≡ 0) × (hop ≡ none)) ⊎ ((address ≢ 0) × (hop ≡ some address))
      → hop ≡ Rip.next_hop_of nets address
  next_hop_eq address hop (inl (e, is)) =
      let same : (address == 0) ≡ true = ground arith in is ∙ rw same refl
  next_hop_eq address hop (inr (e, is)) = elim (Bool-cases (address == 0)) [
    | inl same ↦ absurd (e (ground arith))
    | inr differs ↦ is ∙ rw differs refl
  ]

  route_with-IsRoute :
      (entry : List ℕ) (r : Rip.RipRoute nets) (h : IsRoute entry r)
      → r ≡ Rip.route_with nets entry h.network
  route_with-IsRoute entry r h = cc (
    h.prefix_is,
    next_hop_eq (Rip.field nets 12 4 entry) r.next_hop h.next_hop_is,
    h.metric_is,
    h.tag_is,
    h.entry_is,
  )

  route_made-eq :
      (entry : List ℕ) (o : Option Ipv4Net) (r : Rip.RipRoute nets)
      → Rip.route_made nets entry o ≡ some r
      → (network : Ipv4Net) × (o ≡ some network) × (r ≡ Rip.route_with nets entry network)
  route_made-eq entry none r h = cc
  route_made-eq entry (some network) r h = (network, refl, cc)

  route_of-IsRoute :
      (entry : List ℕ) (r : Rip.RipRoute nets)
      → All (λ b. b < 256) entry
      → Rip.route_of nets entry ≡ some r
      → IsRoute entry r
  unfolding Rip.route_of
  route_of-IsRoute entry r small h = elim (Bool-cases (Rip.field nets 0 2 entry == 2)) [
    | inr other ↦ let h' : none ≡ some r = rw other at h in cc
    | inl family ↦
        elim (Bool-cases
          (leb 1 (Rip.field nets 16 4 entry) && leb (Rip.field nets 16 4 entry) 16)) [
            | inr out ↦ let h' : none ≡ some r = rw (family, out) at h in cc
            | inl metric ↦
                elim (Option-cases (contiguous_prefix_length (Rip.field nets 8 4 entry))) [
                  | inl no_prefix ↦
                      let h' : none ≡ some r = rw (family, metric, no_prefix) at h in cc
                  | inr (n, prefix) ↦
                      let (network, accepts, same) =
                        route_made-eq entry _ r (rw (family, metric, prefix) at h) in
                      let (low, mask) =
                        (contiguous_prefix_length_iff _ n (field-lt entry small)).0 prefix in
                      record {
                        family = (==_iff _ 2).0 family;
                        reachable_or_withdrawn = within_sound _ metric;
                        prefix_length = n;
                        at_most_32 = low;
                        netmask = mask;
                        network = network;
                        accepted = accepts;
                        prefix_is = ap (λ (x : Rip.RipRoute nets). x.prefix) same;
                        next_hop_is =
                            rw (ap (λ (x : Rip.RipRoute nets). x.next_hop) same)
                              (next_hop_cases (Rip.field nets 12 4 entry));
                        metric_is = ap (λ (x : Rip.RipRoute nets). x.metric) same;
                        tag_is = ap (λ (x : Rip.RipRoute nets). x.tag) same;
                        entry_is = ap (λ (x : Rip.RipRoute nets). x.raw_entry) same;
                      }
                ]
          ]
  ]

  IsRoute-route_of :
      (entry : List ℕ) (r : Rip.RipRoute nets)
      → All (λ b. b < 256) entry
      → IsRoute entry r
      → Rip.route_of nets entry ≡ some r
  unfolding Rip.route_of
  IsRoute-route_of entry r small h =
      let family : (Rip.field nets 0 2 entry == 2) ≡ true = (==_iff _ 2).1 h.family in
      let metric : (leb 1 (Rip.field nets 16 4 entry) && leb (Rip.field nets 16 4 entry) 16)
          ≡ true =
        within (Rip.field nets 16 4 entry) h.reachable_or_withdrawn in
      let prefix : contiguous_prefix_length (Rip.field nets 8 4 entry) ≡ some h.prefix_length =
        (contiguous_prefix_length_iff _ h.prefix_length (field-lt entry small)).1
          (h.at_most_32, h.netmask) in
      rw (family, metric, prefix, h.accepted) (ap some (sym (route_with-IsRoute entry r h)))

  -- An entry of bytes becomes the route `r` exactly if it is `r` as the protocol says.
  pub route_of_iff :
      (entry : List ℕ) (r : Rip.RipRoute nets)
      → All (λ b. b < 256) entry
      → (Rip.route_of nets entry ≡ some r) ↔ IsRoute entry r
  route_of_iff entry r small = (route_of-IsRoute entry r small, IsRoute-route_of entry r small)

  -- A datagram that is accepted is a version 2 response with zero reserved bytes, of at most 25 whole
  -- entries.
  pub parse_response_strict :
      (command version r1 r2 : ℕ) (body : List ℕ) (routes : List (Rip.RipRoute nets))
      → Rip.parse_response nets (command ∷ version ∷ r1 ∷ r2 ∷ body) ≡ some routes
      → (command ≡ 2) × (version ≡ 2) × (r1 ≡ 0) × (r2 ≡ 0) × IsResponse body
  unfolding Rip.parse_response
  parse_response_strict command version r1 r2 body routes h = ground arith
