-- ===== src/Probes/InetRoute/Exact.antt =====
-- `parse_index` of src/probes/inet_route.rs reads the layout of an index and nothing else.
use mathlib.Core.List.{append-nil}
use idnx.Common.{
  ℕ, ◌≤◌, ◌≡◌, ◌↔◌, inl, inr, refl, sym, ap, ◌∙◌, true, false, ◌==◌, ltb, Bool-cases, Option-cases,
  some, List, [], ◌∷◌, ◌++◌, length, arith,
}
use idnx.Probes.Snmp.{Oid}
use idnx.Probes.InetRoute.{
  InetAddressType, from_subid, address_len, max_prefix_len, InetAddress, InetRouteIndex, ◌>>=◌,
  next, next_many, octets_of, address_of, read_octets, read_address, read_policy, if_admitted,
  parse_index,
}
use idnx.Probes.InetRoute.Layout.{
  subid_of, address_octets, encode_address, encode_index, IsInetAddress, IsIndex, octets_of-All,
  All-octets_of, next_many-append, next_many-eq, address_of-IsInetAddress,
  address_of-address_octets, from_subid-subid_of, from_subid-eq, IsOctets,
}

read_octets-append :
    (family : InetAddressType) (bs rest : List ℕ)
    → IsOctets (address_len family) bs
    → read_octets family (address_len family) (bs ++ rest) ≡ some (address_of family bs, rest)
unfolding read_octets
read_octets-append family bs rest h =
    let same : (address_len family == address_len family) ≡ true = ground arith in
    rw (same, next_many-append (address_len family) bs rest h.0, All-octets_of bs h.1) refl

read_octets-eq :
    (family : InetAddressType) (declared : ℕ) (subids rest : List ℕ) (a : InetAddress)
    → read_octets family declared subids ≡ some (a, rest)
    → (declared ≡ address_len family)
      × ((bs : List ℕ) × (subids ≡ bs ++ rest)
          × IsOctets (address_len family) bs
          × (address_of family bs ≡ a))
unfolding read_octets
read_octets-eq family declared subids rest a h =
    elim (Bool-cases (declared == address_len family)) [
      | inr apart ↦ absurd (cc (rw apart at h))
      | inl same ↦ elim (Option-cases (next_many declared subids)) [
        | inl short ↦ absurd (cc (rw (same, short) at h))
        | inr ((octets, after), e) ↦ elim (Option-cases (octets_of octets)) [
          | inl large ↦ absurd (cc (rw (same, e, large) at h))
          | inr (bs, e') ↦
              let declared_is : declared ≡ address_len family = ground arith in
              let (is, size) = next_many-eq declared subids octets after e in
              let (same', small) = octets_of-All octets bs e' in
              let result : some (address_of family bs, after) ≡ some (a, rest) =
                rw (same, e, e') at h in
              let rest_is : after ≡ rest = cc result in
              let a_is : address_of family bs ≡ a = cc result in
              (
                declared_is,
                (
                  octets,
                  is ∙ ap (λ (t : List ℕ). octets ++ t) rest_is,
                  (size ∙ declared_is, small),
                  ap (address_of family) same' ∙ a_is,
                ),
              )
        ]
      ]
    ]

read_address-encode_address :
    (a : InetAddress) (rest : List ℕ)
    → IsInetAddress a
    → read_address (encode_address a ++ rest) ≡ some (a, rest)
unfolding read_address
read_address-encode_address a rest h =
    let (octets, same) = address_of-address_octets a.family a.address a.zone h in
    rw
      (
        from_subid-subid_of a.family,
        read_octets-append a.family (address_octets a) rest octets,
        same,
      )
      refl

read_address-eq :
    (subids rest : List ℕ) (a : InetAddress)
    → read_address subids ≡ some (a, rest)
    → (subids ≡ encode_address a ++ rest) × IsInetAddress a
unfolding read_address
read_address-eq [] rest a h = absurd (cc h)
read_address-eq (subid ∷ s1) rest a h = elim (Option-cases (from_subid subid)) [
  | inl unread ↦ absurd (cc (rw unread at h))
  | inr (family, e) ↦ declares s1 family (from_subid-eq subid family e) (rw e at h)
]
  where
    declares :
        (s1 : List ℕ) (family : InetAddressType)
        → subid ≡ subid_of family
        → (next s1 >>= λ (declared, s2). read_octets family declared s2) ≡ some (a, rest)
        → (subid ∷ s1 ≡ encode_address a ++ rest) × IsInetAddress a
    declares [] family is k = absurd (cc k)
    declares (declared ∷ s2) family is k =
        let (len, (bs, same, octets, made)) = read_octets-eq family declared s2 rest a k in
        let (right, kind, own) = address_of-IsInetAddress family bs octets in
        rw⁻¹ made (rw (kind, own) (rw (is, len, same) refl), right)

max_prefix_len-le : (family : InetAddressType) → max_prefix_len family ≤ 128
unfolding max_prefix_len
max_prefix_len-le InetAddressType.unknown = omega arith
max_prefix_len-le InetAddressType.ipv4 = omega arith
max_prefix_len-le InetAddressType.ipv6 = omega arith
max_prefix_len-le InetAddressType.ipv4z = omega arith
max_prefix_len-le InetAddressType.ipv6z = omega arith

parse_index-encode_index : (i : InetRouteIndex) → IsIndex i → parse_index (encode_index i) ≡ some i
unfolding parse_index if_admitted read_policy
parse_index-encode_index i h =
    let most = max_prefix_len-le i.destination.family in
    let admitted = h.admitted in
    let small : ltb i.prefix_len 256 ≡ true = ground arith in
    let within : ltb (max_prefix_len i.destination.family) i.prefix_len ≡ false = ground arith in
    let last =
      ap read_address (sym (append-nil (encode_address i.next_hop)))
      ∙ read_address-encode_address i.next_hop [] h.next_hop_is in
    rw
      (
        read_address-encode_address i.destination
            (i.prefix_len ∷ length i.policy ∷ (i.policy ++ encode_address i.next_hop))
            h.destination_is,
        small,
        within,
        next_many-append (length i.policy) i.policy (encode_address i.next_hop) refl,
        last,
      )
      refl

read_policy-eq :
    (destination : InetAddress) (prefix_len : ℕ) (subids : List ℕ) (i : InetRouteIndex)
    → read_policy destination prefix_len subids ≡ some i
    → (policy : Oid) × (hop : InetAddress) × (i ≡ record {
      destination = destination;
      prefix_len = prefix_len;
      policy = policy;
      next_hop = hop;
    })
      × (subids ≡ length policy ∷ (policy ++ encode_address hop))
      × IsInetAddress hop
unfolding read_policy
read_policy-eq destination prefix_len [] i h = absurd (cc h)
read_policy-eq destination prefix_len (policy_len ∷ s1) i h =
    elim (Option-cases (next_many policy_len s1)) [
      | inl short ↦ absurd (cc (rw short at h))
      | inr ((policy, s2), e) ↦ elim (Option-cases (read_address s2)) [
        | inl unread ↦ absurd (cc (rw (e, unread) at h))
        | inr ((hop, []), e') ↦
            let (is, size) = next_many-eq policy_len s1 policy s2 e in
            let (hop_is, right) = read_address-eq s2 [] hop e' in
            let made : some i
                ≡ some (record {
                  destination = destination;
                  prefix_len = prefix_len;
                  policy = policy;
                  next_hop = hop;
                }) =
              sym (rw (e, e') at h) in
            (
              policy,
              hop,
              cc made,
              rw (sym size, is, hop_is, append-nil (encode_address hop)) refl,
              right,
            )
        | inr ((hop, x ∷ xs), e') ↦ absurd (cc (rw (e, e') at h))
      ]
    ]

parse_index-eq :
    (subids : List ℕ) (i : InetRouteIndex)
    → parse_index subids ≡ some i
    → (subids ≡ encode_index i) × IsIndex i
unfolding parse_index if_admitted
parse_index-eq subids i h = elim (Option-cases (read_address subids)) [
  | inl unread ↦ absurd (cc (rw unread at h))
  | inr ((destination, []), e) ↦ absurd (cc (rw e at h))
  | inr ((destination, prefix_len ∷ s2), e) ↦ elim (Bool-cases (ltb prefix_len 256)) [
    | inr large ↦ absurd (cc (rw (e, large) at h))
    | inl small ↦ elim (Bool-cases (ltb (max_prefix_len destination.family) prefix_len)) [
      | inl over ↦ absurd (cc (rw (e, small, over) at h))
      | inr within ↦
          let (is, kind) = read_address-eq subids (prefix_len ∷ s2) destination e in
          let (policy, hop, made, behind, hop_is) =
            read_policy-eq destination prefix_len s2 i (rw (e, small, within) at h) in
          rw made (
            is ∙ ap (λ (t : List ℕ). encode_address destination ++ (prefix_len ∷ t)) behind,
            record { destination_is = kind; admitted = ground arith; next_hop_is = hop_is },
          )
    ]
  ]
]

-- Subidentifiers are read as an index exactly if they are, in this order and with nothing behind them, its
-- destination by type, length and octets, a prefix length that the type admits, the policy behind its
-- length, and the next hop as the destination; where an address is of its type, with octets below 256 and
-- a zone of 32 bits exactly in a zoned type.
pub parse_index_iff :
    (subids : List ℕ) (i : InetRouteIndex)
    → (parse_index subids ≡ some i) ↔ ((subids ≡ encode_index i) × IsIndex i)
parse_index_iff subids i =
    (parse_index-eq subids i, λ (is, h). ap parse_index is ∙ parse_index-encode_index i h)
