-- ===== src/Probes/InetRoute/Layout.antt =====
-- The index of a row in src/probes/inet_route.rs, against its layout in RFC 4292.
use mathlib.Core.List.{append-nil}
use idnx.Common.{
  ℕ, zero, suc, ◌+◌, ◌*◌, ◌/◌, ◌%◌, ◌^◌, ◌≤◌, ◌<◌, ◌≡◌, inl, inr, refl, sym, ap, ◌∙◌, true, false,
  ltb, Bool-cases, Option-cases, Option, none, some, List, [], ◌∷◌, ◌++◌, length, length-append,
  take, drop, take-append, take-drop, All, All-last, All-append, All-take, All-drop, arith,
}
use idnx.Common.Bytes.{
  from_be_bytes, from_be_bytes_on, to_be_bytes, length-to_be_bytes, from_be_bytes-to_be_bytes,
  from_be_bytes-lt,
}
use idnx.Probes.InetRoute.{
  InetAddressType, from_subid, address_len, max_prefix_len, IpAddr, v4, v6, InetAddress,
  InetRouteIndex, next_many, octets_of, address_of,
}

-- RFC 4001's number of a type.
abbrev pub subid_of : InetAddressType → ℕ
subid_of InetAddressType.unknown = 0
subid_of InetAddressType.ipv4 = 1
subid_of InetAddressType.ipv6 = 2
subid_of InetAddressType.ipv4z = 3
subid_of InetAddressType.ipv6z = 4

abbrev pub ip_octets : Option IpAddr → List ℕ
ip_octets none = []
ip_octets (some (v4 octets)) = octets
ip_octets (some (v6 octets)) = octets

abbrev pub zone_octets : Option ℕ → List ℕ
zone_octets none = []
zone_octets (some zone) = to_be_bytes 4 zone

abbrev pub address_octets : InetAddress → List ℕ
address_octets a = ip_octets a.address ++ zone_octets a.zone

-- Type, length and octets; and a whole index.
abbrev pub encode_address : InetAddress → List ℕ
encode_address a = subid_of a.family ∷ address_len a.family ∷ address_octets a

abbrev pub encode_index : InetRouteIndex → List ℕ
encode_index i =
    encode_address i.destination
    ++ (i.prefix_len ∷ length i.policy ∷ (i.policy ++ encode_address i.next_hop))

abbrev pub IsOctets : ℕ → List ℕ → Type 0
IsOctets n octets = (length octets ≡ n) × All (λ b. b < 256) octets

-- The address and the zone that a type has.
abbrev pub IsInetAddress : InetAddress → Type 0
IsInetAddress a = elim a.family [
  | InetAddressType.unknown ↦ (a.address ≡ none) × (a.zone ≡ none)
  | InetAddressType.ipv4 ↦
      ((os : List ℕ) × (a.address ≡ some (v4 os)) × IsOctets 4 os) × (a.zone ≡ none)
  | InetAddressType.ipv6 ↦
      ((os : List ℕ) × (a.address ≡ some (v6 os)) × IsOctets 16 os) × (a.zone ≡ none)
  | InetAddressType.ipv4z ↦
      ((os : List ℕ) × (a.address ≡ some (v4 os)) × IsOctets 4 os)
      × ((z : ℕ) × (a.zone ≡ some z) × (z < 2 ^ 32))
  | InetAddressType.ipv6z ↦
      ((os : List ℕ) × (a.address ≡ some (v6 os)) × IsOctets 16 os)
      × ((z : ℕ) × (a.zone ≡ some z) × (z < 2 ^ 32))
]

-- The destination's family admits the prefix length, and both addresses are those of their types.
pub record IsIndex (i : InetRouteIndex) : Type 0 where
  pub destination_is : IsInetAddress i.destination
  pub admitted : i.prefix_len ≤ max_prefix_len i.destination.family
  pub next_hop_is : IsInetAddress i.next_hop

pub octets_of-All : (xs bs : List ℕ) → octets_of xs ≡ some bs → (xs ≡ bs) × All (λ b. b < 256) xs
unfolding octets_of
octets_of-All [] bs h = (cc h, tt)
octets_of-All (x ∷ xs) bs h = elim (Bool-cases (ltb x 256)) [
  | inr large ↦ absurd (cc (rw large at h))
  | inl small ↦ elim (Option-cases (octets_of xs)) [
    | inl nothing ↦ absurd (cc (rw (small, nothing) at h))
    | inr (rest, e) ↦
        let (same, all) = octets_of-All xs rest e in
        let whole : some (x ∷ rest) ≡ some bs = rw (small, e) at h in (cc, (ground arith, all))
  ]
]

pub All-octets_of : (xs : List ℕ) → All (λ b. b < 256) xs → octets_of xs ≡ some xs
unfolding octets_of
All-octets_of [] h = refl
All-octets_of (x ∷ xs) h =
    let small : ltb x 256 ≡ true = (let l = h.0 in ground arith) in
    rw (small, All-octets_of xs h.1) refl

pub next_many-append :
    (n : ℕ) (xs ys : List ℕ) → length xs ≡ n → next_many n (xs ++ ys) ≡ some (xs, ys)
unfolding next_many
next_many-append n xs ys h =
    let fits : ltb (length (xs ++ ys)) n ≡ false = (let l = length-append xs ys in ground arith) in
    let (front, back) = take-append n xs ys h in rw (fits, front, back) refl

length-take : (n : ℕ) (xs : List ℕ) → n ≤ length xs → length (take n xs) ≡ n
length-take zero xs h = refl
length-take (suc n) [] h = absurd (omega arith)
length-take (suc n) (x ∷ xs) h = omega (arith, length-take n xs (omega arith))

pub next_many-eq :
    (n : ℕ) (xs front back : List ℕ)
    → next_many n xs ≡ some (front, back)
    → (xs ≡ front ++ back) × (length front ≡ n)
unfolding next_many
next_many-eq n xs front back h = elim (Bool-cases (ltb (length xs) n)) [
  | inl short ↦ absurd (cc (rw short at h))
  | inr fits ↦
      let same = take-drop n xs in
      let size = length-take n xs (ground arith) in
      let whole : some (take n xs, drop n xs) ≡ some (front, back) = rw fits at h in
      let first : take n xs ≡ front = cc whole in
      let second : drop n xs ≡ back = cc whole in
      (cc (same, first, second), ap length (sym first) ∙ size)
]

All-to_be_bytes : (w n : ℕ) → All (λ b. b < 256) (to_be_bytes w n)
unfolding to_be_bytes
All-to_be_bytes zero n = tt
All-to_be_bytes (suc w) n =
    All-last (λ b. b < 256) (to_be_bytes w (n / 256)) (n % 256) (All-to_be_bytes w (n / 256))
      (omega arith)

IsOctets-to_be_bytes : (w n : ℕ) → IsOctets w (to_be_bytes w n)
IsOctets-to_be_bytes w n = (length-to_be_bytes w n, All-to_be_bytes w n)

digits :
    (a b c d : ℕ)
    → a < 256
    → b < 256
    → c < 256
    → d < 256
    → (let n = (((0 + a) * 256 + b) * 256 + c) * 256 + d in
        (n / 256 / 256 / 256 % 256 ≡ a)
        × (n / 256 / 256 % 256 ≡ b)
        × (n / 256 % 256 ≡ c)
        × (n % 256 ≡ d))
digits a b c d ha hb hc hd = omega arith

-- Four octets are the word that they stand for.
word_back : (bs : List ℕ) → IsOctets 4 bs → to_be_bytes 4 (from_be_bytes bs) ≡ bs
unfolding to_be_bytes from_be_bytes from_be_bytes_on
word_back [] (size, small) = absurd (omega arith)
word_back (a ∷ []) (size, small) = absurd (omega arith)
word_back (a ∷ b ∷ []) (size, small) = absurd (omega arith)
word_back (a ∷ b ∷ c ∷ []) (size, small) = absurd (omega arith)
word_back (a ∷ b ∷ c ∷ d ∷ []) (size, (ha, (hb, (hc, (hd, _))))) =
    let (first, second, third, fourth) = digits a b c d ha hb hc hd in
    rw (first, second, third, fourth) refl
word_back (a ∷ b ∷ c ∷ d ∷ e ∷ bs) (size, small) = absurd (omega arith)

zone-lt : (bs : List ℕ) → IsOctets 4 bs → from_be_bytes bs < 2 ^ 32
zone-lt bs (size, small) = omega (arith, from_be_bytes-lt bs 4 small (omega arith))

-- The octets of an address, and the four of a zone behind them.
parts :
    (n : ℕ) (bs : List ℕ)
    → IsOctets (n + 4) bs
    → IsOctets n (take n bs)
      × IsOctets 4 (drop n bs)
      × (take n bs ++ to_be_bytes 4 (from_be_bytes (drop n bs)) ≡ bs)
parts n bs (size, small) =
    let same = take-drop n bs in
    let front = length-take n bs (omega arith) in
    let whole = length-append (take n bs) (drop n bs) in
    let back : IsOctets 4 (drop n bs) =
      (omega (arith, ap length same), All-drop (λ b. b < 256) n bs small) in
    (
      (front, All-take (λ b. b < 256) n bs small),
      back,
      ap (λ (t : List ℕ). take n bs ++ t) (word_back (drop n bs) back) ∙ sym same,
    )

-- A type and its octets are an address exactly by its own encoding.
pub address_of-IsInetAddress :
    (family : InetAddressType) (bs : List ℕ)
    → IsOctets (address_len family) bs
    → IsInetAddress (address_of family bs)
      × ((address_of family bs).family ≡ family)
      × (address_octets (address_of family bs) ≡ bs)
unfolding address_of address_len
address_of-IsInetAddress InetAddressType.unknown [] h = ((refl, refl), refl, refl)
address_of-IsInetAddress InetAddressType.unknown (b ∷ bs) h = absurd (omega (arith, h.0))
address_of-IsInetAddress InetAddressType.ipv4 bs h = (((bs, refl, h), refl), refl, append-nil bs)
address_of-IsInetAddress InetAddressType.ipv6 bs h = (((bs, refl, h), refl), refl, append-nil bs)
address_of-IsInetAddress InetAddressType.ipv4z bs h =
    let (front, back, same) = parts 4 bs h in
    (
      ((take 4 bs, refl, front), (from_be_bytes (drop 4 bs), refl, zone-lt (drop 4 bs) back)),
      refl,
      same,
    )
address_of-IsInetAddress InetAddressType.ipv6z bs h =
    let (front, back, same) = parts 16 bs h in
    (
      ((take 16 bs, refl, front), (from_be_bytes (drop 16 bs), refl, zone-lt (drop 16 bs) back)),
      refl,
      same,
    )

IsOctets-append :
    (n m : ℕ) (xs ys : List ℕ) → IsOctets n xs → IsOctets m ys → IsOctets (n + m) (xs ++ ys)
IsOctets-append n m xs ys (size, small) (size', small') =
    (omega (arith, length-append xs ys), All-append (λ b. b < 256) xs ys small small')

-- The zone that was put behind an address's octets.
zoned :
    (n : ℕ) (os : List ℕ) (z : ℕ)
    → IsOctets n os
    → z < 2 ^ 32
    → IsOctets (n + 4) (os ++ to_be_bytes 4 z)
      × (take n (os ++ to_be_bytes 4 z) ≡ os)
      × (from_be_bytes (drop n (os ++ to_be_bytes 4 z)) ≡ z)
zoned n os z h small =
    let (front, back) = take-append n os (to_be_bytes 4 z) h.0 in
    (
      IsOctets-append n 4 os (to_be_bytes 4 z) h (IsOctets-to_be_bytes 4 z),
      front,
      ap from_be_bytes back ∙ from_be_bytes-to_be_bytes 4 z (omega arith),
    )

-- The address of the octets that an address has.
pub address_of-address_octets :
    (family : InetAddressType) (address : Option IpAddr) (scope : Option ℕ)
    → (let a : InetAddress = record { family = family; address = address; zone = scope } in
        IsInetAddress a
        → IsOctets (address_len family) (address_octets a)
          × (address_of family (address_octets a) ≡ a))
unfolding address_of address_len
address_of-address_octets InetAddressType.unknown address scope (no_address, no_zone) =
    rw (no_address, no_zone) ((refl, tt), refl)
address_of-address_octets InetAddressType.ipv4 address scope ((os, is, octets), no_zone) =
    rw (is, no_zone, append-nil os) (octets, refl)
address_of-address_octets InetAddressType.ipv6 address scope ((os, is, octets), no_zone) =
    rw (is, no_zone, append-nil os) (octets, refl)
address_of-address_octets InetAddressType.ipv4z address scope
      ((os, is, octets), (z, is_zone, small)) =
    let (all, front, back) = zoned 4 os z octets small in rw (is, is_zone, front, back) (all, refl)
address_of-address_octets InetAddressType.ipv6z address scope
      ((os, is, octets), (z, is_zone, small)) =
    let (all, front, back) = zoned 16 os z octets small in rw (is, is_zone, front, back) (all, refl)

pub from_subid-subid_of : (family : InetAddressType) → from_subid (subid_of family) ≡ some family
unfolding from_subid
from_subid-subid_of InetAddressType.unknown = refl
from_subid-subid_of InetAddressType.ipv4 = refl
from_subid-subid_of InetAddressType.ipv6 = refl
from_subid-subid_of InetAddressType.ipv4z = refl
from_subid-subid_of InetAddressType.ipv6z = refl

pub from_subid-eq :
    (n : ℕ) (family : InetAddressType) → from_subid n ≡ some family → n ≡ subid_of family
unfolding from_subid
from_subid-eq n InetAddressType.unknown h = ground arith
from_subid-eq n InetAddressType.ipv4 h = ground arith
from_subid-eq n InetAddressType.ipv6 h = ground arith
from_subid-eq n InetAddressType.ipv4z h = ground arith
from_subid-eq n InetAddressType.ipv6z h = ground arith
