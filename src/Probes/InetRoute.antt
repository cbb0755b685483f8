-- ===== src/Probes/InetRoute.antt =====
-- src/probes/inet_route.rs: the rows of `inetCidrRouteTable`. A reader's position in the index is what is
-- left of it.
pub mod Layout
pub mod Exact
pub mod Harvest
pub mod Table
pub mod Stated
use idnx.Common.{
  ℕ, zero, suc, Bool, true, false, ◌==◌, ltb, Option, none, some, List, [], ◌∷◌, ◌++◌, length, take,
  drop, if◌then◌else◌,
}
use idnx.Common.Bytes.{from_be_bytes}
use idnx.Probes.Snmp.{Oid}

pub data InetAddressType : Type 0 where
  unknown ipv4 ipv6 ipv4z ipv6z : InetAddressType

-- `InetAddressType::from_subid`
unfoldable pub from_subid : ℕ → Option InetAddressType
from_subid n =
    if n == 0
    then some InetAddressType.unknown
    else if n == 1
    then some InetAddressType.ipv4
    else if n == 2
    then some InetAddressType.ipv6
    else if n == 3
    then some InetAddressType.ipv4z
    else if n == 4
    then some InetAddressType.ipv6z
    else none

unfoldable pub address_len : InetAddressType → ℕ
address_len InetAddressType.unknown = 0
address_len InetAddressType.ipv4 = 4
address_len InetAddressType.ipv6 = 16
address_len InetAddressType.ipv4z = 8
address_len InetAddressType.ipv6z = 20

unfoldable pub max_prefix_len : InetAddressType → ℕ
max_prefix_len InetAddressType.unknown = 0
max_prefix_len InetAddressType.ipv4 = 32
max_prefix_len InetAddressType.ipv6 = 128
max_prefix_len InetAddressType.ipv4z = 32
max_prefix_len InetAddressType.ipv6z = 128

-- An address by its octets.
pub data IpAddr : Type 0 where
  v4 v6 : List ℕ → IpAddr

pub record InetAddress : Type 0 where
  pub family : InetAddressType
  pub address : Option IpAddr
  pub zone : Option ℕ

-- `InetAddress::usable_as_identity`
unfoldable pub usable_as_identity : InetAddress → Bool
usable_as_identity a = elim a.address [
  | none ↦ false
  | some _ ↦ elim a.zone [ none ↦ true | some _ ↦ false ]
]

pub record InetRouteIndex : Type 0 where
  pub destination : InetAddress
  pub prefix_len : ℕ
  pub policy : Oid
  pub next_hop : InetAddress

infixl 5 ◌>>=◌
abbrev pub ◌>>=◌ {ℓ κ} : {A : Type ℓ} {B : Type κ} → Option A → (A → Option B) → Option B
none >>= f = none
some a >>= f = f a

-- `get(at)`, `get(at..at + n)`, and what is left behind.
abbrev pub next : List ℕ → Option (ℕ × List ℕ)
next [] = none
next (x ∷ xs) = some (x, xs)

unfoldable pub next_many : ℕ → List ℕ → Option (List ℕ × List ℕ)
next_many n xs = if ltb (length xs) n then none else some (take n xs, drop n xs)

-- `u8::try_from` of each.
unfoldable pub octets_of : List ℕ → Option (List ℕ)
octets_of [] = some []
octets_of (x ∷ xs) =
    let rest = octets_of xs in if ltb x 256 then (do bs ← rest; some (x ∷ bs)) else none

unfoldable pub address_of : InetAddressType → List ℕ → InetAddress
address_of InetAddressType.unknown bs = record {
  family = InetAddressType.unknown;
  address = none;
  zone = none;
}
address_of InetAddressType.ipv4 bs = record {
  family = InetAddressType.ipv4;
  address = some (v4 bs);
  zone = none;
}
address_of InetAddressType.ipv6 bs = record {
  family = InetAddressType.ipv6;
  address = some (v6 bs);
  zone = none;
}
address_of InetAddressType.ipv4z bs = record {
  family = InetAddressType.ipv4z;
  address = some (v4 (take 4 bs));
  zone = some (from_be_bytes (drop 4 bs));
}
address_of InetAddressType.ipv6z bs = record {
  family = InetAddressType.ipv6z;
  address = some (v6 (take 16 bs));
  zone = some (from_be_bytes (drop 16 bs));
}

-- The octets of a family, which declares their number.
unfoldable pub read_octets : InetAddressType → ℕ → List ℕ → Option (InetAddress × List ℕ)
read_octets family declared subids =
    if declared == address_len family
    then (do
      (octets, rest) ← next_many declared subids
      bs ← octets_of octets
      some (address_of family bs, rest))
    else none

unfoldable pub read_address : List ℕ → Option (InetAddress × List ℕ)
read_address subids = do
  (subid, s1) ← next subids
  family ← from_subid subid
  (declared, s2) ← next s1
  read_octets family declared s2

-- The end of the index, which leaves nothing.
abbrev pub if_consumed : InetAddress → ℕ → Oid → InetAddress × List ℕ → Option InetRouteIndex
if_consumed destination prefix_len policy (next_hop, []) = some (record {
  destination = destination;
  prefix_len = prefix_len;
  policy = policy;
  next_hop = next_hop;
})
if_consumed destination prefix_len policy (next_hop, x ∷ xs) = none

-- The index behind a prefix length that the destination's family admits.
unfoldable pub read_policy : InetAddress → ℕ → List ℕ → Option InetRouteIndex
read_policy destination prefix_len subids = do
  (policy_len, s1) ← next subids
  (policy, s2) ← next_many policy_len s1
  hop ← read_address s2
  if_consumed destination prefix_len policy hop

unfoldable pub if_admitted : InetAddress → ℕ → List ℕ → Option InetRouteIndex
if_admitted destination prefix_len subids =
    if ltb prefix_len 256
    then (if ltb (max_prefix_len destination.family) prefix_len
        then none
        else read_policy destination prefix_len subids)
    else none

unfoldable pub parse_index : List ℕ → Option InetRouteIndex
parse_index subids = do
  (destination, s1) ← read_address subids
  (prefix_len, s2) ← next s1
  if_admitted destination prefix_len s2

-- Why a column could not be read, in place of the text that says it.
pub data Unreadable : Type 0 where
  not_an_integer : Unreadable
  not_enumerated : ℕ → Unreadable

pub data Column {ℓ} (A : Type ℓ) : Type ℓ where
  missing : Column A
  valid : A → Column A
  invalid : Unreadable → Column A

pub data RouteType : Type 0 where
  other reject local remote blackhole : RouteType

-- `RouteType::from_value`, of an `i64` by its two's complement.
unfoldable pub from_value : ℕ → Option RouteType
from_value n =
    if n == 1
    then some other
    else if n == 2
    then some reject
    else if n == 3
    then some local
    else if n == 4
    then some remote
    else if n == 5
    then some blackhole
    else none

-- `RouteType::discards`
unfoldable pub discards : RouteType → Bool
discards reject = true
discards blackhole = true
discards kind = false

pub record InetRoute : Type 0 where
  pub index : InetRouteIndex
  pub instance_oid : Oid
  pub if_index : Option ℕ
  pub route_type : Column RouteType
  pub proto : Option ℕ
  pub metric : Option ℕ
  pub status : Column ℕ

-- `InetRoute::active`
unfoldable pub active : InetRoute → Bool
active r = elim r.status [ missing ↦ false | valid n ↦ n == 1 | invalid _ ↦ false ]

-- Whether every octet is zero, as `is_unspecified` of either kind of address.
unfoldable pub all_zero : List ℕ → Bool
all_zero [] = true
all_zero (b ∷ bs) = let rest = all_zero bs in if b == 0 then rest else false

unfoldable pub is_unspecified : IpAddr → Bool
is_unspecified (v4 octets) = all_zero octets
is_unspecified (v6 octets) = all_zero octets

abbrev if_specified : Option IpAddr → Option IpAddr
if_specified none = none
if_specified (some a) = if is_unspecified a then none else some a

-- `InetRoute::usable_next_hop`
unfoldable pub usable_next_hop : InetRoute → Option IpAddr
usable_next_hop r =
    let hop = r.index.next_hop in
    let found = if_specified hop.address in if usable_as_identity hop then found else none
