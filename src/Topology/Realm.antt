-- ===== src/Topology/Realm.antt =====
-- src/topology/realm.rs: the domain that an identifier is unique in. An IPv4 address is its octets and
-- an IPv6 address its first segment and the seven others.
pub mod Domains
pub mod Apart
use idnx.Common.{
  ℕ, ◌+◌, ◌-◌, ◌*◌, ◌/◌, ◌%◌, Text, Bool, true, false, not, ◌&&◌, ◌||◌, ◌==◌, leb, ltb, Option,
  none, some, List, [], ◌∷◌, ◌++◌, if◌then◌else◌, All, ◌≡◌,
}
use idnx.Federation.Identity.{nibble}
use idnx.Topology.Evidence.{DeviceKey, PeerOrigin}

pub data IpAddr : Type 0 where
  v4 : ℕ → ℕ → ℕ → ℕ → IpAddr
  v6 : ℕ → List ℕ → IpAddr

pub data Realm : Type 0 where
  this_machine : Realm
  peer : Text → Text → Realm

-- `Realm::of`
unfoldable pub realm_of : Option PeerOrigin → Realm
realm_of none = this_machine
realm_of (some origin) = peer origin.peer origin.vantage

abbrev pub is_local : Realm → Bool
is_local this_machine = true
is_local (peer p v) = false

-- `Realm::suffix`
unfoldable pub suffix : Realm → Text
suffix this_machine = []
suffix (peer p v) = b'@' ∷ (p ++ b'/' ∷ v)

abbrev pub in_front : ℕ → Option (Text × Text) → Option (Text × Text)
in_front b none = none
in_front b (some (before, after)) = some (b ∷ before, after)

-- `str::split_once` at a byte.
unfoldable pub split_once : ℕ → Text → Option (Text × Text)
split_once c [] = none
split_once c (b ∷ s) = let rest = split_once c s in if b == c then some ([], s) else in_front b rest

-- `(!text.is_empty()).then(..)`
abbrev pub unless_empty : Text → Option Text
unless_empty [] = none
unless_empty (b ∷ s) = some (b ∷ s)

abbrev pub qualified_by : Text → Text → Option (Text × Text) → Option Text × Realm
qualified_by zone base none = (some zone, this_machine)
qualified_by zone base (some (p, v)) = (unless_empty base, peer p v)

abbrev pub zone_parts : Text → Option (Text × Text) → Option Text × Realm
zone_parts zone none = (unless_empty zone, this_machine)
zone_parts zone (some (base, qualifier)) = qualified_by zone base (split_once b'/' qualifier)

unfoldable pub split_qualified_zone : Text → Option Text × Realm
split_qualified_zone zone = zone_parts zone (split_once b'@' zone)

unfoldable pub realm_of_key : DeviceKey IpAddr → Realm
realm_of_key (DeviceKey.scoped_address a zone) = (split_qualified_zone zone).1
realm_of_key (DeviceKey.mac m) = (split_qualified_zone m).1
realm_of_key (DeviceKey.address a) = this_machine

abbrev pub is_private : ℕ → ℕ → Bool
is_private a b = (a == 10) || (a == 172 && b / 16 == 1) || (a == 192 && b == 168)

-- All of the other segments but the last are zero.
abbrev pub are_low : List ℕ → ℕ → Bool
are_low [] n = false
are_low (s ∷ []) n = s == n
are_low (s ∷ t ∷ segments) n = s == 0 && are_low (t ∷ segments) n

-- The masks of the first segment are the quotients by the powers of two that they leave out.
unfoldable pub is_globally_unique_address : IpAddr → Bool
is_globally_unique_address (v4 a b c d) =
    not (is_private a b)
    && not (a == 169 && b == 254)
    && not (a == 127)
    && not (a == 0 && b == 0 && c == 0 && d == 0)
    && not (a == 255 && b == 255 && c == 255 && d == 255)
    && not (a == 100 && leb 64 b && ltb b 128)
is_globally_unique_address (v6 s segments) =
    not (s / 64 == 65152 / 64)
    && not (s / 512 == 64512 / 512)
    && not (s == 0 && are_low segments 1)
    && not (s == 0 && are_low segments 0)
    && not (s / 256 == 255)

abbrev pub until_colon : Text → Option (Text × Text) → Text
until_colon mac none = mac
until_colon mac (some (first, rest)) = first

abbrev pub next_octet : ℕ → Option ℕ → Option ℕ
next_octet acc none = none
next_octet acc (some d) = if ltb 255 (acc * 16 + d) then none else some (acc * 16 + d)

abbrev pub then_octet : Option ℕ → (ℕ → Option ℕ) → Option ℕ
then_octet none next = none
then_octet (some n) next = next n

unfoldable pub hex_octet_from : ℕ → Text → Option ℕ
hex_octet_from acc [] = some acc
hex_octet_from acc (b ∷ s) = then_octet (next_octet acc (nibble b)) (λ n. hex_octet_from n s)

-- `u8::from_str_radix(text, 16)`, which takes a sign and refuses what does not fit.
unfoldable pub hex_octet : Text → Option ℕ
hex_octet [] = none
hex_octet (b ∷ []) = hex_octet_from 0 (b ∷ [])
hex_octet (b ∷ c ∷ s) = if b == b'+' then hex_octet_from 0 (c ∷ s) else hex_octet_from 0 (b ∷ c ∷ s)

abbrev pub is_universal : Option ℕ → Bool
is_universal none = false
is_universal (some octet) = octet / 2 % 2 == 0

unfoldable pub is_globally_unique_mac : Text → Bool
is_globally_unique_mac mac = is_universal (hex_octet (until_colon mac (split_once b':' mac)))

abbrev pub qualify : Realm → DeviceKey IpAddr → DeviceKey IpAddr
qualify realm (DeviceKey.mac m) =
    if is_globally_unique_mac m then DeviceKey.mac m else DeviceKey.mac (m ++ suffix realm)
qualify realm (DeviceKey.address a) =
    if is_globally_unique_address a
    then DeviceKey.address a
    else DeviceKey.scoped_address a (suffix realm)
qualify realm (DeviceKey.scoped_address a zone) = DeviceKey.scoped_address a (zone ++ suffix realm)

unfoldable pub qualify_device : DeviceKey IpAddr → Realm → DeviceKey IpAddr
qualify_device key realm = if is_local realm then key else qualify realm key

unfoldable pub address_realm : IpAddr → Realm → Realm
address_realm address realm = if is_globally_unique_address address then this_machine else realm

-- `network_realm`, of a prefix by its address.
abbrev pub network_realm : IpAddr → Realm → Realm
network_realm prefix realm = address_realm prefix realm
