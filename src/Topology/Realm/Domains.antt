-- ===== src/Topology/Realm/Domains.antt =====
-- What src/topology/realm.rs makes of a name with a domain, and reads back.
use mathlib.Core.List.{append-nil}
use idnx.Common.{
  ℕ, ◌≡◌, ◌≢◌, refl, ap, Text, Bool, false, Option, none, some, [], ◌∷◌, ◌++◌, arith, Bool-cases,
  inl, inr, ◌==◌, if◌then◌else◌, All,
}
use idnx.Topology.Evidence.{DeviceKey}
use idnx.Topology.Realm.{
  IpAddr, Realm, this_machine, peer, is_local, suffix, split_once, unless_empty,
  split_qualified_zone, realm_of_key, is_globally_unique_address, is_globally_unique_mac,
  qualify_device,
}

-- No byte of the text is this one.
abbrev pub HasNone : ℕ → Text → Type 0
HasNone c text = All (λ b. (b == c) ≡ false) text

-- A peer's identity has no slash.
abbrev pub IsName : Realm → Type 0
IsName this_machine = Unit
IsName (peer p v) = HasNone b'/' p

split_once-none : (c : ℕ) (text : Text) → HasNone c text → split_once c text ≡ none
unfolding split_once
split_once-none c [] h = refl
split_once-none c (b ∷ text) h = rw (h.0, split_once-none c text h.1) refl

split_once-append :
    (c : ℕ) (text rest : Text)
    → HasNone c text
    → split_once c (text ++ c ∷ rest) ≡ some (text, rest)
unfolding split_once
split_once-append c [] rest h = ground arith
split_once-append c (b ∷ text) rest h = rw (h.0, split_once-append c text rest h.1) refl

-- A name without `@` that a domain qualified is split into the name and the domain, where the peer's
-- identity has no slash; an empty name is none.
pub split-suffix :
    (base : Text) (r : Realm)
    → HasNone b'@' base
    → IsName r
    → split_qualified_zone (base ++ suffix r) ≡ (unless_empty base, r)
unfolding split_qualified_zone suffix
split-suffix base this_machine h named = rw (append-nil base, split_once-none b'@' base h) refl
split-suffix base (peer p v) h named =
    rw (split_once-append b'@' base (p ++ b'/' ∷ v) h, split_once-append b'/' p v named) refl

-- Keys as observed: without `@`, and with a zone that is not empty.
abbrev pub IsPlain : DeviceKey IpAddr → Type 0
IsPlain (DeviceKey.mac m) = HasNone b'@' m
IsPlain (DeviceKey.address a) = Unit
IsPlain (DeviceKey.scoped_address a zone) = HasNone b'@' zone × (zone ≢ [])

-- Whether a key is unique worldwide.
abbrev pub is_unique : DeviceKey IpAddr → Bool
is_unique (DeviceKey.mac m) = is_globally_unique_mac m
is_unique (DeviceKey.address a) = is_globally_unique_address a
is_unique (DeviceKey.scoped_address a zone) = false

abbrev pub domain_of : DeviceKey IpAddr → Realm → Realm
domain_of key r = if is_unique key then this_machine else r

pub qualify_mac :
    (m : Text) (r : Realm)
    → qualify_device (DeviceKey.mac m) r
      ≡ DeviceKey.mac (m ++ suffix (domain_of (DeviceKey.mac m) r))
unfolding qualify_device suffix
qualify_mac m this_machine = elim (Bool-cases (is_globally_unique_mac m)) [
  | inl unique ↦ rw (unique, append-nil m) refl
  | inr ambiguous ↦ rw (ambiguous, append-nil m) refl
]
qualify_mac m (peer p v) = elim (Bool-cases (is_globally_unique_mac m)) [
  | inl unique ↦ rw (unique, append-nil m) refl
  | inr ambiguous ↦ rw ambiguous refl
]

pub qualify_scoped :
    (a : IpAddr) (zone : Text) (r : Realm)
    → qualify_device (DeviceKey.scoped_address a zone) r
      ≡ DeviceKey.scoped_address a (zone ++ suffix r)
unfolding qualify_device suffix
qualify_scoped a zone this_machine = rw (append-nil zone) refl
qualify_scoped a zone (peer p v) = refl

pub domain_of-IsName : (key : DeviceKey IpAddr) (r : Realm) → IsName r → IsName (domain_of key r)
domain_of-IsName key r named = elim (Bool-cases (is_unique key)) [
  | inl unique ↦ rw unique tt
  | inr ambiguous ↦ rw ambiguous named
]

pub qualify_address :
    (a : IpAddr) (r : Realm)
    → is_local r ≡ false
    → qualify_device (DeviceKey.address a) r ≡ (
        if is_globally_unique_address a
        then DeviceKey.address a
        else DeviceKey.scoped_address a (suffix r))
unfolding qualify_device
qualify_address a this_machine h = absurd (cc)
qualify_address a (peer p v) h = refl

address_domain :
    (a : IpAddr) (r : Realm)
    → IsName r
    → realm_of_key (qualify_device (DeviceKey.address a) r) ≡ domain_of (DeviceKey.address a) r
unfolding realm_of_key qualify_device
address_domain a this_machine named = elim (Bool-cases (is_globally_unique_address a)) [
  | inl unique ↦ rw unique refl
  | inr ambiguous ↦ rw ambiguous refl
]
address_domain a (peer p v) named = elim (Bool-cases (is_globally_unique_address a)) [
  | inl unique ↦ rw unique refl
  | inr ambiguous ↦
      rw ambiguous (ap (λ (x : Option Text × Realm). x.1) (split-suffix [] (peer p v) tt named))
]

-- Of a key that a domain qualified, the domain is read back, or this machine's where the key is unique
-- worldwide; where the key is as observed and the peer's identity has no slash.
pub realm_of_key-qualify_device :
    (key : DeviceKey IpAddr) (r : Realm)
    → IsPlain key
    → IsName r
    → realm_of_key (qualify_device key r) ≡ domain_of key r
unfolding realm_of_key
realm_of_key-qualify_device (DeviceKey.mac m) r plain named = rw (qualify_mac m r) (
    ap (λ (x : Option Text × Realm). x.1)
      (split-suffix m (domain_of (DeviceKey.mac m) r) plain
        (domain_of-IsName (DeviceKey.mac m) r named)))
realm_of_key-qualify_device (DeviceKey.scoped_address a zone) r plain named =
    rw (qualify_scoped a zone r)
      (ap (λ (x : Option Text × Realm). x.1) (split-suffix zone r plain.0 named))
realm_of_key-qualify_device (DeviceKey.address a) r plain named = address_domain a r named
