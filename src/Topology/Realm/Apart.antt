-- ===== src/Topology/Realm/Apart.antt =====
-- The names that src/topology/realm.rs makes for the devices of different domains.
use idnx.Common.{
  ◌≡◌, ◌⊎◌, refl, sym, ap, ◌∙◌, Text, Bool, true, false, Option, [], ◌∷◌, ◌++◌, Bool-cases, inl,
  inr,
}
use idnx.Topology.Evidence.{DeviceKey}
use idnx.Topology.Realm.{
  IpAddr, Realm, this_machine, peer, is_local, suffix, unless_empty, split_qualified_zone,
  is_globally_unique_address, is_globally_unique_mac, qualify_device,
}
use idnx.Topology.Realm.Domains.{
  HasNone, IsName, IsPlain, is_unique, domain_of, split-suffix, qualify_mac, qualify_scoped,
  qualify_address, domain_of-IsName,
}

unless_empty_inj : (s t : Text) → unless_empty s ≡ unless_empty t → s ≡ t
unless_empty_inj [] [] e = refl
unless_empty_inj [] (b ∷ t) e = absurd (cc)
unless_empty_inj (b ∷ s) [] e = absurd (cc)
unless_empty_inj (b ∷ s) (c ∷ t) e = cc

-- The parts of qualified names that agree.
parts_agree :
    (s t : Text) (q r : Realm)
    → HasNone b'@' s
    → HasNone b'@' t
    → IsName q
    → IsName r
    → s ++ suffix q ≡ t ++ suffix r
    → (s ≡ t) × (q ≡ r)
parts_agree s t q r hs ht hq hr e =
    let both : ◌≡◌ {A = Option Text × Realm} (unless_empty s, q) (unless_empty t, r) =
      sym (split-suffix s q hs hq) ∙ ap split_qualified_zone e ∙ split-suffix t r ht hr in
    (
      unless_empty_inj s t (ap (λ (x : Option Text × Realm). x.0) both),
      ap (λ (x : Option Text × Realm). x.1) both,
    )

-- The key is one and the same, and either unique worldwide or of one domain.
abbrev AreSame : DeviceKey IpAddr → DeviceKey IpAddr → Realm → Realm → Type 0
AreSame k l q r = (k ≡ l) × ((is_unique k ≡ true) ⊎ (q ≡ r))

same_macs :
    (m n : Text) (q r : Realm)
    → HasNone b'@' m
    → HasNone b'@' n
    → IsName q
    → IsName r
    → qualify_device (DeviceKey.mac m) q ≡ qualify_device (DeviceKey.mac n) r
    → AreSame (DeviceKey.mac m) (DeviceKey.mac n) q r
same_macs m n q r hm hn hq hr e =
    let e' = sym (qualify_mac m q) ∙ e ∙ qualify_mac n r in
    let texts : m ++ suffix (domain_of (DeviceKey.mac m) q)
        ≡ n ++ suffix (domain_of (DeviceKey.mac n) r) =
      cc in
    let (same, realms) =
      parts_agree m n _ _ hm hn (domain_of-IsName (DeviceKey.mac m) q hq)
        (domain_of-IsName (DeviceKey.mac n) r hr) texts in
    (
      ap (λ (t : Text). DeviceKey.mac t) same,
      elim (Bool-cases (is_globally_unique_mac m)) [
        | inl unique ↦ inl unique
        | inr here ↦
            let there : is_globally_unique_mac n ≡ false = rw same at here in
            inr (rw (here, there) at realms)
      ],
    )

-- The address and the domain of an ambiguous address.
same_scopes :
    (a b : IpAddr) (s t : Text) (q r : Realm)
    → HasNone b'@' s
    → HasNone b'@' t
    → IsName q
    → IsName r
    → DeviceKey.scoped_address a (s ++ suffix q) ≡ DeviceKey.scoped_address b (t ++ suffix r)
    → (a ≡ b) × (s ≡ t) × (q ≡ r)
same_scopes a b s t q r hs ht hq hr e =
    let texts : s ++ suffix q ≡ t ++ suffix r = cc in
    let (names, realms) = parts_agree s t q r hs ht hq hr texts in (cc, names, realms)

same_addresses :
    (a b : IpAddr) (q r : Realm)
    → IsName q
    → IsName r
    → is_local q ≡ false
    → is_local r ≡ false
    → qualify_device (DeviceKey.address a) q ≡ qualify_device (DeviceKey.address b) r
    → AreSame (DeviceKey.address a) (DeviceKey.address b) q r
same_addresses a b q r hq hr rq rr e =
    let e' = sym (qualify_address a q rq) ∙ e ∙ qualify_address b r rr in
    elim (Bool-cases (is_globally_unique_address a)) [
      | inl here ↦ elim (Bool-cases (is_globally_unique_address b)) [
        | inl there ↦
            let e'' : DeviceKey.address a ≡ DeviceKey.address b = rw (here, there) at e' in
            (e'', inl here)
        | inr there ↦
            let e'' : DeviceKey.address a ≡ DeviceKey.scoped_address b (suffix r) =
              rw (here, there) at e' in
            absurd (cc)
      ]
      | inr here ↦ elim (Bool-cases (is_globally_unique_address b)) [
        | inl there ↦
            let e'' : DeviceKey.scoped_address a (suffix q) ≡ DeviceKey.address b =
              rw (here, there) at e' in
            absurd (cc)
        | inr there ↦
            let (same, none_here, realms) =
              same_scopes a b [] [] q r tt tt hq hr (rw (here, there) at e') in
            (ap (λ (x : IpAddr). DeviceKey.address x) same, inr realms)
      ]
    ]

-- A bare address has no zone.
no_zone :
    (a b : IpAddr) (t : Text) (q r : Realm)
    → HasNone b'@' t
    → IsName q
    → IsName r
    → is_local q ≡ false
    → qualify_device (DeviceKey.address a) q ≡ qualify_device (DeviceKey.scoped_address b t) r
    → t ≡ []
no_zone a b t q r ht hq hr rq e =
    let e' = sym (qualify_address a q rq) ∙ e ∙ qualify_scoped b t r in
    elim (Bool-cases (is_globally_unique_address a)) [
      | inl here ↦
          let e'' : DeviceKey.address a ≡ DeviceKey.scoped_address b (t ++ suffix r) =
            rw here at e' in
          absurd (cc)
      | inr here ↦ sym (same_scopes a b [] t q r tt ht hq hr (rw here at e')).1
    ]

abbrev is_mac : DeviceKey IpAddr → Bool
is_mac (DeviceKey.mac m) = true
is_mac (DeviceKey.address a) = false
is_mac (DeviceKey.scoped_address a zone) = false

is_mac-qualify_device : (k : DeviceKey IpAddr) (r : Realm) → is_mac (qualify_device k r) ≡ is_mac k
unfolding qualify_device
is_mac-qualify_device (DeviceKey.mac m) r = ap is_mac (qualify_mac m r)
is_mac-qualify_device (DeviceKey.scoped_address a zone) r = ap is_mac (qualify_scoped a zone r)
is_mac-qualify_device (DeviceKey.address a) this_machine = refl
is_mac-qualify_device (DeviceKey.address a) (peer p v) =
    elim (Bool-cases (is_globally_unique_address a)) [
      | inl unique ↦ rw unique refl
      | inr ambiguous ↦ rw ambiguous refl
    ]

same_kinds :
    (k l : DeviceKey IpAddr) (q r : Realm)
    → qualify_device k q ≡ qualify_device l r
    → is_mac k ≡ is_mac l
same_kinds k l q r e = sym (is_mac-qualify_device k q) ∙ ap is_mac e ∙ is_mac-qualify_device l r

-- Where two peers' keys are as observed and the peers' identities have no slash, two qualified keys are
-- equal only if the keys are, and these are unique worldwide or observed in one domain.
pub qualify_device_apart :
    (k l : DeviceKey IpAddr) (q r : Realm)
    → IsPlain k
    → IsPlain l
    → IsName q
    → IsName r
    → is_local q ≡ false
    → is_local r ≡ false
    → qualify_device k q ≡ qualify_device l r
    → (k ≡ l) × ((is_unique k ≡ true) ⊎ (q ≡ r))
qualify_device_apart (DeviceKey.mac m) (DeviceKey.mac n) q r hk hl hq hr rq rr e =
    same_macs m n q r hk hl hq hr e
qualify_device_apart (DeviceKey.address a) (DeviceKey.address b) q r hk hl hq hr rq rr e =
    same_addresses a b q r hq hr rq rr e
qualify_device_apart (DeviceKey.scoped_address a s) (DeviceKey.scoped_address b t) q r hk hl hq hr
      rq rr e =
    let (same, names, realms) =
      same_scopes a b s t q r hk.0 hl.0 hq hr
        (sym (qualify_scoped a s q) ∙ e ∙ qualify_scoped b t r) in
    (rw (same, names) refl, inr realms)
qualify_device_apart (DeviceKey.mac m) (DeviceKey.address b) q r hk hl hq hr rq rr e =
    let kinds = same_kinds (DeviceKey.mac m) (DeviceKey.address b) q r e in absurd (cc)
qualify_device_apart (DeviceKey.mac m) (DeviceKey.scoped_address b t) q r hk hl hq hr rq rr e =
    let kinds = same_kinds (DeviceKey.mac m) (DeviceKey.scoped_address b t) q r e in absurd (cc)
qualify_device_apart (DeviceKey.address a) (DeviceKey.mac n) q r hk hl hq hr rq rr e =
    let kinds = same_kinds (DeviceKey.address a) (DeviceKey.mac n) q r e in absurd (cc)
qualify_device_apart (DeviceKey.address a) (DeviceKey.scoped_address b t) q r hk hl hq hr rq rr e =
    absurd (hl.1 (no_zone a b t q r hl.0 hq hr rq e))
qualify_device_apart (DeviceKey.scoped_address a s) (DeviceKey.mac n) q r hk hl hq hr rq rr e =
    let kinds = same_kinds (DeviceKey.scoped_address a s) (DeviceKey.mac n) q r e in absurd (cc)
qualify_device_apart (DeviceKey.scoped_address a s) (DeviceKey.address b) q r hk hl hq hr rq rr e =
    absurd (hk.1 (no_zone b a s r q hk.0 hr hq rr (sym e)))
