-- ===== src/Probes/Snmp/Arp/Rows.antt =====
-- The rows that an entry of the ARP cache of src/probes/snmp.rs rests on.
use mathlib.Core.Path.{subst}
use idnx.Common.{
  ℕ, ◌≡◌, refl, sym, ap, ◌∙◌, inl, inr, Text, true, ◌==◌, Bool-cases, Option-cases, Option, none,
  some, List, [], ◌∷◌, drop, All, All-append, text_eq, text_eq_iff, arith,
}
use idnx.Common.Dict
use idnx.Common.Dict.{Dict}
use idnx.Probes.Snmp.{Oid, BerValue, as_ipv4}
use idnx.Probes.Snmp.Walk.{SnmpTarget, Step, snmp_walk_target}
use idnx.Probes.Snmp.Walk.Ascends.{Has, Has-all}
use idnx.Probes.Snmp.Arp.{
  Ipv4Addr, as_mac, SnmpArpEntry, ArpCells, set_cell, cells_or, add_cell, cells_of, is_device,
  entry_of, entries_of, arp_cache, oid_ip_net_to_media_table, harvest_arp_cache,
}

module _ (Seen : Oid × BerValue → Type 0) where
  -- A row of this column and key that reads as this.
  abbrev pub HasCell {ℓ} : {A : Type ℓ} → ℕ → (BerValue → Option A) → Oid → A → Type ℓ
  HasCell column reads key a =
      (oid : Oid) × (value : BerValue) × Seen (oid, value)
      × (drop 9 oid ≡ column ∷ key)
      × (reads value ≡ some a)

  record AreRead (entry : Oid × ArpCells) : Type 0 where
    pub ip_from : (ip : Ipv4Addr) → entry.1.ip ≡ some ip → HasCell 3 as_ipv4 entry.0 ip
    pub mac_from : (mac : Text) → entry.1.mac ≡ some mac → HasCell 2 as_mac entry.0 mac
    pub index_from : (rest : Oid) × (entry.0 ≡ entry.1.if_index ∷ rest)

  All-put :
      (cells : Dict ArpCells) (key : Oid) (c : ArpCells)
      → All AreRead cells
      → AreRead (key, c)
      → All AreRead (Dict.put cells key c)
  unfolding Dict.put
  All-put [] key c h k = (k, tt)
  All-put ((j, d) ∷ cells) key c h k = elim (Bool-cases (text_eq j key)) [
    | inl same ↦ rw same (subst (λ o. AreRead (o, c)) (sym ((text_eq_iff j key).0 same)) k, h.1)
    | inr differs ↦ rw differs (h.0, All-put cells key c h.1 k)
  ]

  All-get :
      (cells : Dict ArpCells) (key : Oid) (c : ArpCells)
      → All AreRead cells
      → Dict.get cells key ≡ some c
      → AreRead (key, c)
  unfolding Dict.get
  All-get [] key c h e = absurd (cc e)
  All-get ((j, d) ∷ cells) key c h e = elim (Bool-cases (text_eq j key)) [
    | inl same ↦
        let found : some d ≡ some c = rw same at e in
        let is : d ≡ c = cc found in
        subst (λ x. AreRead (key, x)) is
          (subst (λ o. AreRead (o, d)) ((text_eq_iff j key).0 same) h.0)
    | inr differs ↦ All-get cells key c h.1 (rw differs at e)
  ]

  cells_or-AreRead :
      (cells : Dict ArpCells) (if_index : ℕ) (rest : Oid)
      → All AreRead cells
      → AreRead (if_index ∷ rest, cells_or if_index (Dict.get cells (if_index ∷ rest)))
  cells_or-AreRead cells if_index rest h = elim (Option-cases (Dict.get cells (if_index ∷ rest))) [
    | inl fresh ↦
        subst (λ o. AreRead (if_index ∷ rest, cells_or if_index o)) (sym fresh)
          (record {
            ip_from = λ ip e. absurd (cc e);
            mac_from = λ mac e. absurd (cc e);
            index_from = (rest, refl);
          })
    | inr (c, found) ↦
        subst (λ o. AreRead (if_index ∷ rest, cells_or if_index o)) (sym found)
          (All-get cells (if_index ∷ rest) c h found)
  ]

  set_cell-AreRead :
      (oid key : Oid) (column : ℕ) (value : BerValue) (c : ArpCells)
      → Seen (oid, value)
      → drop 9 oid ≡ column ∷ key
      → AreRead (key, c)
      → AreRead (key, set_cell column value c)
  unfolding set_cell
  set_cell-AreRead oid key column value c seen at h = elim (Bool-cases (column == 2)) [
    | inl mac ↦
        let is : column ≡ 2 = ground arith in
        rw mac (record {
          ip_from = h.ip_from;
          mac_from = λ m e. (oid, value, seen, at ∙ ap (λ (x : ℕ). x ∷ key) is, e);
          index_from = h.index_from;
        })
    | inr other ↦ elim (Bool-cases (column == 3)) [
      | inl ip ↦
          let is : column ≡ 3 = ground arith in
          rw (other, ip)
            (record {
              ip_from = λ m e. (oid, value, seen, at ∙ ap (λ (x : ℕ). x ∷ key) is, e);
              mac_from = h.mac_from;
              index_from = h.index_from;
            })
      | inr none_of ↦ rw (other, none_of) h
    ]
  ]

  add_cell-AreRead :
      (oid at : Oid) (value : BerValue) (cells : Dict ArpCells)
      → Seen (oid, value)
      → drop 9 oid ≡ at
      → All AreRead cells
      → All AreRead (add_cell at value cells)
  unfolding add_cell
  add_cell-AreRead oid [] value cells seen is h = h
  add_cell-AreRead oid (column ∷ []) value cells seen is h = h
  add_cell-AreRead oid (column ∷ if_index ∷ rest) value cells seen is h =
      All-put cells (if_index ∷ rest) _ h (
        set_cell-AreRead oid (if_index ∷ rest) column value _ seen is
          (cells_or-AreRead cells if_index rest h))

  cells_of-AreRead :
      (rows : List (Oid × BerValue)) (cells : Dict ArpCells)
      → All Seen rows
      → All AreRead cells
      → All AreRead (cells_of rows cells)
  unfolding cells_of
  cells_of-AreRead [] cells seen h = h
  cells_of-AreRead ((oid, value) ∷ rows) cells seen h =
      cells_of-AreRead rows (add_cell (drop 9 oid) value cells) seen.1
        (add_cell-AreRead oid (drop 9 oid) value cells seen.0 refl h)

  -- An entry has its address and its MAC from two rows with one key, which starts with its interface.
  pub record IsFromRows (entry : SnmpArpEntry) : Type 0 where
    pub rest : Oid
    pub ip_from : HasCell 3 as_ipv4 (entry.if_index ∷ rest) entry.ip
    pub mac_from : HasCell 2 as_mac (entry.if_index ∷ rest) entry.mac
    pub device : is_device entry.ip entry.mac ≡ true

  entry_of-IsFromRows :
      (key : Oid) (ip : Option Ipv4Addr) (mac : Option Text) (if_index : ℕ)
      → AreRead (key, record { ip = ip; mac = mac; if_index = if_index })
      → All IsFromRows (entry_of ip mac if_index)
  entry_of-IsFromRows key none mac if_index h = tt
  entry_of-IsFromRows key (some ip) none if_index h = tt
  entry_of-IsFromRows key (some ip) (some mac) if_index h = elim (Bool-cases (is_device ip mac)) [
    | inr other ↦ rw other tt
    | inl device ↦
        let (rest, is) = h.index_from in
        rw device (
          record {
            rest = rest;
            ip_from = subst (λ o. HasCell 3 as_ipv4 o ip) is (h.ip_from ip refl);
            mac_from = subst (λ o. HasCell 2 as_mac o mac) is (h.mac_from mac refl);
            device = device;
          },
          tt,
        )
  ]

  entries_of-IsFromRows :
      (cells : Dict ArpCells) → All AreRead cells → All IsFromRows (entries_of cells)
  unfolding entries_of
  entries_of-IsFromRows [] h = tt
  entries_of-IsFromRows ((key, c) ∷ cells) h =
      All-append IsFromRows (entry_of c.ip c.mac c.if_index) (entries_of cells)
        (entry_of-IsFromRows key c.ip c.mac c.if_index h.0) (entries_of-IsFromRows cells h.1)

  arp_cache-IsFromRows :
      (rows : List (Oid × BerValue)) → All Seen rows → All IsFromRows (arp_cache rows)
  unfolding arp_cache
  arp_cache-IsFromRows rows seen =
      entries_of-IsFromRows (cells_of rows []) (cells_of-AreRead rows [] seen tt)

-- Whatever the network answers, every entry of the ARP cache has its address from a row of the walk in
-- column 3 and its MAC from one in column 2, behind which both have the same, starting with the entry's
-- interface; and the address is neither of the loopback nor the broadcast address, and the MAC not of zeros.
pub harvest_arp_cache-IsFromRows :
    (lossy : List ℕ → Text) (target : SnmpTarget) (steps : ℕ → Step)
    → (let rows = (snmp_walk_target lossy target oid_ip_net_to_media_table steps 512).rows in
        All (IsFromRows (Has rows)) (harvest_arp_cache lossy target steps).0)
unfolding harvest_arp_cache
harvest_arp_cache-IsFromRows lossy target steps =
    let rows = (snmp_walk_target lossy target oid_ip_net_to_media_table steps 512).rows in
    arp_cache-IsFromRows (Has rows) rows (Has-all rows rows (λ row h. h))
