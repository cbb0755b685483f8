-- ===== src/Probes/InetRoute/Table.antt =====
-- The table in which `harvest_inet_routes` of src/probes/snmp.rs puts rows together.
use mathlib.Core.Path.{subst}
use idnx.Common.{
  ℕ, ◌+◌, ◌≡◌, ◌⊎◌, inl, inr, refl, sym, ap, ◌∙◌, true, false, ◌==◌, ltb, Bool-cases, Option-cases,
  some, List, [], ◌∷◌, length, drop, All, All-map, text_eq, text_eq_iff, arith,
}
use idnx.Probes.Snmp.{Oid, BerValue, oid_leb}
use idnx.Probes.Snmp.Reader.{byte_at}
use idnx.Probes.Snmp.Walk.Order.{◌≺◌, shorter, first, later, ≺_iff, ≺_trans}
use idnx.Probes.Snmp.Walk.Ascends.{keys}
use idnx.Probes.InetRoute.{InetRouteIndex, InetRoute, valid, parse_index}
use idnx.Probes.InetRoute.Harvest.{
  empty_route, status_column, set_number, set_other, set_column, update, add_row, assemble,
}

-- A change keeps the index, and a status that it sets was stated by a row of column 17.
abbrev IsChange : (InetRoute → InetRoute) → ℕ → BerValue → Type 0
IsChange change column value =
    (r : InetRoute)
    → ((change r).index ≡ r.index)
      × ((n : ℕ)
          → (change r).status ≡ valid n
          → (r.status ≡ valid n) ⊎ ((column ≡ 17) × (value ≡ BerValue.integer n)))

status_column-valid : (n m : ℕ) → status_column n ≡ valid m → n ≡ m
unfolding status_column
status_column-valid n m h = ground arith

set_number-IsChange : (column n : ℕ) → IsChange (set_number column n) column (BerValue.integer n)
unfolding set_number
set_number-IsChange column n r = (
  ground arith,
  λ m h. elim (Bool-cases (column == 17)) [
    | inl status ↦
        let is : column ≡ 17 = ground arith in
        inr (is, ap BerValue.integer (status_column-valid n m (rw is at h)))
    | inr differs ↦ inl (ground arith)
  ],
)

set_other-IsChange : (column : ℕ) (value : BerValue) → IsChange (set_other column) column value
unfolding set_other
set_other-IsChange column value r = (ground arith, λ m h. inl (ground arith))

set_column-IsChange :
    (column : ℕ) (value : BerValue) → IsChange (set_column column value) column value
unfolding set_column
set_column-IsChange column (BerValue.integer n) = set_number-IsChange column n
set_column-IsChange column (BerValue.octet_string bs) = set_other-IsChange column _
set_column-IsChange column BerValue.null = set_other-IsChange column _
set_column-IsChange column (BerValue.object_identifier oid) = set_other-IsChange column _
set_column-IsChange column (BerValue.ip_address a b c d) = set_other-IsChange column _
set_column-IsChange column (BerValue.counter32 n) = set_other-IsChange column _
set_column-IsChange column (BerValue.gauge32 n) = set_other-IsChange column _
set_column-IsChange column (BerValue.time_ticks n) = set_other-IsChange column _
set_column-IsChange column (BerValue.unknown tag bs) = set_other-IsChange column _

-- Keys that ascend.
abbrev pub IsRising : List (Oid × InetRoute) → Type 0
IsRising [] = Unit
IsRising ((key, r) ∷ table) = All (λ k. key ≺ k) (keys table) × IsRising table

-- A route under its key: the key is its index, and a status was stated by a row of these.
pub record IsEntry (root : Oid) (Seen : Oid × BerValue → Type 0) (entry : Oid × InetRoute)
    : Type 0 where
  pub index_is : parse_index entry.0 ≡ some entry.1.index
  pub stated :
      (n : ℕ)
      → entry.1.status ≡ valid n
      → (oid : Oid) × Seen (oid, BerValue.integer n)
        × (byte_at oid (length root) ≡ some 17)
        × (drop (length root + 1) oid ≡ entry.0)

above_update :
    (low key : Oid) (fresh : InetRoute) (change : InetRoute → InetRoute)
    (table : List (Oid × InetRoute))
    → low ≺ key
    → All (λ k. low ≺ k) (keys table)
    → All (λ k. low ≺ k) (keys (update key fresh change table))
unfolding update
above_update low key fresh change [] h all = (h, tt)
above_update low key fresh change ((k, r) ∷ table) h all = elim (Bool-cases (text_eq key k)) [
  | inl same ↦ rw same all
  | inr differs ↦ elim (Bool-cases (oid_leb key k)) [
    | inl below ↦ rw (differs, below) (h, all)
    | inr over ↦ rw (differs, over) (all.0, above_update low key fresh change table h all.1)
  ]
]

-- Of two identifiers that differ, the one that is at most the other is below it.
below_of_leb : (a b : Oid) → text_eq a b ≡ false → oid_leb a b ≡ true → a ≺ b
unfolding text_eq oid_leb
below_of_leb [] [] differs h = cc
below_of_leb [] (d ∷ b) differs h = shorter
below_of_leb (c ∷ a) [] differs h = cc
below_of_leb (c ∷ a) (d ∷ b) differs h = elim (Bool-cases (ltb c d)) [
  | inl less ↦ first (ground arith)
  | inr up ↦ elim (Bool-cases (ltb d c)) [
    | inl down ↦ absurd (ground arith)
    | inr level ↦
        let is : c ≡ d = ground arith in
        let same : (c == d) ≡ true = ground arith in
        let differs' : text_eq a b ≡ false = rw same at differs in
        let h' : oid_leb a b ≡ true = rw (up, level) at h in
        subst (λ x. (c ∷ a) ≺ (x ∷ b)) is (later (below_of_leb a b differs' h'))
  ]
]

update-IsRising :
    (key : Oid) (fresh : InetRoute) (change : InetRoute → InetRoute)
    (table : List (Oid × InetRoute))
    → IsRising table
    → IsRising (update key fresh change table)
unfolding update
update-IsRising key fresh change [] h = (tt, tt)
update-IsRising key fresh change ((k, r) ∷ table) h = elim (Bool-cases (text_eq key k)) [
  | inl same ↦ rw same h
  | inr differs ↦ elim (Bool-cases (oid_leb key k)) [
    | inl below ↦
        let less = below_of_leb key k differs below in
        rw (differs, below)
          ((less, All-map (λ o. k ≺ o) (λ o. key ≺ o) (keys table) (λ o. ≺_trans less) h.0), h)
    | inr over ↦
        rw (differs, over)
          (
            above_update k key fresh change table ((≺_iff k key).0 over) h.0,
            update-IsRising key fresh change table h.1,
          )
  ]
]

module _ (root : Oid) (Seen : Oid × BerValue → Type 0) where
  update-IsEntry :
      (key : Oid) (fresh : InetRoute) (change : InetRoute → InetRoute)
      (table : List (Oid × InetRoute))
      → ((r : InetRoute) → IsEntry root Seen (key, r) → IsEntry root Seen (key, change r))
      → IsEntry root Seen (key, fresh)
      → All (IsEntry root Seen) table
      → All (IsEntry root Seen) (update key fresh change table)
  unfolding update
  update-IsEntry key fresh change [] keeps new' h = (keeps fresh new', tt)
  update-IsEntry key fresh change ((k, r) ∷ table) keeps new' h =
      elim (Bool-cases (text_eq key k)) [
        | inl same ↦
            let is = (text_eq_iff key k).0 same in
            rw same (
              subst (λ o. IsEntry root Seen (o, change r)) is
                  (keeps r (subst (λ o. IsEntry root Seen (o, r)) (sym is) h.0)),
              h.1,
            )
        | inr differs ↦ elim (Bool-cases (oid_leb key k)) [
          | inl below ↦ rw (differs, below) (keeps fresh new', h)
          | inr over ↦
              rw (differs, over) (h.0, update-IsEntry key fresh change table keeps new' h.1)
        ]
      ]

  changes :
      (oid : Oid) (value : BerValue) (column : ℕ) (r : InetRoute)
      → Seen (oid, value)
      → byte_at oid (length root) ≡ some column
      → IsEntry root Seen (drop (length root + 1) oid, r)
      → IsEntry root Seen (drop (length root + 1) oid, set_column column value r)
  changes oid value column r seen at_column h =
      let (index, stated) = set_column-IsChange column value r in
      record {
        index_is = h.index_is ∙ ap some (sym index);
        stated = λ n e. elim (stated n e) [
          | inl before ↦ h.stated n before
          | inr (is, states) ↦ (oid, rw states at seen, at_column ∙ ap some is, refl)
        ];
      }

  -- A row is passed over, or updates the entry of its index.
  add_row-cases :
      (oid : Oid) (value : BerValue) (table : List (Oid × InetRoute))
      → (add_row root (oid, value) table ≡ table)
        ⊎ ((column : ℕ) × (index : InetRouteIndex) × (byte_at oid (length root) ≡ some column)
            × (parse_index (drop (length root + 1) oid) ≡ some index)
            × (add_row root (oid, value) table
                ≡ update
                    (drop (length root + 1) oid)
                    (empty_route index oid)
                    (set_column column value)
                    table))
  unfolding add_row
  add_row-cases oid value table = elim (Option-cases (byte_at oid (length root))) [
    | inl short ↦ inl (rw (add_row, short) refl)
    | inr (column, at_column) ↦ elim (Option-cases (parse_index (drop (length root + 1) oid))) [
      | inl unread ↦ inl (rw (add_row, at_column, unread) refl)
      | inr (index, reads) ↦
          inr (column, index, at_column, reads, rw (add_row, at_column, reads) refl)
    ]
  ]

  add_row-IsEntry :
      (oid : Oid) (value : BerValue) (table : List (Oid × InetRoute))
      → Seen (oid, value)
      → All (IsEntry root Seen) table
      → All (IsEntry root Seen) (add_row root (oid, value) table)
  add_row-IsEntry oid value table seen h = elim (add_row-cases oid value table) [
    | inl over ↦ subst (All (IsEntry root Seen)) (sym over) h
    | inr (column, index, at_column, reads, is) ↦ subst (All (IsEntry root Seen)) (sym is) (
        update-IsEntry (drop (length root + 1) oid) (empty_route index oid)
          (set_column column value) table (λ r. changes oid value column r seen at_column)
          (record { index_is = reads; stated = λ n e. absurd (cc e) }) h)
  ]

  add_row-IsRising :
      (oid : Oid) (value : BerValue) (table : List (Oid × InetRoute))
      → IsRising table
      → IsRising (add_row root (oid, value) table)
  add_row-IsRising oid value table h = elim (add_row-cases oid value table) [
    | inl over ↦ subst IsRising (sym over) h
    | inr (column, index, at_column, reads, is) ↦ subst IsRising (sym is) (
        update-IsRising (drop (length root + 1) oid) (empty_route index oid)
          (set_column column value) table h)
  ]

  pub assemble-IsEntry :
      (rows : List (Oid × BerValue)) (table : List (Oid × InetRoute))
      → All Seen rows
      → All (IsEntry root Seen) table
      → IsRising table
      → All (IsEntry root Seen) (assemble root rows table) × IsRising (assemble root rows table)
  unfolding assemble
  assemble-IsEntry [] table seen h rises = (h, rises)
  assemble-IsEntry ((oid, value) ∷ rows) table seen h rises =
      assemble-IsEntry rows (add_row root (oid, value) table) seen.1
        (add_row-IsEntry oid value table seen.0 h) (add_row-IsRising oid value table rises)
