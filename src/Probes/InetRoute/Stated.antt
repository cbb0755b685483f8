-- ===== src/Probes/InetRoute/Stated.antt =====
-- What the routes of `harvest_inet_routes` of src/probes/snmp.rs rest on.
use mathlib.Core.Path.{subst}
use idnx.Common.{
  ℕ, zero, suc, ◌+◌, ◌≡◌, ◌≢◌, inl, inr, refl, sym, ap, ◌∙◌, Text, true, false, ◌==◌, none, some,
  List, [], ◌∷◌, ◌++◌, length, drop, map, All, All-map, Distinct, arith,
}
use idnx.Probes.Snmp.{Oid, BerValue, starts_with}
use idnx.Probes.Snmp.Reader.{byte_at}
use idnx.Probes.Snmp.Walk.{SnmpTarget, Step, snmp_walk_target}
use idnx.Probes.Snmp.Walk.Order.{◌≺◌, ≺_apart}
use idnx.Probes.Snmp.Walk.Ascends.{Has, Has-all, IsUnder, keys, snmp_walk_target-AreAnswered}
use idnx.Probes.InetRoute.{InetRoute, Column, missing, valid, invalid, active}
use idnx.Probes.InetRoute.Layout.{encode_index, IsIndex}
use idnx.Probes.InetRoute.Exact.{parse_index_iff}
use idnx.Probes.InetRoute.Harvest.{
  oid_inet_cidr_route_table, assemble, routes_of, harvest_inet_routes,
}
use idnx.Probes.InetRoute.Table.{IsEntry, IsRising, assemble-IsEntry}

-- What is under a root is the root and the rest.
under_root : (root oid : Oid) → starts_with oid root ≡ true → oid ≡ root ++ drop (length root) oid
unfolding starts_with
under_root [] oid h = refl
under_root (r ∷ root) [] h = cc
under_root (r ∷ root) (c ∷ oid) h =
    let head : c ≡ r = ground arith in
    let tail : starts_with oid root ≡ true = ground arith in
    rw head (ap (λ (t : Oid). r ∷ t) (under_root root oid tail))

at_and_rest :
    (n column : ℕ) (oid : Oid)
    → byte_at oid n ≡ some column
    → drop n oid ≡ column ∷ drop (n + 1) oid
at_and_rest n column [] h = absurd (cc (h, drop_nil n))
  where
    drop_nil : (n : ℕ) → byte_at [] n ≡ none
    drop_nil zero = refl
    drop_nil (suc n) = refl
at_and_rest zero column (c ∷ oid) h = let is : c ≡ column = cc h in rw is refl
at_and_rest (suc n) column (c ∷ oid) h =
    let further : suc (n + 1) ≡ suc n + 1 = omega arith in
    at_and_rest n column oid h
    ∙ ap (λ (t : Oid). column ∷ t) (ap (λ (k : ℕ). drop k (c ∷ oid)) further)

-- A route is of an index that parses, and one that is active was stated so by a row of its index.
pub record IsStated (root : Oid) (rows : List (Oid × BerValue)) (r : InetRoute) : Type 0 where
  pub index_is : IsIndex r.index
  pub stated : active r ≡ true → Has rows (root ++ (17 ∷ encode_index r.index), BerValue.integer 1)

All-Has :
    (root : Oid) (rows : List (Oid × BerValue)) (row : Oid × BerValue)
    → All (IsUnder root) rows
    → Has rows row
    → IsUnder root row
All-Has root [] row h k = absurd k
All-Has root (other ∷ rows) row h (inl is) = subst (IsUnder root) is h.0
All-Has root (other ∷ rows) row h (inr k) = All-Has root rows row h.1 k

active_valid :
    (status : Column ℕ)
    → (elim status [ missing ↦ false | valid n ↦ n == 1 | invalid _ ↦ false ]) ≡ true
    → status ≡ valid 1
active_valid missing h = cc
active_valid (valid n) h = ap valid (ground arith)
active_valid (invalid e) h = cc

IsEntry-IsStated :
    (root : Oid) (rows : List (Oid × BerValue)) (key : Oid) (r : InetRoute)
    → All (IsUnder root) rows
    → IsEntry root (Has rows) (key, r)
    → IsStated root rows r × (key ≡ encode_index r.index)
unfolding active
IsEntry-IsStated root rows key r under h =
    let (is, index) = (parse_index_iff key r.index).0 h.index_is in
    (
      record {
        index_is = index;
        stated = λ e.
            let (oid, has, at_column, rest) = h.stated 1 (active_valid r.status e) in
            let whole : oid ≡ root ++ (17 ∷ encode_index r.index) =
              under_root root oid (All-Has root rows (oid, BerValue.integer 1) under has)
              ∙ ap (λ (t : Oid). root ++ t)
                  (at_and_rest (length root) 17 oid at_column
                    ∙ ap (λ (t : Oid). 17 ∷ t) (rest ∙ is)) in
            subst (λ o. Has rows (o, BerValue.integer 1)) whole has;
      },
      is,
    )

table-IsStated :
    (root : Oid) (rows : List (Oid × BerValue)) (table : List (Oid × InetRoute))
    → All (IsUnder root) rows
    → All (IsEntry root (Has rows)) table
    → All (IsStated root rows) (routes_of table)
      × (map (λ (r : InetRoute). encode_index r.index) (routes_of table) ≡ keys table)
unfolding routes_of
table-IsStated root rows [] under h = (tt, refl)
table-IsStated root rows ((key, r) ∷ table) under h =
    let (stated, is) = IsEntry-IsStated root rows key r under h.0 in
    let (others, same) = table-IsStated root rows table under h.1 in
    ((stated, others), cc (is, same))

IsRising-Distinct : (table : List (Oid × InetRoute)) → IsRising table → Distinct (keys table)
IsRising-Distinct [] h = tt
IsRising-Distinct ((key, r) ∷ table) h = (
  All-map (λ k. key ≺ k) (λ k. key ≢ k) (keys table) (≺_apart key) h.0,
  IsRising-Distinct table h.1,
)

-- Whatever the network answers, the routes that are harvested are of different indexes, each of which has
-- the layout of one, and one is active only if the walk has the row of its index and column 17 with the
-- integer 1.
pub harvest_inet_routes-IsStated :
    (lossy : List ℕ → Text) (target : SnmpTarget) (steps : ℕ → Step)
    → (let rows = (snmp_walk_target lossy target oid_inet_cidr_route_table steps 512).rows in
        let routes = (harvest_inet_routes lossy target steps).0 in
        All (IsStated oid_inet_cidr_route_table rows) routes
        × Distinct (map (λ (r : InetRoute). encode_index r.index) routes))
unfolding harvest_inet_routes
harvest_inet_routes-IsStated lossy target steps =
    let rows = (snmp_walk_target lossy target oid_inet_cidr_route_table steps 512).rows in
    let under = (snmp_walk_target-AreAnswered lossy target steps oid_inet_cidr_route_table 512).2 in
    let (entries, rises) =
      assemble-IsEntry oid_inet_cidr_route_table (Has rows) rows [] (Has-all rows rows (λ row h. h))
        tt tt in
    let (stated, same) =
      table-IsStated oid_inet_cidr_route_table rows (assemble oid_inet_cidr_route_table rows [])
        under entries in
    (stated, subst Distinct (sym same) (IsRising-Distinct _ rises))
