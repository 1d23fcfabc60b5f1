-- ===== src/Publication/Reconciled.antt =====
-- feather_cdc_postgres/publication.py: the members of a publication after it was reconciled.
use feather_flow.Common.{
  ◌≡◌, refl, ap, ◌∙◌, Bool, true, false, not, ◌&&◌, ◌||◌, Option, none, some, List, [], ◌∷◌, ◌++◌,
  contains, all, if◌then◌else◌, String, ==_refl, string_eq, pair_eq, Result, ok, arith,
}
use feather_flow.Common.Dict.{lookup, lookup-insert}
use feather_flow.Publication.{
  Name, Publication, Server, members_of, has_all_ops, with_all_ops, set_publication, drop_tables,
  to_add, to_drop, based, drop_rest, reconcile,
}
use feather_flow.Publication.Members.{
  name_eq, added_members, dropped_rest, contains-to_add, contains-to_drop, exactly,
}

all-contained :
    (p : Name → Bool) (xs : List Name) (k : Name)
    → all p xs ≡ true
    → contains xs k ≡ true
    → p k ≡ true
all-contained p [] k h c = cc
all-contained p (x ∷ xs) k h c =
    ground (arith, h, c, all-contained p xs k, name_eq.decides x k, ap p {x = x} {y = k})

all-each :
    (p : Name → Bool) (xs : List Name)
    → ((k : Name) → contains xs k ≡ true → p k ≡ true)
    → all p xs ≡ true
all-each p [] h = refl
all-each p (x ∷ xs) h =
    ground (arith, h x (ground (arith, ==_refl x)), all-each p xs (λ k c. h k (ground (arith, c))))

empty-of : (xs : List Name) → ((k : Name) → contains xs k ≡ false) → xs ≡ []
empty-of [] h = refl
empty-of (x ∷ xs) h = ground (arith, h x, ==_refl x)

with_all_ops-has :
    (p : Publication) (b : Bool)
    → has_all_ops p ≡ b
    → has_all_ops (if b then p else with_all_ops p) ≡ true
with_all_ops-has p true h = h
with_all_ops-has p false h = refl

gencols-has :
    (p : Publication) (b : Bool)
    → has_all_ops p ≡ true
    → has_all_ops (if b then record p { generated_stored = true } else p) ≡ true
gencols-has p true h = h
gencols-has p false h = h

gencols-stored :
    (gencols stored : Bool) (p : Publication)
    → p.generated_stored ≡ stored
    → (not gencols
        || (if gencols && not stored
            then record p { generated_stored = true }
            else p).generated_stored)
      ≡ true
gencols-stored false stored p h = refl
gencols-stored true true p h = h
gencols-stored true false p h = refl

module _ (before : Name → Name → Bool) (publishable : Name → Bool) where
  based-ops :
      (gencols : Bool) (o : Option Publication)
      → has_all_ops (based before publishable gencols o) ≡ true
  based-ops gencols none = refl
  based-ops gencols (some p) =
      let q = if has_all_ops p then p else with_all_ops p in
      gencols-has q (gencols && not q.generated_stored) (with_all_ops-has p (has_all_ops p) refl)

  based-stored :
      (gencols : Bool) (o : Option Publication)
      → (not gencols || (based before publishable gencols o).generated_stored) ≡ true
  based-stored false none = refl
  based-stored true none = refl
  based-stored gencols (some p) =
      let q = if has_all_ops p then p else with_all_ops p in
      gencols-stored gencols q.generated_stored q refl

  tables-if :
      (b : Bool) (p q : Publication) → p.tables ≡ q.tables → (if b then p else q).tables ≡ q.tables
  tables-if true p q h = h
  tables-if false p q h = refl

  based-tables :
      (gencols : Bool) (o : Option Publication)
      → (based before publishable gencols o).tables ≡ members_of o
  based-tables gencols none = refl
  based-tables gencols (some p) =
      let q = if has_all_ops p then p else with_all_ops p in
      tables-if (gencols && not q.generated_stored) (record q { generated_stored = true }) q refl
      ∙ tables-or (has_all_ops p)
    where
      tables-or : (b : Bool) → (if b then p else with_all_ops p).tables ≡ p.tables
      tables-or true = refl
      tables-or false = refl

  all-publishable :
      (desired current : List Name)
      → all publishable desired ≡ true
      → all publishable (to_add before publishable desired current) ≡ true
  all-publishable desired current h =
      all-each publishable (to_add before publishable desired current) (λ k c.
        all-contained publishable desired k h
          (ground (arith, c, contains-to_add before publishable desired current k)))

  -- The publication that a run of `reconcile` ends with.
  final : List Name → Bool → Option Publication → Publication
  final desired gencols o =
      let start = based before publishable gencols o in
      drop_tables (to_drop before publishable desired (members_of o))
        (record start { tables = start.tables ++ to_add before publishable desired (members_of o) })

  closing :
      String
      → Server
      → List Name
      → List Name
      → Result String (Unit {0}) × Publication
      → Result String (List Name × List Name) × Server
  closing publication s added dropped x =
      let (r, p) = drop_rest before publishable added dropped x in
      (r, set_publication publication p s)

  reconciled :
      (publication : String) (desired : List Name) (s : Server)
      → all publishable desired ≡ true
      → let o = lookup publication s.publications in
        reconcile before publishable publication desired false s ≡ (
          ok (
            to_add before publishable desired (members_of o),
            to_drop before publishable desired (members_of o),
          ),
          set_publication publication (final desired s.has_gencols o) s,
        )
  unfolding reconcile final closing
  reconciled publication desired s h =
      let o = lookup publication s.publications in
      let added = to_add before publishable desired (members_of o) in
      let dropped = to_drop before publishable desired (members_of o) in
      ap (closing publication s added dropped) (
        added_members publishable added (based before publishable s.has_gencols o)
          (all-publishable desired (members_of o) h))

  final-tables :
      (desired : List Name) (gencols : Bool) (o : Option Publication) (k : Name)
      → contains (final desired gencols o).tables k ≡ contains desired k
  unfolding final
  final-tables desired gencols o k =
      let start = based before publishable gencols o in
      ap
        (λ ts.
          contains
            (drop_tables (to_drop before publishable desired (members_of o)) (record start {
              tables = ts ++ to_add before publishable desired (members_of o);
            })).tables
            k)
        (based-tables gencols o)
      ∙ exactly before publishable desired (members_of o) start k

  -- The publication after `reconcile` has exactly the desired tables, publishes the four
  -- operations, and where the server knows generated columns publishes them; what is reported is
  -- what the plan reports. Each desired table can be published.
  pub reconcile_exact :
      (publication : String) (desired : List Name) (s : Server) (k : Name)
      → all publishable desired ≡ true
      → let (result, s') = reconcile before publishable publication desired false s in
        (result ≡ (reconcile before publishable publication desired true s).0)
        × ((p : Publication) × (lookup publication s'.publications ≡ some p)
            × (contains p.tables k ≡ contains desired k)
            × (has_all_ops p ≡ true)
            × ((not s.has_gencols || p.generated_stored) ≡ true))
  unfolding reconcile final
  reconcile_exact publication desired s k h =
      let o = lookup publication s.publications in
      let p = final desired s.has_gencols o in
      let start = based before publishable s.has_gencols o in
      let done = reconciled publication desired s h in
      let rest = dropped_rest (to_drop before publishable desired (members_of o)) (record start {
        tables = start.tables ++ to_add before publishable desired (members_of o);
      }) in
      (
        ap (λ x. x.0) done,
        (
          p,
          ap (λ x. lookup publication x.1.publications) done
              ∙ lookup-insert publication publication p s.publications
              ∙ ap (λ b. if b then some p else o) (==_refl publication),
          final-tables desired s.has_gencols o k,
          ap has_all_ops rest ∙ based-ops s.has_gencols o,
          ap (λ q. not s.has_gencols || q.generated_stored) rest ∙ based-stored s.has_gencols o,
        ),
      )

  -- Once a publication is reconciled, a plan for the same tables has nothing to add or drop. Each
  -- desired table can be published.
  pub reconcile_again :
      (publication : String) (desired : List Name) (s : Server)
      → all publishable desired ≡ true
      → (reconcile before publishable publication desired true
          (reconcile before publishable publication desired false s).1).0
        ≡ ok ([], [])
  unfolding reconcile
  reconcile_again publication desired s h =
      let o = lookup publication s.publications in
      let p = final desired s.has_gencols o in
      let found =
        lookup-insert publication publication p s.publications
        ∙ ap (λ b. if b then some p else o) (==_refl publication) in
      ap (λ x. (reconcile before publishable publication desired true x.1).0)
        (reconciled publication desired s h)
      ∙ ap
          (λ q. ok (
            to_add before publishable desired (members_of q),
            to_drop before publishable desired (members_of q),
          ))
          found
      ∙ ap (λ xs. ok (xs, to_drop before publishable desired p.tables))
          (empty-of (to_add before publishable desired p.tables) (λ k. ground (
            arith,
            contains-to_add before publishable desired p.tables k,
            final-tables desired s.has_gencols o k,
          )))
      ∙ ap (λ xs. ok ([], xs))
          (empty-of (to_drop before publishable desired p.tables) (λ k. ground (
            arith,
            contains-to_drop before publishable desired p.tables k,
            final-tables desired s.has_gencols o k,
          )))
