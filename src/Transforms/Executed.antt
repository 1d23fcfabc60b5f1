-- ===== src/Transforms/Executed.antt =====
-- transforms.py: what is reported of a run of the transforms.
use feather_flow.Common.{
  ◌≡◌, refl, sym, ap, ◌∙◌, Bool, true, false, ◌&&◌, Option, none, some, List, [], ◌∷◌, ◌++◌, map,
  select, String, ◌==◌, string_eq, if◌then◌else◌, Result, ok, err,
}
use feather_flow.Common.Action.{and_then-ok, pure, ◌>>=◌}
use feather_flow.Common.Dict.{Dict}
use feather_flow.Common.Text.{◌<>◌}
use feather_flow.Transforms.{TransformMeta, qualified_name, build_execution_order}
use feather_flow.Transforms.Execution.{
  TransformResult, TransformError, Catalog, Kind, view, table, kind_of, drop_object, create_object,
  created_or, execute_one, execute_transforms, is_materialized_gold, rebuild_materialized_gold,
  run_ordered, run_in_order, run_transforms,
}

abbrev pub reported : TransformResult → String × Kind
reported r = (r.schema <> "." <> r.name, r.type)

-- A table for a materialized gold transform and a view for any other.
abbrev pub declared : TransformMeta → String × Kind
declared t =
    (t.schema <> "." <> t.name, if t.materialized && t.schema == "gold" then table else view)

declared-kind : (t : TransformMeta) → kind_of false t ≡ (declared t).1
declared-kind t = unforced t.materialized (t.schema == "gold")
  where
    unforced :
        (a b : Bool)
        → ◌≡◌ {A = Kind} (if a && (b && true) then table else view) (if a && b then table else view)
    unforced true true = refl
    unforced true false = refl
    unforced false b = refl

map-append : {A B : Type 0} (f : A → B) (xs ys : List A) → map f (xs ++ ys) ≡ map f xs ++ map f ys
map-append f [] ys = refl
map-append f (x ∷ xs) ys = ap (λ zs. f x ∷ zs) (map-append f xs ys)

abbrev reported_ok : Result TransformError TransformResult → String × Kind
reported_ok (ok r) = reported r
reported_ok (err e) = ("", view)

the_reports :
    (rs ss : List TransformResult)
    → Path (Result TransformError (List TransformResult)) (ok rs) (ok ss)
    → rs ≡ ss
the_reports rs ss h = cc

module _ (drop_raises : Kind → String → Catalog → Option String)
    (fails : Kind → String → String → Catalog → Option String) (substitute : String → String) where
  created-reported :
      (kind : Kind) (t : TransformMeta) (o : Option String) (c c' : Catalog) (r : TransformResult)
      → created_or drop_raises fails substitute kind t o c ≡ (ok r, c')
      → reported r ≡ (qualified_name t, kind)
  created-reported kind t none c c' r h = sym (ap (λ p. reported_ok p.0) h)
  created-reported kind t (some e) c c' r h = sym (ap (λ p. reported_ok p.0) h)

  one-reported :
      (t : TransformMeta) (c c' : Catalog) (r : TransformResult)
      → execute_one drop_raises fails substitute false t c ≡ (ok r, c')
      → reported r ≡ declared t
  unfolding execute_one
  one-reported t c c' r h =
      let kind = kind_of false t in
      let dropped = drop_object drop_raises fails substitute kind t c in
      let (u, done, created) =
        and_then-ok dropped.0 (λ u. create_object drop_raises fails substitute kind t) dropped.1 c'
          r h in
      created-reported kind t (fails kind (qualified_name t) (substitute t.sql) dropped.1) dropped.1
        c' r created
      ∙ ap (λ k. (qualified_name t, k)) (declared-kind t)

  -- Each transform is reported, in the order of the list, whether it fails or not.
  all-reported :
      (ts : List TransformMeta) (c c' : Catalog) (rs : List TransformResult)
      → execute_transforms drop_raises fails substitute false ts c ≡ (ok rs, c')
      → map reported rs ≡ map declared ts
  unfolding execute_transforms
  all-reported [] c c' rs h = ap (map reported) (sym (the_reports [] rs (ap (λ p. p.0) h)))
  all-reported (t ∷ ts) c c' rs h =
      let one = execute_one drop_raises fails substitute false t c in
      let rest = execute_transforms drop_raises fails substitute false ts in
      let (r, first, h') = and_then-ok one.0 (λ r. rest >>= λ rs. pure (r ∷ rs)) one.1 c' rs h in
      let (ss, others, h'') =
        and_then-ok (rest one.1).0 (λ rs. pure (r ∷ rs)) (rest one.1).1 c' rs h' in
      ap (map reported) (sym (the_reports (r ∷ ss) rs (ap (λ p. p.0) h'')))
      ∙ ap (λ x. x ∷ map reported ss) (one-reported t c one.1 r (ap (λ o. (o, one.1)) first))
      ∙ ap (λ xs. declared t ∷ xs)
          (all-reported ts one.1 (rest one.1).1 ss (ap (λ o. (o, (rest one.1).1)) others))

  run-reported :
      (ts : List TransformMeta) (c c' : Catalog) (rs : List TransformResult)
      → run_ordered drop_raises fails substitute false ts c ≡ (ok rs, c')
      → map reported rs
        ≡ map declared ts ++ map declared (select (λ t. t.schema == "gold" && t.materialized) ts)
  unfolding rebuild_materialized_gold
  run-reported ts c c' rs h =
      let first = execute_transforms drop_raises fails substitute false ts c in
      let golds = select is_materialized_gold ts in
      let again = execute_transforms drop_raises fails substitute false golds in
      let (ss, done, h') =
        and_then-ok first.0 (λ ss. again >>= λ us. pure (ss ++ us)) first.1 c' rs h in
      let (us, redone, h'') =
        and_then-ok (again first.1).0 (λ us. pure (ss ++ us)) (again first.1).1 c' rs h' in
      ap (map reported) (sym (the_reports (ss ++ us) rs (ap (λ p. p.0) h'')))
      ∙ map-append reported ss us
      ∙ ap (λ xs. xs ++ map reported us)
          (all-reported ts c first.1 ss (ap (λ o. (o, first.1)) done))
      ∙ ap (λ xs. map declared ts ++ xs)
          (all-reported golds first.1 (again first.1).1 us
            (ap (λ o. (o, (again first.1).1)) redone))

  -- A run of the transforms that ends reports each of them in the order of their execution, a
  -- materialized gold transform as a table and any other as a view, and then each materialized gold
  -- transform a second time, as a table again. That one of them fails to be created does not stop
  -- the others.
  pub materialized_twice :
      (static_order : Dict String (List String) → Option (List String)) (t : TransformMeta)
      (ts order : List TransformMeta) (c c' : Catalog) (rs : List TransformResult)
      → build_execution_order static_order (t ∷ ts) ≡ ok order
      → run_transforms drop_raises fails substitute static_order false (t ∷ ts) c ≡ (ok rs, c')
      → map reported rs
        ≡ map declared order
          ++ map declared (select (λ t. t.schema == "gold" && t.materialized) order)
  unfolding run_transforms
  materialized_twice static_order t ts order c c' rs h run =
      run-reported order c c' rs
        (sym (ap (λ o. run_in_order drop_raises fails substitute false o c) h) ∙ run)
