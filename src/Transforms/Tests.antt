-- ===== src/Transforms/Tests.antt =====
-- A silver transform and a materialized gold one that reads it.
use feather_flow.Common.{
  Result, ok, err, ◌==◌, ◌&&◌, ◌≡◌, refl, subst, if◌then◌else◌, string_eq, Bool, true, false,
  Option, none, some, List, [], ◌∷◌, ◌++◌, map, select, String,
}
use feather_flow.Common.Dict.{Dict, lookup, insert, keys, remove}
use feather_flow.Transforms.{
  TransformMeta, build_execution_order, by_name, build_graph, check_all, check_dependencies,
  in_layer,
}
use feather_flow.Transforms.Execution.{
  TransformResult, TransformError, Catalog, Kind, run_transforms, execute_transforms, execute_one,
  rebuild_materialized_gold,
}
use feather_flow.Transforms.Ordered.{
  respects, is_ordered, predecessors, build_execution_order-ordered,
}
use feather_flow.Transforms.Executed.{reported, declared, materialized_twice}

abbrev clean : TransformMeta
clean = record {
  name = "clean";
  schema = "silver";
  sql = "SELECT * FROM bronze.orders";
  depends_on = [];
  materialized = false;
  fact_table = none;
}

abbrev totals : TransformMeta
totals = record {
  name = "totals";
  schema = "gold";
  sql = "SELECT SUM(n) FROM silver.clean";
  depends_on = "silver.clean" ∷ [];
  materialized = true;
  fact_table = none;
}

-- The names from the last to the first, where that is an order.
abbrev backwards : List String → List String
backwards [] = []
backwards (n ∷ ns) = backwards ns ++ (n ∷ [])

abbrev last_first : Dict String (List String) → Option (List String)
last_first g =
    if respects (predecessors g) [] (backwards (keys g)) then some (backwards (keys g)) else none

ordered-if :
    (g : Dict String (List String)) (names found : List String) (b : Bool)
    → respects (predecessors g) [] names ≡ b
    → (if b then some names else none) ≡ some found
    → respects (predecessors g) [] found ≡ true
ordered-if g names found true r h =
    subst (λ x. respects (predecessors g) [] x ≡ true) (the_names names found h) r
  where
    the_names : (xs ys : List String) → Path (Option (List String)) (some xs) (some ys) → xs ≡ ys
    the_names xs ys e = cc
ordered-if g names found false r h = cc

last_first-sorted :
    (g : Dict String (List String)) (names : List String)
    → last_first g ≡ some names
    → respects (predecessors g) [] names ≡ true
last_first-sorted g names h =
    ordered-if g (backwards (keys g)) names (respects (predecessors g) [] (backwards (keys g))) refl
      h

abbrev unordered : List TransformMeta
unordered = totals ∷ clean ∷ []

abbrev in_sequence : List TransformMeta
in_sequence = clean ∷ totals ∷ []

built : build_execution_order last_first unordered ≡ ok in_sequence
unfolding build_execution_order by_name build_graph check_all check_dependencies in_layer lookup
    insert respects
built = refl

build_execution_order-ordered_example : is_ordered [] in_sequence ≡ true
build_execution_order-ordered_example =
    build_execution_order-ordered last_first unordered in_sequence last_first-sorted built

abbrev no_failure : Kind → String → String → Catalog → Option String
no_failure kind name sql c = none

abbrev unchanged : String → String
unchanged sql = sql

abbrev no_exception : Kind → String → Catalog → Option String
no_exception kind name c = none

abbrev ran : Result TransformError (List TransformResult) × Catalog
ran = run_transforms no_exception no_failure unchanged last_first false unordered []

abbrev results_of : Result TransformError (List TransformResult) → List TransformResult
results_of (ok rs) = rs
results_of (err e) = []

ended : ran ≡ (ok (results_of ran.0), ran.1)
unfolding run_transforms execute_transforms execute_one rebuild_materialized_gold
    build_execution_order by_name build_graph check_all check_dependencies in_layer lookup insert
    remove respects
ended = refl

materialized_twice_example :
    map reported (results_of ran.0)
    ≡ map declared in_sequence
      ++ map declared (select (λ t. t.schema == "gold" && t.materialized) in_sequence)
materialized_twice_example =
    materialized_twice no_exception no_failure unchanged last_first totals (clean ∷ []) in_sequence
      [] ran.1 (results_of ran.0) built ended
