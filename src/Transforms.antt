-- ===== src/Transforms.antt =====
-- src/feather_flow/transforms.py: the order of the silver and gold transforms. `graphlib`'s
-- order of a graph is a parameter, `static_order`, with `none` for a cycle. Files, their parsing
-- and logging are left out; Transforms/Execution has the execution.
pub mod Ordered
pub mod Execution
pub mod Executed
mod Tests
use feather_flow.Common.{
  ℕ, nat_eq, Bool, true, false, not, ◌&&◌, ◌||◌, Option, none, some, List, [], ◌∷◌, ◌++◌, map, any,
  all, select, contains, String, ◌==◌, string_eq, if◌then◌else◌, Result, ok, err, ◌>>=◌, ◌>>◌,
  traverse,
}
use feather_flow.Common.Dict.{Dict, lookup, insert, remove, has}
use feather_flow.Common.Text.{◌<>◌, codes}

pub record TransformMeta : Type 0 where
  pub name : String
  pub schema : String
  pub sql : String
  pub depends_on : List String
  pub materialized : Bool
  pub fact_table : Option String

abbrev pub qualified_name : TransformMeta → String
qualified_name t = t.schema <> "." <> t.name

pub data OrderError : Type 0 where
  unknown_dependency : String → String → OrderError
  cycle : OrderError
  missing_name : String → OrderError

-- The text before the first dot, and whether there is one.
abbrev before_dot : List ℕ → List ℕ
before_dot [] = []
before_dot (c ∷ cs) = let rest = before_dot cs in if c == b'.' then [] else c ∷ rest

abbrev same_codes : List ℕ → List ℕ → Bool
same_codes [] [] = true
same_codes [] (d ∷ ds) = false
same_codes (c ∷ cs) [] = false
same_codes (c ∷ cs) (d ∷ ds) = let rest = same_codes cs ds in if c == d then rest else false

-- `dep.split(".")[0] in VALID_SCHEMAS`
unfoldable pub in_layer : String → Bool
in_layer dep =
    same_codes (before_dot (codes dep)) (codes "silver")
    || same_codes (before_dot (codes dep)) (codes "gold")

-- `{t.qualified_name: t for t in transforms}`
unfoldable pub by_name : Dict String TransformMeta → List TransformMeta → Dict String TransformMeta
by_name d [] = d
by_name d (t ∷ ts) = by_name (insert (qualified_name t) t d) ts

abbrev pub layer_deps : TransformMeta → List String
layer_deps t = select in_layer t.depends_on

unfoldable pub build_graph :
    Dict String (List String) → List TransformMeta → Dict String (List String)
build_graph g [] = g
build_graph g (t ∷ ts) = build_graph (insert (qualified_name t) (layer_deps t) g) ts

-- The dependencies of one transform that no transform provides.
unfoldable pub check_dependencies :
    Dict String TransformMeta → TransformMeta → List String → Result OrderError (Unit {0})
check_dependencies known t [] = ok tt
check_dependencies known t (dep ∷ deps) =
    let rest = check_dependencies known t deps in
    if contains (codes dep) b'.' && (in_layer dep && not (has known dep))
    then err (unknown_dependency (qualified_name t) dep)
    else rest

unfoldable pub check_all :
    Dict String TransformMeta → List TransformMeta → Result OrderError (Unit {0})
check_all known [] = ok tt
check_all known (t ∷ ts) = check_dependencies known t t.depends_on >> check_all known ts

abbrev pub found_transform : String → Option TransformMeta → Result OrderError TransformMeta
found_transform name none = err (missing_name name)
found_transform name (some t) = ok t

abbrev pub in_order :
    Dict String TransformMeta → Option (List String) → Result OrderError (List TransformMeta)
in_order known none = err cycle
in_order known (some names) = traverse (λ n. found_transform n (lookup n known)) names

-- `build_execution_order`
unfoldable pub build_execution_order :
    (Dict String (List String) → Option (List String))
    → List TransformMeta
    → Result OrderError (List TransformMeta)
build_execution_order static_order ts =
    let known = by_name [] ts in
    check_all known ts >> in_order known (static_order (build_graph [] ts))
