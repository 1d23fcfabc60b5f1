-- ===== src/Transforms/Execution.antt =====
-- transforms.py: the execution of transforms. Whether DuckDB fails at a statement is a parameter.
use feather_flow.Common.{
  Bool, true, false, not, ◌&&◌, Option, none, some, List, [], ◌∷◌, ◌++◌, select, String, ◌==◌,
  string_eq, if◌then◌else◌, Result, ok, err,
}
use feather_flow.Common.Action.{Action, pure, throw, ◌>>=◌, ◌>>◌}
use feather_flow.Common.Dict.{Dict, lookup, insert, remove}
use feather_flow.Transforms.{TransformMeta, qualified_name, OrderError, build_execution_order}

pub data Kind : Type 0 where
  view table : Kind

-- What the destination holds under a name: the kind and the text it was made of.
pub record Object : Type 0 where
  pub kind : Kind
  pub sql : String

abbrev pub Catalog : Type 0
Catalog = Dict String Object

pub record TransformResult : Type 0 where
  pub name : String
  pub schema : String
  pub type : Kind
  pub status : String
  pub error : Option String

abbrev pub same_kind : Kind → Kind → Bool
same_kind view view = true
same_kind view table = false
same_kind table view = false
same_kind table table = true

-- `t.materialized and t.schema == "gold" and not force_views`
abbrev pub kind_of : Bool → TransformMeta → Kind
kind_of force_views t =
    if t.materialized && (t.schema == "gold" && not force_views) then table else view

-- DROP of an object of the other kind; one of this kind raises, which is passed over.
abbrev pub drop_other : Kind → String → Option Object → Catalog → Catalog
drop_other kind name none c = c
drop_other kind name (some o) c = if same_kind o.kind kind then c else remove name c

abbrev pub is_materialized_gold : TransformMeta → Bool
is_materialized_gold t = t.schema == "gold" && t.materialized

-- A run stops at an order that cannot be made, or at a DROP that fails otherwise than by a
-- CatalogException.
pub data TransformError : Type 0 where
  no_order : OrderError → TransformError
  drop_failed : String → TransformError

-- `drop_raises` is the exception of a DROP that is no CatalogException, `fails` that of a CREATE,
-- and `substitute` the substitution of the variables.
module _ (drop_raises : Kind → String → Catalog → Option String)
    (fails : Kind → String → String → Catalog → Option String) (substitute : String → String) where
  abbrev pub drop_or_raise :
      Kind → String → Option String → Action Catalog TransformError (Unit {0})
  drop_or_raise kind name none c = (ok tt, drop_other kind name (lookup name c) c)
  drop_or_raise kind name (some e) c = (err (drop_failed e), c)

  abbrev pub created_or :
      Kind → TransformMeta → Option String → Action Catalog TransformError TransformResult
  created_or kind t none c = (
    ok (record { name = t.name; schema = t.schema; type = kind; status = "success"; error = none }),
    insert (qualified_name t) (record { kind = kind; sql = substitute t.sql }) c,
  )
  created_or kind t (some e) c = (
    ok (record { name = t.name; schema = t.schema; type = kind; status = "error"; error = some e }),
    c,
  )

  abbrev pub create_object : Kind → TransformMeta → Action Catalog TransformError TransformResult
  create_object kind t c = created_or kind t (fails kind (qualified_name t) (substitute t.sql) c) c

  abbrev pub drop_object : Kind → TransformMeta → Action Catalog TransformError (Unit {0})
  drop_object kind t c =
      drop_or_raise kind (qualified_name t) (drop_raises kind (qualified_name t) c) c

  -- One round of the loop.
  unfoldable pub execute_one : Bool → TransformMeta → Action Catalog TransformError TransformResult
  execute_one force_views t = do
    drop_object (kind_of force_views t) t
    create_object (kind_of force_views t) t

  -- `execute_transforms`
  unfoldable pub execute_transforms :
      Bool → List TransformMeta → Action Catalog TransformError (List TransformResult)
  execute_transforms force_views [] = pure []
  execute_transforms force_views (t ∷ ts) = do
    r ← execute_one force_views t
    rs ← execute_transforms force_views ts
    pure (r ∷ rs)

  -- `rebuild_materialized_gold`, whose warnings are only logged
  unfoldable pub rebuild_materialized_gold :
      List TransformMeta → Action Catalog TransformError (List TransformResult)
  rebuild_materialized_gold ts = execute_transforms false (select is_materialized_gold ts)

  abbrev pub run_ordered :
      Bool → List TransformMeta → Action Catalog TransformError (List TransformResult)
  run_ordered true ts = execute_transforms true ts
  run_ordered false ts = do
    rs ← execute_transforms false ts
    again ← rebuild_materialized_gold ts
    pure (rs ++ again)

  abbrev pub run_in_order :
      Bool
      → Result OrderError (List TransformMeta)
      → Action Catalog TransformError (List TransformResult)
  run_in_order force_views (err e) = throw (no_order e)
  run_in_order force_views (ok ts) = run_ordered force_views ts

  -- `run_transforms`, on the transforms that were discovered
  unfoldable pub run_transforms :
      (Dict String (List String) → Option (List String))
      → Bool
      → List TransformMeta
      → Action Catalog TransformError (List TransformResult)
  run_transforms static_order force_views [] = pure []
  run_transforms static_order force_views (t ∷ ts) =
      run_in_order force_views (build_execution_order static_order (t ∷ ts))
