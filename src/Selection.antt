-- ===== src/Selection.antt =====
-- packages/feather-cdc-postgres/src/feather_cdc_postgres/selectors.py: the relations that a
-- manifest selects of a source's catalog. `fnmatch` is Python's `fnmatchcase` of a name and a
-- pattern, `text_before` and `name_before` are the orders of texts and of pairs. A problem keeps
-- its code, its severity and what it names; its sentence is left out.
pub mod Keys
pub mod Compile
pub mod Selected
pub mod Targets
mod Tests
use feather_flow.Common.{
  ℕ, Bool, true, false, not, ◌&&◌, ◌||◌, Option, none, some, List, [], ◌∷◌, any, contains, String,
  ◌==◌, string_eq, if◌then◌else◌,
}
use feather_flow.Common.Dict.{Dict, lookup}
use feather_flow.Common.Int.{ℤ}
use feather_flow.Common.Text.{◌<>◌}

pub record Problem : Type 0 where
  pub code : String
  pub severity : String
  pub subject : String

pub record SourceColumn : Type 0 where
  pub name : String
  pub attnum : ℕ
  pub type_oid : ℕ
  pub typmod : ℤ
  pub not_null : Bool
  pub type_name : String
  pub is_array : Bool

pub record UniqueIndex : Type 0 where
  pub name : String
  pub columns : List String

pub record SourceRelation : Type 0 where
  pub schema : String
  pub table : String
  pub oid : ℕ
  pub columns : List SourceColumn
  pub primary_key : List String
  pub unique_indexes : List UniqueIndex
  pub replica_identity : String
  pub kind : String

pub record AdapterRelation : Type 0 where
  pub schema : String
  pub table : String
  pub module_name : Option String
  pub description : Option String
  pub origin : Option String

-- `Selection`: patterns of schemas and of qualified tables.
pub record Patterns : Type 0 where
  pub schemas : List String
  pub tables : List String

-- `schema_mapping`
pub data Mapping : Type 0 where
  preserve_source : Mapping
  by_schema : Dict String String → Mapping

-- What is read of a manifest. `rules` and `table_schemas` are pairs of a pattern and a value.
pub record Manifest : Type 0 where
  pub source_id : String
  pub include : Patterns
  pub exclude : Patterns
  pub deny : Patterns
  pub deny_columns : Dict String (List String)
  pub has_discovery : Bool
  pub rules : List (String × String)
  pub key_overrides : Dict String String
  pub replica_identity : String
  pub tables_without_key : String
  pub table_schemas : List (String × String)
  pub schema_mapping : Mapping

pub record Relation : Type 0 where
  pub schema : String
  pub table : String
  pub key : List String
  pub key_policy : String
  pub table_class : String
  pub module_name : Option String
  pub target_schema : String
  pub key_index : Option String
  pub description : Option String
  pub origin : Option String
  pub deny_columns : List String

abbrev pub qualified : String → String → String
qualified schema table = schema <> "." <> table

abbrev pub qualified_of : SourceRelation → String
qualified_of r = qualified r.schema r.table

-- `Relation.target`
abbrev pub target : Relation → String
target r = qualified (if r.target_schema == "" then r.schema else r.target_schema) r.table

module _ (fnmatch : String → String → Bool) where
  -- `_matches`
  unfoldable pub matches : String → String → Patterns → Bool
  matches name schema p = any (fnmatch schema) p.schemas || any (fnmatch name) p.tables

  abbrev pub include_tables : Bool → String → List String → List String → Bool
  include_tables schema_ok name [] schemas = schema_ok
  include_tables schema_ok name (t ∷ ts) [] = any (fnmatch name) (t ∷ ts)
  include_tables schema_ok name (t ∷ ts) (s ∷ ss) = schema_ok && any (fnmatch name) (t ∷ ts)

  -- `_included`
  unfoldable pub included : String → String → Patterns → Bool
  included name schema p = include_tables (any (fnmatch schema) p.schemas) name p.tables p.schemas

  -- The first rule whose pattern matches.
  unfoldable pub first_rule : String → List (String × String) → Option String
  first_rule name [] = none
  first_rule name ((pattern, value) ∷ rules) =
      let rest = first_rule name rules in if fnmatch name pattern then some value else rest

  abbrev pub mapped_schema : Mapping → String → String
  mapped_schema preserve_source schema = schema
  mapped_schema (by_schema m) schema = found (lookup schema m)
    where
      found : Option String → String
      found none = schema
      found (some s) = s

  -- `Destination.target_schema`
  abbrev pub target_schema_of : Manifest → String → String → String
  target_schema_of m schema table = ruled (first_rule (qualified schema table) m.table_schemas)
    where
      ruled : Option String → String
      ruled (some s) = s
      ruled none = mapped_schema m.schema_mapping schema
