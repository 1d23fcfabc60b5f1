-- ===== src/Selection/Tests.antt =====
-- A catalog of three tables, one of which is denied.
use feather_flow.Common.{
  ◌≡◌, refl, ℕ, Bool, true, false, ◌||◌, none, List, [], ◌∷◌, map, String, ◌==◌, string_eq, pair_eq,
  All,
}
use feather_flow.Common.Dict.{lookup, insert}
use feather_flow.Common.Int.{negsuc}
use feather_flow.Common.Sets.{sort, distinct}
use feather_flow.Selection.{
  SourceColumn, SourceRelation, Manifest, Patterns, preserve_source, Relation, target, matches,
  included, first_rule,
}
use feather_flow.Selection.Keys.{key_for, check_denied, secret_warnings, deny_columns_for}
use feather_flow.Selection.Compile.{
  Python, compile, compile_relation, compile_relations, collisions, verdict,
}
use feather_flow.Selection.Selected.{IsSelected, compile-IsSelected}
use feather_flow.Selection.Targets.{has_errors, are_distinct, plan_without_errors}

abbrev glob : String → String → Bool
glob name pattern = pattern == "*" || pattern == name

abbrev equal_name : String × String → String × String → Bool
equal_name a b = a == b

abbrev equal_text : String → String → Bool
equal_text a b = a == b

abbrev python : Python
python = record {
  fnmatch = glob;
  is_secret = λ name. equal_text name "token";
  sha256 = λ text. text;
  text_before = equal_text;
  name_before = equal_name;
}

abbrev source_column : String → ℕ → Bool → SourceColumn
source_column name type_oid not_null = record {
  name = name;
  attnum = type_oid;
  type_oid = type_oid;
  typmod = negsuc 0;
  not_null = not_null;
  type_name = "";
  is_array = false;
}

abbrev source_table : String → SourceRelation
source_table name = record {
  schema = "erp";
  table = name;
  oid = 16384;
  columns = source_column "id" 20 true ∷ source_column "token" 25 false ∷ [];
  primary_key = "id" ∷ [];
  unique_indexes = [];
  replica_identity = "d";
  kind = "r";
}

abbrev catalog : List SourceRelation
catalog = source_table "items" ∷ source_table "orders" ∷ source_table "salaries" ∷ []

abbrev patterns : List String → List String → Patterns
patterns schemas tables = record { schemas = schemas; tables = tables }

abbrev manifest : Manifest
manifest = record {
  source_id = "erp";
  include = patterns ("erp" ∷ []) [];
  exclude = patterns [] ("erp.salaries" ∷ []);
  deny = patterns [] ("erp.items" ∷ []);
  deny_columns = ("erp.orders", "token" ∷ []) ∷ [];
  has_discovery = false;
  rules = [];
  key_overrides = [];
  replica_identity = "full";
  tables_without_key = "reject";
  table_schemas = [];
  schema_mapping = preserve_source;
}

denied_items : (compile python manifest catalog [] none).denied_hits ≡ "erp.items" ∷ []
unfolding compile sort verdict matches included
denied_items = refl

abbrev pairs : List Relation → List (String × String)
pairs = map (λ r. (r.schema, r.table))

one_selected : pairs (compile python manifest catalog [] none).relations ≡ ("erp", "orders") ∷ []
unfolding compile sort verdict matches included compile_relations compile_relation key_for
    deny_columns_for check_denied distinct lookup
one_selected = refl

compile-IsSelected_example :
    All (IsSelected python manifest) (compile python manifest catalog [] none).relations
compile-IsSelected_example = compile-IsSelected python manifest catalog [] none

abbrev open_manifest : Manifest
open_manifest = record manifest { deny = patterns [] [] }

no_errors : has_errors (compile python open_manifest catalog [] none).problems ≡ false
unfolding has_errors compile sort verdict matches included compile_relations compile_relation
    key_for deny_columns_for check_denied secret_warnings distinct lookup collisions insert
    first_rule
no_errors = refl

plan_without_errors_example :
    ((compile python open_manifest catalog [] none).denied_hits ≡ [])
    × (are_distinct (map target (compile python open_manifest catalog [] none).relations) ≡ true)
plan_without_errors_example = plan_without_errors python open_manifest catalog [] none no_errors
