-- ===== src/Selection/Keys.antt =====
-- selectors.py: the merge key of a relation, the columns that are withheld, and its class.
use feather_flow.Common.{
  ℕ, nat_eq, Bool, true, false, ◌&&◌, ◌||◌, Option, none, some, List, [], ◌∷◌, ◌++◌, map, all,
  contains, String, ◌==◌, string_eq, if◌then◌else◌,
}
use feather_flow.Common.Dict.{lookup}
use feather_flow.Common.Sets.{distinct, minus, sort}
use feather_flow.Common.Text.{◌<>◌, codes}
use feather_flow.Selection.{
  Problem, SourceColumn, UniqueIndex, SourceRelation, Manifest, qualified, qualified_of, first_rule,
}

abbrev pub problem : String → String → String → Problem
problem code severity subject = record { code = code; severity = severity; subject = subject }

-- What `_key_for` returns, with the problems that it adds.
pub record KeyChoice : Type 0 where
  pub key : List String
  pub policy : String
  pub index_name : Option String
  pub keep : Bool
  pub problems : List Problem

abbrev pub choice : List String → String → Option String → Bool → List Problem → KeyChoice
choice key policy index keep problems = record {
  key = key;
  policy = policy;
  index_name = index;
  keep = keep;
  problems = problems;
}

abbrev pub not_null_names : List SourceColumn → List String
not_null_names [] = []
not_null_names (c ∷ cs) = let rest = not_null_names cs in if c.not_null then c.name ∷ rest else rest

-- The first index without a nullable column.
unfoldable pub first_index : List String → List UniqueIndex → Option UniqueIndex
first_index notnull [] = none
first_index notnull (i ∷ is) =
    let rest = first_index notnull is in if all (contains notnull) i.columns then some i else rest

abbrev pub carries_key : Manifest → SourceRelation → Bool
carries_key m rel =
    m.replica_identity == "full" || (rel.replica_identity == "f" || rel.replica_identity == "i")

abbrev pub index_choice : Manifest → SourceRelation → Option UniqueIndex → KeyChoice
index_choice m rel (some i) = choice i.columns "unique_index" (some i.name) true (
    if carries_key m rel
    then []
    else problem "unique_key_needs_identity" "warning" (qualified_of rel) ∷ [])
index_choice m rel none =
    if m.tables_without_key == "append_only"
    then choice [] "append_only" none true
        (problem "no_key_append_only" "warning" (qualified_of rel) ∷ [])
    else choice [] "append_only" none false
        (problem "no_key_rejected" "error" (qualified_of rel) ∷ [])

abbrev pub catalog_choice : Manifest → SourceRelation → List String → KeyChoice
catalog_choice m rel [] =
    index_choice m rel (first_index (not_null_names rel.columns) rel.unique_indexes)
catalog_choice m rel (c ∷ cs) = choice (c ∷ cs) "primary_key" none true []

-- `_key_for`
unfoldable pub key_for : Manifest → SourceRelation → KeyChoice
key_for m rel = overridden (lookup (qualified_of rel) m.key_overrides)
  where
    overridden : Option String → KeyChoice
    overridden none = catalog_choice m rel rel.primary_key
    overridden (some policy) =
        if policy == "append_only"
        then choice [] "append_only" none true []
        else if policy == "full_row"
        then choice [] "full_row" none false
            (problem "full_row_unsupported" "error" (qualified_of rel) ∷ [])
        else catalog_choice m rel rel.primary_key

abbrev pub denied_names : Option (List String) → List String
denied_names none = []
denied_names (some names) = names

module _ (text_before : String → String → Bool) (is_secret : String → Bool) where
  -- `sorted(set(m.source.deny_columns.get(rel.qualified, [])))`
  abbrev pub denied_columns : Manifest → SourceRelation → List String
  denied_columns m rel =
      sort text_before (distinct (denied_names (lookup (qualified_of rel) m.deny_columns)))

  abbrev pub names_of_columns : List SourceColumn → List String
  names_of_columns = map (λ c. c.name)

  -- The loop over the denied columns: whether one is of the key, which ends it.
  unfoldable pub check_denied :
      String → List String → List String → List String → Bool × List Problem
  check_denied name key present [] = (false, [])
  check_denied name key present (col ∷ cols) =
      let (hit, rest) = check_denied name key present cols in
      if contains key col
      then (true, problem "deny_column_is_key" "error" (name <> "." <> col) ∷ [])
      else (
        hit,
        (if contains present col
            then rest
            else problem "deny_column_absent" "warning" (name <> "." <> col) ∷ rest),
      )

  unfoldable pub secret_warnings : String → List String → List Problem
  secret_warnings name [] = []
  secret_warnings name (col ∷ cols) =
      let rest = secret_warnings name cols in
      if is_secret col
      then problem "secret_like_column" "warning" (name <> "." <> col) ∷ rest
      else rest

  -- `_deny_columns_for`
  unfoldable pub deny_columns_for :
      Manifest → SourceRelation → List String → Option (List String) × List Problem
  deny_columns_for m rel key =
      let denied = denied_columns m rel in
      let present = names_of_columns rel.columns in
      let (hit, problems) = check_denied (qualified_of rel) key present denied in
      if hit then (none, problems) else (
        some denied,
        problems
            ++ secret_warnings (qualified_of rel)
                (sort text_before (minus (distinct present) denied)),
      )

abbrev pub source_operational : List String
source_operational = "background_job" ∷ "job_execution" ∷ []

abbrev pub source_system : List String
source_system =
    "table_def" ∷ "column_def" ∷ "person" ∷ "identifier_system" ∷ "role" ∷ "has_role" ∷ "permission"
    ∷ "data_scope" ∷ "share" ∷ "user_event" ∷ "access_log" ∷ "activity_log" ∷ "version"
    ∷ "migration" ∷ "site" ∷ []

abbrev pub is_user_created : Option String → Bool
is_user_created none = false
is_user_created (some origin) = origin == "user_created"

-- `str.startswith`
abbrev pub starts_with : List ℕ → List ℕ → Bool
starts_with [] text = true
starts_with (w ∷ ws) [] = false
starts_with (w ∷ ws) (c ∷ cs) = w == c && starts_with ws cs

-- `table_class`
unfoldable pub table_class_of :
    (String → String → Bool) → Manifest → String → String → Option String → String
table_class_of fnmatch m schema table origin =
    ruled (first_rule fnmatch (qualified schema table) m.rules)
  where
    ruled : Option String → String
    ruled (some c) = c
    ruled none =
        if starts_with (codes "_dlt_") (codes table) || schema == "_cdc_runtime"
        then "loader_internal"
        else if is_user_created origin
        then "application"
        else if m.source_id == "control_plane" && schema == "control"
        then "warehouse_control"
        else if contains source_operational table
        then "source_operational"
        else if contains source_system table
        then "source_system"
        else "application"
