-- ===== src/State/Overrides.antt =====
-- The overrides of the extract planner.
use feather_flow.Common.{
  ℕ, Bool, false, List, [], ◌∷◌, Option, none, some, not, contains, any, or_default, String,
  string_eq, Result, ok, ◌>>◌, raise_if,
}
use feather_flow.Common.Dict.{Dict, lookup, insert, remove, keys}
use feather_flow.State.{ExtractOverride, Db}

pub data OverrideError : Type 0 where
  unknown_field invalid_strategy : OverrideError

abbrev pub valid_window_strategies : List String
valid_window_strategies = "date" ∷ "pk_range" ∷ "single" ∷ []

abbrev pub override_fields : List String
override_fields = "window_strategy" ∷ "window_column" ∷ "window_grain" ∷ "partition_on" ∷ []

unfoldable pub get_override : Db → String → Option ExtractOverride
get_override db table = lookup table db.overrides

-- The keyword arguments: a field that is absent keeps its value, `none` writes a NULL.
abbrev pub Fields : Type 0
Fields = Dict String (Option String)

-- `merged.update(fields)`
unfoldable pub merge_fields : Fields → ExtractOverride → ExtractOverride
merge_fields fields o = record o {
  window_strategy = or_default (lookup "window_strategy" fields) o.window_strategy;
  window_column = or_default (lookup "window_column" fields) o.window_column;
  window_grain = or_default (lookup "window_grain" fields) o.window_grain;
  partition_on = or_default (lookup "partition_on" fields) o.partition_on;
}

unfoldable pub bad_strategy : Fields → Bool
bad_strategy fields = elim (lookup "window_strategy" fields) [
  | none ↦ false
  | some none ↦ false
  | some (some ws) ↦ not (contains valid_window_strategies ws)
]

abbrev pub blank_override : ℕ → String → ExtractOverride
blank_override now table = record {
  table_name = table;
  window_strategy = none;
  window_column = none;
  window_grain = none;
  partition_on = none;
  created_at = now;
}

unfoldable pub set_override : ℕ → String → Fields → Db → Result OverrideError Db
unfolding merge_fields bad_strategy
set_override now table fields db = do
  raise_if (any (λ f. not (contains override_fields f)) (keys fields)) unknown_field
  raise_if (bad_strategy fields) invalid_strategy
  let existing = or_default (lookup table db.overrides) (blank_override now table)
  ok (record db { overrides = insert table (merge_fields fields existing) db.overrides })

unfoldable pub clear_override : String → Db → Db
clear_override table db = record db { overrides = remove table db.overrides }
