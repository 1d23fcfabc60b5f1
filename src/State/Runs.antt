-- ===== src/State/Runs.antt =====
-- The run history.
use feather_flow.Common.{
  ℕ, ◌-◌, ◌^◌, ltb, ◌||◌, Bool, false, List, [], ◌∷◌, ◌++◌, Option, none, some, not, contains,
  String, string_eq, Result, ok, ◌>>◌, raise_if,
}
use feather_flow.State.{Run, Db}

pub data RunError : Type 0 where
  invalid_trigger duplicate_run out_of_range : RunError

abbrev pub valid_triggers : List String
valid_triggers = "run" ∷ "extract" ∷ "transform" ∷ "schedule" ∷ []

abbrev pub run_ids : List Run → List String
run_ids [] = []
run_ids (r ∷ rs) = r.run_id ∷ run_ids rs

abbrev pub bad_trigger : Option String → Bool
bad_trigger none = false
bad_trigger (some t) = not (contains valid_triggers t)

-- The greatest INTEGER of DuckDB.
abbrev pub integer_max : ℕ
integer_max = 2 ^ 31 - 1

abbrev pub too_many_rows : Run → Bool
too_many_rows r = ltb integer_max r.rows_extracted || ltb integer_max r.rows_loaded

-- The counts of rows are INTEGER columns and `run_id` is the primary key: an INSERT of a greater count
-- or of an id that is there raises.
unfoldable pub record_run : Run → Db → Result RunError Db
record_run r db = do
  raise_if (bad_trigger r.trigger) invalid_trigger
  raise_if (too_many_rows r) out_of_range
  raise_if (contains (run_ids db.runs) r.run_id) duplicate_run
  ok (record db { runs = db.runs ++ (r ∷ []) })
