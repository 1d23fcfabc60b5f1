-- ===== src/Pipeline/Table.antt =====
-- src/feather_flow/pipeline.py: `run_table`, statement by statement. The clock's readings for a
-- table come with it, and logging and alerts are left out.
use feather_flow.Common.{
  ℕ, zero, suc, Bool, Option, none, some, List, [], ◌∷◌, if◌then◌else◌, String, ◌==◌, string_eq,
  Result,
}
use feather_flow.Common.Dict.{Dict, keys}
use feather_flow.Common.Text.{◌<>◌}
use feather_flow.Destination.{World, Loaded}
use feather_flow.SchemaDrift.{Schema, DriftReport}
use feather_flow.State.{Watermark, DqRow}
use feather_flow.State.Meta.{MetaError}
use feather_flow.State.Runs.{RunError}

-- The entries of `ChangeResult.metadata` that are read.
pub record Metadata : Type 0 where
  pub file_mtime : Option ℕ
  pub file_hash : Option String
  pub checksum : Option String
  pub row_count : Option ℕ

-- `metadata` is `none` for an empty dictionary.
pub record Change : Type 0 where
  pub changed : Bool
  pub metadata : Option Metadata

-- The keyword arguments of `extract`.
pub record Request : Type 0 where
  pub source_table : String
  pub columns : Option (List String)
  pub filter : Option String
  pub watermark : Option (String × String)

pub record RunSource (Row : Type 0) : Type 0 where
  pub detect_changes : String → Option Watermark → Result String Change
  pub get_schema : String → Result String Schema
  pub extract : Request → Result String (List Row)

-- What is read of a `TableConfig`, of the defaults, and of the clock.
pub record RunConfig : Type 0 where
  pub name : String
  pub database : Option String
  pub source_table : String
  pub target_table : Option String
  pub strategy : String
  pub timestamp_column : String
  pub primary_key : Option (List String)
  pub filter : Option String
  pub column_map : Dict String String
  pub dedup : Bool
  pub dedup_columns : List String
  pub row_limit : ℕ
  pub overlap_window_minutes : ℕ
  pub now : ℕ
  pub started_at : ℕ
  pub ended_at : ℕ

pub record RunResult : Type 0 where
  pub table_name : String
  pub run_id : String
  pub status : String
  pub rows_loaded : ℕ
  pub error_message : Option String

-- What a statement that alters a table ends in: the rows of the table, a CatalogException, or
-- another exception.
pub data Altered (Row : Type 0) : Type 0 where
  altered_rows : List (Loaded Row) → Altered Row
  no_catalog_entry other_exception : Altered Row

-- What is not this program: Python's texts of times and values, SHA-256, Arrow's operations on a
-- table, DuckDB's queries and the texts of its exceptions, the checks of quality.
pub record Libraries (Row : Type 0) : Type 0 where
  pub run_error : RunError → String
  pub meta_error : MetaError → String
  pub catalog_error : String → String
  pub isoformat : ℕ → String
  pub fromisoformat : String → Result String ℕ
  pub sha256 : String → String
  -- `str` of a row's value in a column
  pub cell : String → Row → String
  -- the instant in a timestamp column
  pub stamp : String → Row → Option ℕ
  pub rename_columns : Dict String String → List Row → Result String (List Row)
  pub select_distinct : List Row → Result String (List Row)
  pub first_of_each : List String → List Row → Result String (List Row)
  -- `ALTER TABLE … ADD COLUMN` on the table, if there is one
  pub add_column : String × String → Option (List (Loaded Row)) → Altered Row
  pub drift_json : DriftReport → String
  pub run_dq_checks : World Row → String → Result String (List DqRow)

abbrev pub run_id_of : {Row : Type 0} → Libraries Row → RunConfig → String
run_id_of libs t = t.name <> "_" <> libs.isoformat t.now

abbrev pub slice_rows : {A : Type 0} → ℕ → List A → List A
slice_rows zero xs = []
slice_rows (suc n) [] = []
slice_rows (suc n) (x ∷ xs) = x ∷ slice_rows n xs

-- `if config.defaults.row_limit: data.slice(0, row_limit)`
abbrev pub limited : {A : Type 0} → ℕ → List A → List A
limited zero xs = xs
limited (suc n) xs = slice_rows (suc n) xs

abbrev pub is_incremental : RunConfig → Bool
is_incremental t = t.strategy == "incremental"

-- `wm.get("last_value") if wm else None`
abbrev pub last_value_of : Option Watermark → Option String
last_value_of none = none
last_value_of (some w) = w.last_value

-- `str(v) if v else None`
abbrev pub nonempty_text : Option String → Option String
nonempty_text none = none
nonempty_text (some s) = if s == "" then none else some s

abbrev pub metadata_of : Option Metadata → Metadata
metadata_of none = record { file_mtime = none; file_hash = none; checksum = none; row_count = none }
metadata_of (some m) = m

abbrev pub mapped_columns : RunConfig → Option (List String)
mapped_columns t = columns_of (keys t.column_map)
  where
    columns_of : List String → Option (List String)
    columns_of [] = none
    columns_of (c ∷ cs) = some (c ∷ cs)
