-- ===== src/State.antt =====
-- src/feather_flow/state.py: the tables of the state database. A table with a primary key is a
-- dictionary from its key, one without is the list of its rows; a NULL is `none`. Times are
-- microseconds, read from the clock by the caller and passed in. Each method opens a connection of
-- its own and runs statements that DuckDB commits one by one, so a method is a function on `Db`.
pub mod Watermarks
pub mod Retry
pub mod WindowLog
pub mod Overrides
pub mod Runs
pub mod Snapshots
pub mod Meta
pub mod Backoff
pub mod Preserved
pub mod CommitLog
pub mod Merging
pub mod Migration
mod Tests
use feather_flow.Common.{ℕ, List, [], Option, none, String}
use feather_flow.Common.Dict.{Dict}
use feather_flow.Common.Text.{Datetime}

-- A row of `_watermarks`. A file's mtime is only compared for equality.
pub record Watermark : Type 0 where
  pub strategy : Option String
  pub last_value : Option String
  pub last_checksum : Option String
  pub last_row_count : Option ℕ
  pub last_file_mtime : Option ℕ
  pub last_file_hash : Option String
  pub last_run_at : Option ℕ
  pub retry_count : Option ℕ
  pub retry_after : Option ℕ
  pub boundary_hashes : Option (List String)
  pub source_db : Option String

-- A row of `_runs`, less the columns that no caller fills.
pub record Run : Type 0 where
  pub run_id : String
  pub table_name : String
  pub started_at : ℕ
  pub ended_at : ℕ
  pub status : String
  pub rows_extracted : ℕ
  pub rows_loaded : ℕ
  pub error_message : Option String
  pub watermark_before : Option String
  pub watermark_after : Option String
  pub schema_changes : Option String
  pub trigger : Option String

-- A row of `_extract_windows`, behind its key of table and window.
pub record WindowRow : Type 0 where
  pub window_start : Option Datetime
  pub window_end : Option Datetime
  pub rows_loaded : ℕ
  pub transport_used : String
  pub committed_at : ℕ
  pub run_id : String

-- A row of `_extract_overrides`.
pub record ExtractOverride : Type 0 where
  pub table_name : String
  pub window_strategy : Option String
  pub window_column : Option String
  pub window_grain : Option String
  pub partition_on : Option String
  pub created_at : ℕ

-- A row of `_dq_results`, less its time.
pub record DqRow : Type 0 where
  pub run_id : String
  pub table_name : String
  pub check_type : String
  pub column_name : Option String
  pub result : String
  pub details : String

pub record Db : Type 0 where
  pub schema_version : Option ℕ
  pub watermarks : Dict String Watermark
  -- `_cache_watermarks` of version 1, which the migration drops
  pub cache_watermarks : Option (Dict String Watermark)
  pub runs : List Run
  pub windows : Dict (String × String) WindowRow
  pub overrides : Dict String ExtractOverride
  pub dq_results : List DqRow
  -- `_schema_snapshots`, the rows of a table in their order
  pub snapshots : Dict String (List (String × String))

abbrev pub empty_db : Db
empty_db = record {
  schema_version = none;
  watermarks = [];
  cache_watermarks = none;
  runs = [];
  windows = [];
  overrides = [];
  dq_results = [];
  snapshots = [];
}
