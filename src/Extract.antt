-- ===== src/Extract.antt =====
-- src/feather_flow/extract.py: `feather extract`. The sources are a parameter, `open_source`, as is
-- the text of an exception that the state database raises. The clock's readings for a table come
-- with it. Heartbeats and logging are left out.
pub mod Tables
pub mod Resume
pub mod Outcomes
mod Tests
use feather_flow.Common.{
  ℕ, ◌+◌, ◌≡◌, Bool, true, false, is_some, not, ◌&&◌, Option, none, some, or_default, List, [], ◌∷◌,
  map, if◌then◌else◌, length, contains, select, ltb, String, ◌==◌, string_eq, Result, ok, err,
  nat_eq,
}
use feather_flow.Common.Dict.{Dict, lookup}
use feather_flow.Common.Action.{
  Action, pure, throw, gets, lift, modify, when, try_except, ◌>>=◌, ◌>>◌,
}
use feather_flow.Common.Text.{◌<>◌, str_nat}
use feather_flow.Curation.{SourceConfig, resolve_source, join}
use feather_flow.Destination.{World, Stream, load_batched_append}
use feather_flow.State.{Db, Run, Watermark}
use feather_flow.State.Meta.{MetaError, init_state}
use feather_flow.State.Runs.{RunError, record_run}
use feather_flow.State.Watermarks.{WatermarkUpdate, read_watermark, write_watermark}
use feather_flow.State.WindowLog.{
  clear_all_windows, clear_windows_for_table, get_all_window_table_names, get_committed_windows,
}
use feather_flow.Windows.{WindowSpec, single_window}

-- `ChangeResult`, with the entries of `metadata` that are read.
pub record ChangeResult : Type 0 where
  pub changed : Bool
  pub file_mtime : Option ℕ
  pub file_hash : Option String
  pub checksum : Option String
  pub row_count : Option ℕ

-- What the extract uses of a source. `extract` gives the batches of the materialized table.
pub record Source (Row : Type 0) : Type 0 where
  pub transport_name : String
  pub detect_changes : String → Option Watermark → Result String ChangeResult
  pub extract_batches : Option (String → Option String → Stream Row)
  pub extract : String → Result String (List (List Row))

-- What it reads of a `TableConfig`, and of the clock.
pub record TableConfig : Type 0 where
  pub name : String
  pub database : Option String
  pub source_name : Option String
  pub source_table : String
  pub now : ℕ
  pub ended_at : ℕ
  -- the time at which the commit log of a window is written, or the exception of the write
  pub committed_at : WindowSpec → Result String ℕ

pub record ExtractResult : Type 0 where
  pub table_name : String
  pub source_db : String
  pub status : String
  pub rows_loaded : ℕ
  pub error_message : Option String

pub record Options : Type 0 where
  pub refresh : Bool
  pub refresh_all : Bool
  pub pre_planned_windows : Option (Dict String (List WindowSpec))

-- The libraries: the texts of exceptions and of a time.
pub record Texts : Type 0 where
  pub run_error : RunError → String
  pub meta_error : MetaError → String
  pub isoformat : ℕ → String

-- `a or b`
abbrev pub or_text : Option String → String → String
or_text none t = t
or_text (some s) t = if s == "" then t else s

abbrev pub source_db_of : TableConfig → String
source_db_of table = or_text table.database (or_text table.source_name "")

abbrev pub target_of : TableConfig → String
target_of table = "bronze." <> table.name

abbrev pub failed : TableConfig → String → ExtractResult
failed table e = record {
  table_name = table.name;
  source_db = source_db_of table;
  status = "failure";
  rows_loaded = 0;
  error_message = some e;
}

abbrev pub cached : TableConfig → ExtractResult
cached table = record {
  table_name = table.name;
  source_db = source_db_of table;
  status = "cached";
  rows_loaded = 0;
  error_message = none;
}

abbrev pub text_err : {E A : Type 0} → (E → String) → Result E A → Result String A
text_err f (ok a) = ok a
text_err f (err e) = err (f e)

-- The plan of a table: the one handed in, or `plan_windows(table)`, whose strategy is `single`.
abbrev planned_for : String → Option (List WindowSpec) → List WindowSpec
planned_for name none = single_window ∷ []
planned_for name (some ws) = ws

unfoldable pub windows_of : Options → String → List WindowSpec
windows_of options name = elim options.pre_planned_windows [
  | none ↦ single_window ∷ []
  | some plans ↦ planned_for name (lookup name plans)
]

unfoldable pub uncommitted : List String → List WindowSpec → List WindowSpec
uncommitted committed = select (λ w. not (contains committed w.window_key))

module _ {Row : Type 0} where
  -- A materialized table: at least one batch, so that the schema is known.
  abbrev pub table_batches : Result String (List (List Row)) → Stream Row
  table_batches (err e) = record { batches = []; failure = some e }
  table_batches (ok []) = record { batches = [] ∷ []; failure = none }
  table_batches (ok (b ∷ bs)) = record { batches = b ∷ bs; failure = none }

  -- A source without `extract_batches` does not see the filter.
  unfoldable pub iter_source_batches : Source Row → String → Option String → Stream Row
  iter_source_batches source source_table source_filter = elim source.extract_batches [
    | some fetch ↦ fetch source_table source_filter
    | none ↦ table_batches (source.extract source_table)
  ]

module _ {Row : Type 0} (holds : String → Row → Bool) (texts : Texts) where
  -- `state.record_run(…, trigger="extract")`
  unfoldable pub note_run :
      TableConfig → String → ℕ → Option String → Action (World Row) String Unit
  note_run table status rows message = do
    db ← gets (λ w. w.db)
    noted ← lift (
        text_err texts.run_error (
          record_run
            (record {
              run_id = "extract_" <> table.name <> "_" <> texts.isoformat table.now;
              table_name = table.name;
              started_at = table.now;
              ended_at = table.ended_at;
              status = status;
              rows_extracted = rows;
              rows_loaded = rows;
              error_message = message;
              watermark_before = none;
              watermark_after = none;
              schema_changes = none;
              trigger = some "extract";
            })
            db))
    modify (λ w. record w { db = noted })

  abbrev pub fail_table : TableConfig → String → Action (World Row) String ExtractResult
  fail_table table e = do note_run table "failure" 0 (some e); pure (failed table e)

  abbrev pub load_window : TableConfig → Source Row → WindowSpec → Action (World Row) String ℕ
  load_window table source window =
      load_batched_append holds (table.committed_at window) (target_of table) window
        (iter_source_batches source table.source_table window.source_filter)
        ("extract_" <> table.name <> "_" <> texts.isoformat table.now) source.transport_name

  unfoldable pub load_windows :
      TableConfig → Source Row → List WindowSpec → Action (World Row) String ℕ
  load_windows table source [] = pure 0
  load_windows table source (window ∷ rest) = do
    rows ← load_window table source window
    others ← load_windows table source rest
    pure (rows + others)

  abbrev pub success_mark : TableConfig → ChangeResult → WatermarkUpdate
  success_mark table change = record {
    strategy = none;
    last_run_at = some table.now;
    last_file_mtime = change.file_mtime;
    last_file_hash = change.file_hash;
    last_value = none;
    last_checksum = change.checksum;
    last_row_count = change.row_count;
    source_db = some (source_db_of table);
  }

  -- What follows the loop over the windows.
  unfoldable pub finish_table :
      TableConfig → ChangeResult → ℕ → Action (World Row) String ExtractResult
  finish_table table change rows = do
    modify (λ w. record w {
      db = write_watermark table.ended_at table.name (success_mark table change) w.db;
    })
    note_run table "success" rows none
    pure (record {
      table_name = table.name;
      source_db = source_db_of table;
      status = "success";
      rows_loaded = rows;
      error_message = none;
    })

  -- The body of the `try` from the reading of the commit log on.
  unfoldable pub extract_pending :
      Options → TableConfig → Source Row → ChangeResult → Action (World Row) String ExtractResult
  extract_pending options table source change = do
    committed ← gets (λ w. get_committed_windows w.db (target_of table))
    rows ← load_windows table source (uncommitted committed (windows_of options table.name))
    finish_table table change rows

  abbrev pub forget_windows : TableConfig → World Row → World Row
  forget_windows table w = record w { db = clear_windows_for_table (target_of table) w.db }

  -- The body of the `try`.
  unfoldable pub extract_changed :
      Options → TableConfig → Source Row → ChangeResult → Action (World Row) String ExtractResult
  extract_changed options table source change = do
    when options.refresh (modify (forget_windows table))
    extract_pending options table source change

  abbrev pub skip_table : TableConfig → Action (World Row) String ExtractResult
  skip_table table = do note_run table "skipped" 0 none; pure (cached table)

  -- What follows the detection of changes.
  abbrev pub extract_detected :
      Options → TableConfig → Source Row → ChangeResult → Action (World Row) String ExtractResult
  extract_detected options table source change =
      if not change.changed && not options.refresh
      then skip_table table
      else try_except (extract_changed options table source change) (fail_table table)

  -- A table whose source is known.
  unfoldable pub extract_from :
      Options → TableConfig → Source Row → Action (World Row) String ExtractResult
  extract_from options table source = do
    wm ← gets (λ w. read_watermark w.db table.name)
    change ← lift (source.detect_changes table.source_table wm)
    extract_detected options table source change
