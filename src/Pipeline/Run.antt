-- ===== src/Pipeline/Run.antt =====
-- src/feather_flow/pipeline.py: `run_table` and `run_all`.
use feather_flow.Common.{
  ℕ, ◌-◌, Bool, true, false, Option, none, some, or_default, List, [], ◌∷◌, map, max, if◌then◌else◌,
  String, string_eq, Result, ok, err,
}
use feather_flow.Common.{◌>>=◌ as then_result}
use feather_flow.Common.Dict.{Dict}
use feather_flow.Common.Action.{Action, pure, gets, lift, modify, ◌>>=◌, ◌>>◌}
use feather_flow.Common.Text.{◌<>◌}
use feather_flow.Extract.{text_err}
use feather_flow.Destination.{World, commit_table, table_of}
use feather_flow.Pipeline.{resolve_target}
use feather_flow.Pipeline.Table.{
  Altered, altered_rows, no_catalog_entry, other_exception, Metadata, Change, Request, RunSource,
  RunConfig, RunResult, Libraries, run_id_of, limited, is_incremental, mapped_columns,
}
use feather_flow.SchemaDrift.{Schema, detect_drift, has_drift}
use feather_flow.State.{Db, Run, DqRow}
use feather_flow.State.Retry.{minutes}
use feather_flow.State.Runs.{record_run}
use feather_flow.State.Snapshots.{record_dq_result, save_schema_snapshot, get_schema_snapshot}
use feather_flow.State.Watermarks.{WatermarkUpdate, write_watermark}

-- `pc.max`, which passes over NULLs
abbrev pub greatest : Option ℕ → Option ℕ → Option ℕ
greatest none b = b
greatest (some a) none = some a
greatest (some a) (some b) = some (max a b)

unfoldable pub max_of : List (Option ℕ) → Option ℕ
max_of [] = none
max_of (t ∷ ts) = greatest t (max_of ts)

module _ {Row : Type 0} (libs : Libraries Row) where
  abbrev pub effective_target : RunConfig → String
  effective_target t = resolve_target t.name t.target_table

  -- The row of a run that has loaded nothing.
  abbrev pub blank_run : RunConfig → String → ℕ → Run
  blank_run t status started = record {
    run_id = run_id_of libs t;
    table_name = t.name;
    started_at = started;
    ended_at = t.ended_at;
    status = status;
    rows_extracted = 0;
    rows_loaded = 0;
    error_message = none;
    watermark_before = none;
    watermark_after = none;
    schema_changes = none;
    trigger = some "run";
  }

  abbrev pub result_of : RunConfig → String → ℕ → Option String → RunResult
  result_of t status rows message = record {
    table_name = t.name;
    run_id = run_id_of libs t;
    status = status;
    rows_loaded = rows;
    error_message = message;
  }

  abbrev pub on_db : (Db → Db) → World Row → World Row
  on_db f w = record w { db = f w.db }

  unfoldable pub note_row : Run → Action (World Row) String Unit
  note_row row = do
    db ← gets (λ w. w.db)
    with_run ← lift (text_err libs.run_error (record_run row db))
    modify (on_db (λ d. with_run))

  abbrev pub backoff_text : Option String → String
  backoff_text message = "In backoff (previous failure: " <> or_default message "None" <> ")"

  unfoldable pub skip_backoff : RunConfig → Option String → Action (World Row) String RunResult
  skip_backoff t message = do
    note_row (record (blank_run t "skipped" t.now) { error_message = some (backoff_text message) })
    pure (result_of t "skipped" 0 (some (backoff_text message)))

  -- The watermark of a run that has detected `m`; `value` is `none` where it is not passed.
  abbrev pub mark : RunConfig → Metadata → Option (Option String) → WatermarkUpdate
  mark t m value = record {
    strategy = some t.strategy;
    last_run_at = some t.ended_at;
    last_file_mtime = m.file_mtime;
    last_file_hash = m.file_hash;
    last_value = value;
    last_checksum = m.checksum;
    last_row_count = m.row_count;
    source_db = none;
  }

  abbrev pub touch : RunConfig → Option Metadata → Db → Db
  touch t none db = db
  touch t (some m) db = write_watermark t.ended_at t.name (mark t m none) db

  unfoldable pub skip_unchanged : RunConfig → Change → Action (World Row) String RunResult
  skip_unchanged t change = do
    note_row (blank_run t "skipped" t.started_at)
    modify (on_db (touch t change.metadata))
    pure (result_of t "skipped" 0 none)

  abbrev pub goes_on : Altered Row → Bool
  goes_on (altered_rows ls) = true
  goes_on no_catalog_entry = true
  goes_on other_exception = false

  abbrev pub altered_world : String → Altered Row → World Row → World Row
  altered_world target (altered_rows ls) w = commit_table target ls w
  altered_world target no_catalog_entry w = w
  altered_world target other_exception w = w

  -- The loop over the added columns, and whether it comes to its end: only a CatalogException is
  -- passed over.
  unfoldable pub alter_table : String → Schema → World Row → Bool × World Row
  alter_table target [] w = (true, w)
  alter_table target (column ∷ columns) w =
      let r = libs.add_column column (table_of target w) in
      let rest = alter_table target columns (altered_world target r w) in
      if goes_on r then rest else (false, w)

  -- `dest._connect` makes the file where it is missing.
  abbrev pub add_columns : String → Schema → World Row → Bool × World Row
  add_columns target [] w = (true, w)
  add_columns target (c ∷ cs) w =
      alter_table target (c ∷ cs) (record w { bronze = some (or_default w.bronze []) })

  abbrev pub saved_if : RunConfig → Schema → Bool × World Row → World Row
  saved_if t current (true, w) = on_db (save_schema_snapshot t.name current) w
  saved_if t current (false, w) = w

  abbrev pub compare_schema :
      RunConfig → Schema → Option Schema → World Row → Option String × World Row
  compare_schema t current none w = (none, on_db (save_schema_snapshot t.name current) w)
  compare_schema t current (some stored) w =
      let drift = detect_drift current stored in
      if has_drift drift
      then (
        some (libs.drift_json drift),
        saved_if t current (add_columns (effective_target t) drift.added w),
      )
      else (none, w)

  -- The check for drift, whose exceptions are only logged.
  unfoldable pub check_drift :
      RunConfig → Result String Schema → World Row → Option String × World Row
  check_drift t (err e) w = (none, w)
  check_drift t (ok current) w = compare_schema t current (get_schema_snapshot w.db t.name) w

  -- `_apply_dedup`
  unfoldable pub apply_dedup : RunConfig → List Row → Result String (List Row)
  apply_dedup t rows = if t.dedup then libs.select_distinct rows else dedup_by t.dedup_columns
    where
      dedup_by : List String → Result String (List Row)
      dedup_by [] = ok rows
      dedup_by (c ∷ cs) = libs.first_of_each (c ∷ cs) rows

  -- `if table.column_map: _apply_column_map(…)`
  abbrev pub apply_column_map : Dict String String → List Row → Result String (List Row)
  apply_column_map [] rows = ok rows
  apply_column_map (m ∷ ms) rows = libs.rename_columns (m ∷ ms) rows

  -- What is extracted: cut to the limit, mapped and without duplicates.
  unfoldable pub extract_rows : RunConfig → RunSource Row → Request → Result String (List Row)
  extract_rows t source request = then_result (source.extract request) λ rows.
      then_result (apply_column_map t.column_map (limited t.row_limit rows))
        λ mapped. apply_dedup t mapped

  abbrev pub request_of : RunConfig → Option String → Option (String × String) → Request
  request_of t filter watermark = record {
    source_table = t.source_table;
    columns = mapped_columns t;
    filter = filter;
    watermark = watermark;
  }

  -- From the overlap before the old watermark on.
  abbrev pub later_request : RunConfig → String → Result String Request
  later_request t value = then_result (libs.fromisoformat value) λ dt. ok (
      request_of t t.filter
        (some (t.timestamp_column, libs.isoformat (dt - minutes t.overlap_window_minutes))))

  abbrev pub save_results : List DqRow → Db → Db
  save_results [] db = db
  save_results (r ∷ rs) db = save_results rs (record_dq_result r db)

  -- The checks of quality, whose exceptions are only logged.
  unfoldable pub check_quality : Result String (List DqRow) → World Row → World Row
  check_quality (err e) w = w
  check_quality (ok rows) w = on_db (save_results rows) w

  abbrev pub stamp_text : Option ℕ → Option String
  stamp_text none = none
  stamp_text (some a) = some (libs.isoformat a)

  abbrev pub new_value : RunConfig → Option String → List Row → Option String
  new_value t old [] = if is_incremental t then old else none
  new_value t old (r ∷ rs) =
      if is_incremental t
      then stamp_text (max_of (map (libs.stamp t.timestamp_column) (r ∷ rs)))
      else none
