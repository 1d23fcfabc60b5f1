-- ===== src/Pipeline/All.antt =====
-- src/feather_flow/pipeline.py: the branches of `run_table`, and `run_all`.
use feather_flow.Common.{
  ℕ, Bool, true, false, ◌||◌, Option, none, some, or_default, List, [], ◌∷◌, map, any, select,
  if◌then◌else◌, String, ◌==◌, string_eq, Result, ok, err,
}
use feather_flow.Common.Action.{Action, pure, gets, lift, modify, try_except, ◌>>=◌, ◌>>◌}
use feather_flow.Common.Text.{◌<>◌}
use feather_flow.Curation.{SourceConfig, resolve_source, join}
use feather_flow.Extract.{text_err}
use feather_flow.Destination.{World}
use feather_flow.Destination.Full.{load_full, load_append}
use feather_flow.Destination.Incremental.{load_incremental}
use feather_flow.Pipeline.{compute_pk_hashes, filter_boundary_rows}
use feather_flow.Pipeline.Table.{
  Metadata, Change, RunSource, RunConfig, RunResult, Libraries, run_id_of, is_incremental,
  last_value_of, nonempty_text, metadata_of,
}
use feather_flow.Pipeline.Run.{
  effective_target, blank_run, result_of, on_db, note_row, skip_backoff, skip_unchanged, mark,
  check_drift, extract_rows, request_of, later_request, check_quality, new_value,
}
use feather_flow.State.{Db, Watermark}
use feather_flow.State.Meta.{init_state}
use feather_flow.State.Retry.{should_skip_retry, increment_retry, reset_retry}
use feather_flow.State.Watermarks.{
  read_watermark, write_watermark, write_boundary_hashes, read_boundary_hashes,
}

module _ {Row : Type 0} (libs : Libraries Row) where
  abbrev pub hashes_at : RunConfig → List Row → Option String → Option (List String) → Db → Db
  hashes_at t rows none keys db = db
  hashes_at t rows (some v) none db = db
  hashes_at t rows (some v) (some []) db = db
  hashes_at t rows (some v) (some (k ∷ ks)) db =
      write_boundary_hashes t.name
        (compute_pk_hashes libs.cell libs.sha256 rows (k ∷ ks) t.timestamp_column v) db

  -- The hashes of the boundary rows, for an incremental table with a key and rows.
  unfoldable pub store_hashes : RunConfig → Option String → List Row → Db → Db
  store_hashes t value [] db = db
  store_hashes t value (r ∷ rs) db =
      if is_incremental t then hashes_at t (r ∷ rs) (nonempty_text value) t.primary_key db else db

  -- What follows the load.
  unfoldable pub finish_run :
      RunConfig
      → Metadata
      → Option String
      → Option String
      → List Row
      → ℕ
      → Action (World Row) String RunResult
  finish_run t m changes old rows loaded = do
    w ← gets (λ w. w)
    modify (check_quality libs (libs.run_dq_checks w (effective_target libs t)))
    modify (on_db libs (store_hashes t (new_value libs t old rows) rows))
    modify (
        on_db libs
          (write_watermark t.ended_at t.name (mark libs t m (some (new_value libs t old rows)))))
    note_row libs (record (blank_run libs t "success" t.started_at) {
      rows_extracted = loaded;
      rows_loaded = loaded;
      watermark_before = nonempty_text old;
      watermark_after = new_value libs t old rows;
      schema_changes = changes;
    })
    modify (on_db libs (reset_retry t.name))
    pure (result_of libs t "success" loaded none)

  -- An incremental run that is left without rows.
  unfoldable pub no_new_rows : RunConfig → Metadata → String → Action (World Row) String RunResult
  no_new_rows t m old = do
    note_row libs (record (blank_run libs t "success" t.started_at) {
      watermark_before = nonempty_text (some old);
      watermark_after = nonempty_text (some old);
    })
    modify (
        on_db libs (
          write_watermark t.ended_at t.name (record (mark libs t m (some (some old))) {
            last_checksum = none;
            last_row_count = none;
          })))
    modify (on_db libs (reset_retry t.name))
    pure (result_of libs t "success" 0 none)

  abbrev pub load_kept :
      RunConfig → Metadata → Option String → String → List Row → Action (World Row) String RunResult
  load_kept t m changes old [] = no_new_rows t m old
  load_kept t m changes old (r ∷ rs) = do
    loaded ←
        load_incremental (libs.stamp t.timestamp_column) libs.catalog_error
          (effective_target libs t) (r ∷ rs) (run_id_of libs t)
    finish_run t m changes (some old) (r ∷ rs) loaded

  unfoldable pub load_later :
      RunConfig
      → RunSource Row
      → Metadata
      → Option String
      → String
      → Action (World Row) String RunResult
  load_later t source m changes old = do
    request ← lift (later_request libs t old)
    rows ← lift (extract_rows libs t source request)
    hashes ← gets (λ w. read_boundary_hashes w.db t.name)
    load_kept t m changes old
        (filter_boundary_rows libs.cell libs.sha256 rows t.primary_key t.timestamp_column old
          hashes).0

  unfoldable pub load_appended :
      RunConfig
      → RunSource Row
      → Metadata
      → Option String
      → Option String
      → Action (World Row) String RunResult
  load_appended t source m changes old = do
    rows ← lift (extract_rows libs t source (request_of libs t t.filter none))
    loaded ← load_append (effective_target libs t) rows (run_id_of libs t)
    finish_run t m changes old rows loaded

  -- A full load, or the first of an incremental table, which alone keeps the filter.
  unfoldable pub load_whole :
      RunConfig
      → RunSource Row
      → Metadata
      → Option String
      → Option String
      → Action (World Row) String RunResult
  load_whole t source m changes old = do
    rows ← lift (
        extract_rows libs t source
          (request_of libs t (if is_incremental t then nonempty_text t.filter else none) none))
    loaded ← load_full libs.catalog_error (effective_target libs t) rows (run_id_of libs t)
    finish_run t m changes old rows loaded

  abbrev pub load_incrementally :
      RunConfig
      → RunSource Row
      → Metadata
      → Option String
      → Option String
      → Action (World Row) String RunResult
  load_incrementally t source m changes none = load_whole t source m changes none
  load_incrementally t source m changes (some old) = load_later t source m changes old

  -- The body of the `try`.
  unfoldable pub load_changed :
      RunConfig → RunSource Row → Metadata → Option String → Action (World Row) String RunResult
  load_changed t source m old w =
      let (changes, w') = check_drift libs t (source.get_schema t.source_table) w in
      if is_incremental t
      then load_incrementally t source m changes old w'
      else if t.strategy == "append"
      then load_appended t source m changes old w'
      else load_whole t source m changes old w'

  -- `except Exception as e`
  unfoldable pub failed_run : RunConfig → String → Action (World Row) String RunResult
  failed_run t e = do
    note_row libs (record (blank_run libs t "failure" t.started_at) { error_message = some e })
    modify (on_db libs (increment_retry t.ended_at t.name))
    pure (result_of libs t "failure" 0 (some e))

  abbrev pub run_detected :
      RunConfig → RunSource Row → Option Watermark → Change → Action (World Row) String RunResult
  run_detected t source wm change =
      if change.changed
      then try_except (load_changed t source (metadata_of change.metadata) (last_value_of wm))
          (failed_run t)
      else skip_unchanged libs t change

  -- `setup_schemas` opens the destination's file, which makes it.
  abbrev pub setup_schemas : World Row → World Row
  setup_schemas w = record w { bronze = some (or_default w.bronze []) }

  unfoldable pub run_due : RunConfig → RunSource Row → Action (World Row) String RunResult
  run_due t source = do
    modify setup_schemas
    wm ← gets (λ w. read_watermark w.db t.name)
    change ← lift (source.detect_changes t.source_table wm)
    run_detected t source wm change

  -- `run_table`
  unfoldable pub run_table : RunConfig → RunSource Row → Action (World Row) String RunResult
  run_table t source = do
    db ← gets (λ w. w.db)
    ready ← lift (text_err libs.meta_error (init_state db))
    modify (on_db libs (λ d. ready))
    (skip, message) ← gets (λ w. should_skip_retry t.now w.db t.name)
    if skip then skip_backoff libs t message else run_due t source

  module _ (sources : List SourceConfig) (open_source : SourceConfig → RunSource Row)
      (run_transforms : Action (World Row) String (Unit {0})) where
    abbrev pub first_source : List SourceConfig → Result String SourceConfig
    first_source [] = err "list index out of range"
    first_source (s ∷ ss) = ok s

    -- `if table.database`
    abbrev pub source_for : RunConfig → Result String SourceConfig
    source_for t = elim (nonempty_text t.database) [
      | none ↦ first_source sources
      | some db ↦ resolve_source db sources
    ]

    unfoldable pub run_tables : List RunConfig → Action (World Row) String (List RunResult)
    run_tables [] = pure []
    run_tables (t ∷ ts) = do
      config ← lift (source_for t)
      result ← run_table t (open_source config)
      results ← run_tables ts
      pure (result ∷ results)

    abbrev pub wanted : List RunConfig → Option String → Result String (List RunConfig)
    wanted tables none = ok tables
    wanted tables (some name) = nonempty (select (λ t. t.name == name) tables)
      where
        nonempty : List RunConfig → Result String (List RunConfig)
        nonempty [] = err (
            "Table '"
            <> name
            <> "' not found in config. Available tables: "
            <> join ", " (map (λ t. t.name) tables))
        nonempty (t ∷ ts) = ok (t ∷ ts)

    abbrev pub is_ok : RunResult → Bool
    is_ok r = r.status == "success" || r.status == "skipped"

    -- An exception of the transforms is only logged.
    abbrev pub rebuild : Bool → Action (World Row) String (Unit {0})
    rebuild true = try_except run_transforms (λ e. pure tt)
    rebuild false = pure tt

    -- `run_all`
    unfoldable pub run_all :
        List RunConfig → Option String → Action (World Row) String (List RunResult)
    run_all tables table_filter = do
      chosen ← lift (wanted tables table_filter)
      results ← run_tables chosen
      rebuild (any is_ok results)
      pure results
