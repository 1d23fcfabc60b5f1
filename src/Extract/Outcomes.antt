-- ===== src/Extract/Outcomes.antt =====
-- What an extract does before and beside the windows: refusals, failures and exceptions.
use feather_flow.Common.{
  ◌≡◌, refl, Bool, true, false, none, some, List, [], ◌∷◌, ◌++◌, map, String, string_eq, ok, err,
  arith, contains,
}
use feather_flow.Common.Text.{◌<>◌}
use feather_flow.Curation.{SourceConfig, resolve_source}
use feather_flow.State.{Db}
use feather_flow.State.CommitLog.{is_committed, committed_named}
use feather_flow.State.Meta.{init_state}
use feather_flow.State.Runs.{run_ids, record_run}
use feather_flow.State.Watermarks.{read_watermark}
use feather_flow.State.WindowLog.{get_all_window_table_names}
use feather_flow.Destination.{World}
use feather_flow.Extract.Tables.{orphan_text, is_empty, extract_table, extract_tables, run_extract}
use feather_flow.Extract.{
  Source, TableConfig, Texts, Options, failed, source_db_of, note_run, extract_from,
}

named-not_empty :
    (names : List String) (table : String) → contains names table ≡ true → is_empty names ≡ false
named-not_empty [] table h = cc
named-not_empty (n ∷ names) table h = refl

module _ {Row : Type 0} (holds : String → Row → Bool) (texts : Texts)
    (open_source : SourceConfig → Source Row) where
  -- If `init_state` succeeds, the destination's file is missing and the log has a window, an
  -- extract without `refresh_all` fails every table and loads nothing: it makes no destination,
  -- and the state database is as `init_state` left it.
  pub orphan_refused :
      (options : Options) (sources : List SourceConfig) (tables : List TableConfig) (w : World Row)
      (db : Db) (table key : String)
      → init_state w.db ≡ ok db
      → w.bronze ≡ none
      → options.refresh_all ≡ false
      → is_committed db table key ≡ true
      → run_extract holds texts open_source options sources tables w ≡ (
        ok (map (λ t. failed t (orphan_text (get_all_window_table_names db))) tables),
        record { bronze = none; db = db },
      )
  unfolding run_extract
  orphan_refused options sources tables w db table key ready missing keep logged =
      let named =
        named-not_empty (get_all_window_table_names db) table
          (committed_named table key db logged) in
      grind (arith, ready, missing, keep, named)

  -- An exception of `detect_changes` ends the whole run: it is not recorded, and the tables that
  -- follow are not extracted.
  pub detection_escapes :
      (options : Options) (sources : List SourceConfig) (table : TableConfig)
      (rest : List TableConfig) (config : SourceConfig) (w : World Row) (e : String)
      → resolve_source (source_db_of table) sources ≡ ok config
      → (open_source config).detect_changes table.source_table (read_watermark w.db table.name)
        ≡ err e
      → extract_tables holds texts open_source options sources (table ∷ rest) w ≡ (err e, w)
  unfolding extract_tables extract_table extract_from
  detection_escapes options sources table rest config w e h k = grind (arith, h, k)

  -- A table whose source does not resolve becomes one run and one result with the status
  -- `failure` and the text of the exception, and the destination stays, if the id of the run is
  -- new.
  pub unresolved_recorded :
      (options : Options) (sources : List SourceConfig) (table : TableConfig) (w : World Row)
      (e : String)
      → resolve_source (source_db_of table) sources ≡ err e
      → contains (run_ids w.db.runs) ("extract_" <> table.name <> "_" <> texts.isoformat table.now)
        ≡ false
      → extract_table holds texts open_source options sources table w ≡ (
        ok (failed table e),
        record w {
          db = record w.db {
            runs =
                w.db.runs
                ++ (record {
                  run_id = "extract_" <> table.name <> "_" <> texts.isoformat table.now;
                  table_name = table.name;
                  started_at = table.now;
                  ended_at = table.ended_at;
                  status = "failure";
                  rows_extracted = 0;
                  rows_loaded = 0;
                  error_message = some e;
                  watermark_before = none;
                  watermark_after = none;
                  schema_changes = none;
                  trigger = some "extract";
                }
                    ∷ []);
          };
        },
      )
  unfolding extract_table note_run record_run
  unresolved_recorded options sources table w e h k = grind (arith, h, k)
