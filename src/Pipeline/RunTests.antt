-- ===== src/Pipeline/RunTests.antt =====
-- Runs of a small table, whose rows are numbers.
use feather_flow.Common.{
  ℕ, ◌+◌, ◌*◌, min, or_default, Option, ◌≡◌, refl, Bool, true, false, none, some, [], ◌∷◌, String,
  ◌==◌, string_eq, ok, err,
}
use feather_flow.Common.Dict.{lookup, insert, adjust}
use feather_flow.Destination.{World, table_of, is_qualified}
use feather_flow.Destination.Full.{load_full}
use feather_flow.State.{Watermark, empty_db}
use feather_flow.State.Meta.{MetaError, init_state}
use feather_flow.State.Retry.{
  first_failure, should_skip_retry, get_last_failure_message, reset_retry,
}
use feather_flow.State.Runs.{RunError, record_run}
use feather_flow.State.Watermarks.{
  read_watermark, write_watermark, read_boundary_hashes, write_boundary_hashes,
}
use feather_flow.Pipeline.{filter_boundary_rows, resolve_target}
use feather_flow.Pipeline.Table.{altered_rows, Change, RunSource, RunConfig, Libraries, metadata_of}
use feather_flow.Pipeline.Run.{
  result_of, note_row, extract_rows, apply_dedup, check_quality, max_of,
}
use feather_flow.Pipeline.All.{finish_run, load_whole, run_detected, run_table, store_hashes}
use feather_flow.Pipeline.Outcomes.{is_greatest, expected_value, success_settles}
use feather_flow.Pipeline.Hashes.{timestamps_never_match, first_hashes_lost}
use feather_flow.Pipeline.Skips.{backoff_skips}
use feather_flow.Pipeline.Failing.{untried, no_row, failed_before, extraction_fails}

abbrev equal_text : String → String → Bool
equal_text a b = a == b

abbrev run_error : RunError → String
run_error e = "ConstraintException"

abbrev meta_error : MetaError → String
meta_error e = "newer"

abbrev libs : Libraries ℕ
libs = record {
  run_error = run_error;
  meta_error = meta_error;
  catalog_error = λ table. "Catalog Error";
  isoformat = λ t. "2025-01-05T00:00:00";
  fromisoformat = λ s. ok 9;
  sha256 = λ s. s;
  cell = λ column n. "2025-01-05 00:00:00";
  stamp = λ column n. some n;
  rename_columns = λ m rows. ok rows;
  select_distinct = λ rows. ok rows;
  first_of_each = λ columns rows. ok rows;
  add_column = λ column table. altered_rows (or_default table []);
  drift_json = λ drift. "{}";
  run_dq_checks = λ w target. ok [];
}

abbrev orders : RunConfig
orders = record {
  name = "orders";
  database = none;
  source_table = "erp.orders";
  target_table = none;
  strategy = "incremental";
  timestamp_column = "ts";
  primary_key = some ("id" ∷ []);
  filter = none;
  column_map = [];
  dedup = false;
  dedup_columns = [];
  row_limit = 0;
  overlap_window_minutes = 2;
  now = 50;
  started_at = 51;
  ended_at = 60;
}

abbrev source : RunSource ℕ
source = record {
  detect_changes = λ table wm. ok (record { changed = true; metadata = none });
  get_schema = λ table. ok (("id", "INTEGER") ∷ []);
  extract = λ q. ok (1 ∷ 2 ∷ []);
}

abbrev broken : RunSource ℕ
broken = record source { extract = λ q. err "connection refused" }

abbrev start : World ℕ
start = record { bronze = some []; db = record empty_db { schema_version = some 2 } }

abbrev after_load : World ℕ
after_load = (load_whole libs orders source (metadata_of none) none none start).1

loaded_whole :
    load_whole libs orders source (metadata_of none) none none start
    ≡ (ok (result_of libs orders "success" 2 none), after_load)
unfolding load_whole extract_rows apply_dedup load_full is_qualified finish_run check_quality
    note_row record_run store_hashes write_watermark reset_retry write_boundary_hashes
    resolve_target lookup insert adjust max_of
loaded_whole = refl

nothing_read : read_watermark start.db "orders" ≡ none
unfolding read_watermark lookup
nothing_read = refl

first_hashes_lost_example : read_boundary_hashes after_load.db "orders" ≡ []
first_hashes_lost_example =
    first_hashes_lost libs orders source (metadata_of none) none none start after_load
      (result_of libs orders "success" 2 none) nothing_read loaded_whole

abbrev after_finish : World ℕ
after_finish = (finish_run libs orders (metadata_of none) none none (1 ∷ 2 ∷ []) 2 start).1

finished_two :
    finish_run libs orders (metadata_of none) none none (1 ∷ 2 ∷ []) 2 start
    ≡ (ok (result_of libs orders "success" 2 none), after_finish)
unfolding finish_run check_quality note_row record_run store_hashes write_watermark reset_retry
    write_boundary_hashes lookup insert adjust max_of
finished_two = refl

-- A table that has hashes of the run before.
abbrev hashed : World ℕ
hashed = record start {
  db = record start.db {
    watermarks = ("orders", record (first_failure 0) { boundary_hashes = some ("h" ∷ []) }) ∷ [];
  };
}

abbrev after_second : World ℕ
after_second = (finish_run libs orders (metadata_of none) none none (1 ∷ 2 ∷ []) 2 hashed).1

finished_second :
    finish_run libs orders (metadata_of none) none none (1 ∷ 2 ∷ []) 2 hashed
    ≡ (ok (result_of libs orders "success" 2 none), after_second)
unfolding finish_run check_quality note_row record_run store_hashes write_watermark reset_retry
    write_boundary_hashes lookup insert adjust max_of
finished_second = refl

greatest_two : max_of (some 1 ∷ some 2 ∷ []) ≡ some 2
unfolding max_of
greatest_two = refl

timestamps_never_match_example :
    (read_boundary_hashes after_second.db "orders" ≡ [])
    × (filter_boundary_rows libs.cell libs.sha256
          (2 ∷ 3 ∷ [])
          (some ("id" ∷ []))
          "ts"
          (libs.isoformat 2)
          ("h" ∷ [])
        ≡ (2 ∷ 3 ∷ [], 0))
timestamps_never_match_example =
    timestamps_never_match libs orders (metadata_of none) none none "id" [] 1 (2 ∷ []) 2 2 hashed
      after_second (result_of libs orders "success" 2 none) (2 ∷ 3 ∷ []) (some ("id" ∷ []))
      ("h" ∷ []) (λ row. refl) refl refl refl greatest_two finished_second

success_settles_example :
    (result_of libs orders "success" 2 none ≡ result_of libs orders "success" 2 none)
    × ((row : Watermark) × (g : Option ℕ) × (read_watermark after_finish.db "orders" ≡ some row)
        × (is_greatest g (some 1 ∷ some 2 ∷ []) ≡ true)
        × (row.last_value ≡ expected_value libs orders none g (1 ∷ 2 ∷ []))
        × (row.retry_count ≡ some 0)
        × (row.retry_after ≡ none)
        × (row.last_file_hash ≡ none))
success_settles_example =
    success_settles libs orders (metadata_of none) none none (1 ∷ 2 ∷ []) 2 start after_finish
      (result_of libs orders "success" 2 none) finished_two

abbrev waiting : World ℕ
waiting = record start {
  db = record empty_db { schema_version = some 2; watermarks = ("orders", first_failure 100) ∷ [] };
}

accepted : init_state waiting.db ≡ ok waiting.db
unfolding init_state
accepted = refl

in_backoff : should_skip_retry orders.now waiting.db "orders" ≡ (true, none)
unfolding should_skip_retry get_last_failure_message lookup
in_backoff = refl

backoff_skips_example :
    (run_table libs orders source waiting ≡ run_table libs orders broken waiting)
    × ((run_table libs orders source waiting).1.bronze ≡ waiting.bronze)
    × ((run_table libs orders source waiting).1.db.watermarks ≡ waiting.db.watermarks)
backoff_skips_example =
    backoff_skips libs orders source broken waiting waiting.db none accepted in_backoff

abbrev seen : Change
seen = record { changed = true; metadata = none }

extraction_fails_example :
    let wm = read_watermark start.db "orders" in
    let p = run_detected libs orders broken wm seen start in
    (e : String) × (row : Watermark) × (p.0 ≡ ok (result_of libs orders "failure" 0 (some e)))
    × (read_watermark p.1.db "orders" ≡ some row)
    × (row.retry_count ≡ some (failed_before wm + 1))
    × (row.retry_after ≡ some (60 + min ((failed_before wm + 1) * 15) 120 * 60000000))
    × (untried row ≡ untried (or_default wm no_row))
    × (table_of "bronze.items" p.1 ≡ table_of "bronze.items" start)
unfolding resolve_target
extraction_fails_example =
    extraction_fails libs orders broken (λ q. ("connection refused", refl)) seen start
      "bronze.items" refl refl refl
