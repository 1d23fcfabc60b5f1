-- ===== src/State/Tests.antt =====
-- The state database on small inputs.
use feather_flow.Common.{
  ◌+◌, ◌*◌, ◌≡◌, ◌≢◌, refl, Bool, true, none, some, [], ◌∷◌, min, ltb, String, ◌==◌, string_eq,
  nat_eq, ok,
}
use feather_flow.Common.Dict.{lookup, insert}
use feather_flow.State.{Watermark, WindowRow, Db, empty_db}
use feather_flow.State.Watermarks.{WatermarkUpdate, read_watermark}
use feather_flow.State.Retry.{
  first_failure, failed_row, backoff, minutes, increment_retry, should_skip_retry,
}
use feather_flow.State.WindowLog.{record_committed_window, get_committed_windows, window_keys}
use feather_flow.State.Overrides.{
  Fields, set_override, get_override, merge_fields, blank_override, bad_strategy,
}
use feather_flow.State.Meta.{
  schema_version, init_state, migrate_v1_to_v2, copy_missing, migrated_row,
}
use feather_flow.State.Backoff.{backoff_exact, failures, fail_at}
use feather_flow.State.CommitLog.{is_committed}
use feather_flow.State.Merging.{IsValidOverrides}
use feather_flow.State.Migration.{init_state_settles}

abbrev equal_text : String → String → Bool
equal_text a b = a == b

abbrev pub failed_once : Watermark
failed_once = first_failure 900000000

abbrev pub one_failure : Db
one_failure = record empty_db { watermarks = ("orders", failed_once) ∷ [] }

backoff_exact_example :
    (should_skip_retry 9
      (increment_retry 8 "orders" (fail_at (3 ∷ 5 ∷ []) "orders" one_failure))
      "orders").0
    ≡ ltb 9 (8 + minutes (min ((failures one_failure "orders" + 2 + 1) * 15) 120))
backoff_exact_example = backoff_exact 9 8 (3 ∷ 5 ∷ []) "orders" one_failure

-- The second failure waits for half an hour.
second_failure : (should_skip_retry 1799 (increment_retry 0 "orders" one_failure) "orders").0 ≡ true
unfolding should_skip_retry increment_retry failed_row backoff lookup insert
second_failure = refl

other_table : ◌≢◌ {A = String} "orders" "items"
other_table h = cc h

abbrev update : WatermarkUpdate
update = record {
  strategy = some "incremental";
  last_run_at = some 5;
  last_file_mtime = none;
  last_file_hash = none;
  last_value = some (some "2024-01-01");
  last_checksum = none;
  last_row_count = none;
  source_db = some "shop";
}

orders_found : read_watermark one_failure "orders" ≡ some failed_once
unfolding read_watermark lookup
orders_found = refl

abbrev pub one_row : WindowRow
one_row = record {
  window_start = none;
  window_end = none;
  rows_loaded = 3;
  transport_used = "arrow_odbc";
  committed_at = 4;
  run_id = "r1";
}

abbrev pub one_window : Db
one_window = record_committed_window "bronze.orders" "all" one_row empty_db

one_committed : is_committed one_window "bronze.orders" "all" ≡ true
unfolding record_committed_window get_committed_windows window_keys insert
one_committed = refl

abbrev daily : Fields
daily = ("window_strategy", some "date") ∷ ("window_column", some "ts") ∷ []

abbrev with_override : Db
with_override = record empty_db {
  overrides = ("orders", merge_fields daily (blank_override 3 "orders")) ∷ [];
}

daily_stored : set_override 3 "orders" daily empty_db ≡ ok with_override
unfolding set_override bad_strategy lookup insert
daily_stored = refl

empty-IsValid : IsValidOverrides empty_db
unfolding get_override lookup
empty-IsValid table = refl

-- Version 1, with a table in either place.
abbrev old_db : Db
old_db = record one_failure {
  schema_version = some 1;
  cache_watermarks = some (("items", failed_once) ∷ []);
}

abbrev migrated : Db
migrated = record one_failure {
  schema_version = some 2;
  watermarks = ("orders", failed_once) ∷ ("items", migrated_row failed_once) ∷ [];
}

old_accepted : init_state old_db ≡ ok migrated
unfolding init_state migrate_v1_to_v2 copy_missing lookup insert
old_accepted = refl

old_found : lookup "orders" old_db.watermarks ≡ some failed_once
unfolding lookup
old_found = refl

init_state_settles_example :
    (migrated.schema_version ≡ some schema_version)
    × (init_state migrated ≡ ok migrated)
    × (lookup "orders" migrated.watermarks ≡ some failed_once)
init_state_settles_example = init_state_settles old_db "orders" failed_once old_accepted old_found
