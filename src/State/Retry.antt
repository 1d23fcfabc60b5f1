-- ===== src/State/Retry.antt =====
-- Retry and backoff.
use feather_flow.Common.{
  ℕ, ◌+◌, ◌*◌, Bool, true, false, Option, none, some, List, [], ◌∷◌, min, ltb, or_default,
  if◌then◌else◌, ◌&&◌, String, ◌==◌, string_eq,
}
use feather_flow.Common.Dict.{lookup, insert, adjust}
use feather_flow.State.{Watermark, Run, Db}

abbrev pub backoff_base_minutes : ℕ
backoff_base_minutes = 15

abbrev pub backoff_cap_minutes : ℕ
backoff_cap_minutes = 120

-- `timedelta(minutes=n)`
abbrev pub minutes : ℕ → ℕ
minutes n = n * 60000000

unfoldable pub backoff : ℕ → ℕ
backoff count = minutes (min (count * backoff_base_minutes) backoff_cap_minutes)

abbrev pub first_failure : ℕ → Watermark
first_failure retry_after = record {
  strategy = none;
  last_value = none;
  last_checksum = none;
  last_row_count = none;
  last_file_mtime = none;
  last_file_hash = none;
  last_run_at = none;
  retry_count = some 1;
  retry_after = some retry_after;
  boundary_hashes = none;
  source_db = none;
}

-- The row after one more failure; `row[0] or 0` reads a NULL as 0.
unfoldable pub failed_row : ℕ → Option Watermark → Watermark
unfolding backoff
failed_row now none = first_failure (now + backoff 1)
failed_row now (some w) =
    let count = or_default w.retry_count 0 + 1 in
    record w { retry_count = some count; retry_after = some (now + backoff count) }

unfoldable pub increment_retry : ℕ → String → Db → Db
increment_retry now table db = record db {
  watermarks = insert table (failed_row now (lookup table db.watermarks)) db.watermarks;
}

abbrev pub cleared_row : Watermark → Watermark
cleared_row w = record w { retry_count = some 0; retry_after = none }

unfoldable pub reset_retry : String → Db → Db
reset_retry table db = record db { watermarks = adjust table cleared_row db.watermarks }

-- The failed run of the table that started last; of runs that started at once, the database picks
-- any, and this takes the first row.
-- `best` or `r`, whichever started last.
later_run : Option Run → Run → Option Run
later_run none r = some r
later_run (some b) r = if ltb b.started_at r.started_at then some r else some b

latest_failure : String → Option Run → List Run → Option Run
latest_failure table best [] = best
latest_failure table best (r ∷ rs) =
    latest_failure table
      (if r.table_name == table && r.status == "failure" then later_run best r else best) rs

unfoldable pub get_last_failure_message : Db → String → Option String
unfolding latest_failure later_run
get_last_failure_message db table = elim (latest_failure table none db.runs) [
  | none ↦ none
  | some r ↦ r.error_message
]

unfoldable pub should_skip_retry : ℕ → Db → String → Bool × Option String
unfolding get_last_failure_message
should_skip_retry now db table = elim (lookup table db.watermarks) [
  | none ↦ (false, none)
  | some w ↦ elim w.retry_after [
    | none ↦ (false, none)
    | some after ↦
        if ltb now after then (true, get_last_failure_message db table) else (false, none)
  ]
]
