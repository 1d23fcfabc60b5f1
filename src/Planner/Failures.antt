-- ===== src/Planner/Failures.antt =====
-- Plans that raise.
use feather_flow.Common.{
  ℕ, ◌-◌, ◌<◌, ◌≡◌, false, Option, none, some, List, String, string_eq, ok, err, arith, ◌==◌,
  nat_eq,
}
use feather_flow.Common.Text.{Datetime}
use feather_flow.State.{ExtractOverride}
use feather_flow.Windows.{
  Runtime, WindowSpec, dates, wrong_range_type, quote_for_dialect, plan_ranged, plan_windows,
}
use feather_flow.Planner.{
  PlanInput, window_error, zero_division, is_small, plan_bucket, plan_strategy, partition_col,
  windows_for, windows_of_plan, eta, pick_plan,
}

module _ {Rate : Type 0} (i : PlanInput Rate) (py : Runtime) (quotient : ℕ → Rate → Option ℕ) where
  -- A plan whose windows are found raises a ZeroDivisionError where rows remain and the observed
  -- rate is one that the division refuses, such as the 0.0 of runs that loaded no row.
  pub zero_rate_raises :
      (rate : Rate) (ws : List WindowSpec)
      → windows_of_plan i py ≡ ok ws
      → i.rows_already_extracted < i.cheap_rows
      → i.recent_rows_per_sec ≡ some rate
      → quotient (i.cheap_rows - i.rows_already_extracted) rate ≡ none
      → pick_plan i py quotient ≡ err zero_division
  unfolding pick_plan eta
  zero_rate_raises rate ws planned remain seen refused =
      let left : (i.cheap_rows - i.rows_already_extracted == 0) ≡ false = ground arith in
      rw (planned, left, seen, refused)

  windows-dates :
      (wc grain : Option String) (dialect : String) (min_dt max_dt : Datetime)
      (column quoted : String)
      → quote_for_dialect py column "destination" ≡ ok quoted
      → windows_for py "pk_range" wc (some column) grain (some (dates min_dt max_dt)) dialect
        ≡ err (window_error wrong_range_type)
  unfolding windows_for plan_windows plan_ranged
  windows-dates wc grain dialect min_dt max_dt column quoted safe = rw safe

  overridden :
      (o : ExtractOverride)
      → i.override ≡ some o
      → o.window_strategy ≡ some "pk_range"
      → is_small (plan_bucket i) ≡ false
      → plan_strategy i ≡ "pk_range"
  unfolding plan_strategy
  overridden o given wanted big = rw (big, given, wanted)

  -- Where the stored override asks for `pk_range` and the probed range is one of datetimes, as it
  -- is for a table with a timestamp column, the plan of a table that is not small raises.
  pub pk_range_of_dates_raises :
      (o : ExtractOverride) (min_dt max_dt : Datetime) (column quoted : String)
      → i.override ≡ some o
      → o.window_strategy ≡ some "pk_range"
      → is_small (plan_bucket i) ≡ false
      → i.window_range ≡ some (dates min_dt max_dt)
      → partition_col i ≡ some column
      → quote_for_dialect py column "destination" ≡ ok quoted
      → pick_plan i py quotient ≡ err (window_error wrong_range_type)
  unfolding pick_plan
  pk_range_of_dates_raises o min_dt max_dt column quoted given wanted big range_ col safe =
      rw (overridden o given wanted big, range_, col)
        (rw (windows-dates _ _ _ min_dt max_dt column quoted safe))
