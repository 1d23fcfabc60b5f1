-- ===== src/Planner.antt =====
-- src/feather_flow/planner.py: the adaptive plan of a table's extract. The type `Rate` of the
-- observed throughput, a float, and the division by it are parameters; row counts are numbers, and
-- the divisions by 6000.0 and 2000.0 are those of numbers (exact below 10¹² rows).
pub mod Columns
pub mod Shape
pub mod Strategy
pub mod Failures
mod Tests
use feather_flow.Common.{
  ℕ, ◌-◌, ◌/◌, ◌≡◌, Bool, true, false, not, ◌&&◌, ◌||◌, Option, none, some, is_some, or_default,
  or_else, List, [], ◌∷◌, ◌++◌, min, max, ltb, leb, if◌then◌else◌, length, contains, String, ◌==◌,
  string_eq, nat_eq, Result, ok, err, ◌>>=◌,
}
use feather_flow.Common.Text.{◌<>◌, str_nat, str_grouped}
use feather_flow.State.{ExtractOverride}
use feather_flow.Windows.{Runtime, WindowSpec, WindowError, Range, plan_windows}
use feather_flow.Planner.Columns.{
  StreamSchema, auto_derive_timestamp_column, auto_derive_int_pk_column,
}

pub data Bucket : Type 0 where
  small medium large : Bucket

pub data BlockerKind : Type 0 where
  wide_table no_window_column slow_transport : BlockerKind

pub record Blocker : Type 0 where
  pub kind : BlockerKind
  pub table : String
  pub message : String
  pub bypass_flag : String

-- The thresholds of `ExtractDefaultsConfig`.
pub record ExtractDefaults : Type 0 where
  pub t_small_rows : ℕ
  pub t_large_rows : ℕ
  pub t_narrow_cols : ℕ
  pub t_wide_cols : ℕ

pub record ExtractPlan : Type 0 where
  pub bucket : Bucket
  pub transport : String
  pub partition_on : Option String
  pub partition_count : Option ℕ
  pub window_strategy : String
  pub window_column : Option String
  pub window_grain : Option String
  pub windows : List WindowSpec
  pub blockers : List Blocker
  pub eta_seconds : Option ℕ
  pub rows_estimate : ℕ
  pub column_count : ℕ
  pub projection_column_count : Option ℕ

-- The arguments of `pick_plan`.
pub record PlanInput (Rate : Type 0) : Type 0 where
  pub table_name : String
  pub discovery : StreamSchema
  pub cheap_rows : ℕ
  pub window_range : Option Range
  pub override : Option ExtractOverride
  pub defaults : ExtractDefaults
  pub registered_transports : List String
  pub transport_supports_partition_on : Bool
  pub projection_column_count : Option ℕ
  pub source_dialect : String
  pub recent_rows_per_sec : Option Rate
  pub rows_already_extracted : ℕ

pub data PlanError : Type 0 where
  window_error : WindowError → PlanError
  zero_division : PlanError

unfoldable pub classify_bucket : ℕ → ℕ → ExtractDefaults → Bucket
classify_bucket rows col_count d =
    if ltb rows d.t_small_rows && ltb col_count d.t_narrow_cols
    then small
    else if leb d.t_large_rows rows && leb d.t_narrow_cols col_count
    then large
    else medium

abbrev pub is_small : Bucket → Bool
is_small small = true
is_small _ = false

abbrev pub is_large : Bucket → Bool
is_large large = true
is_large _ = false

-- `override is not None and override.f is not None`, and the value of the field there.
abbrev pub field_of {ℓ} :
    {A : Type ℓ} → (ExtractOverride → Option A) → Option ExtractOverride → Option A
field_of f none = none
field_of f (some o) = f o

-- The strategy that follows from the effective window column, the timestamp column and the key.
unfoldable pub auto_strategy : Bool → Bool → Bool → String
auto_strategy has_col has_ts has_pk =
    if has_col && has_ts
    then "date"
    else if has_pk && not has_col
    then "pk_range"
    else if not has_ts && not has_pk
    then "single"
    else "date"

-- `x or y` on texts
abbrev truthy_or : Option String → String → String
truthy_or none y = y
truthy_or (some x) y = if x == "" then y else x

abbrev pub lift_windows : Result WindowError (List WindowSpec) → Result PlanError (List WindowSpec)
lift_windows (ok ws) = ok ws
lift_windows (err e) = err (window_error e)

-- The column of a strategy: the window column, or that of the partition.
unfoldable pub column_of : String → Option String → Option String → Option String
column_of strategy window_col partition_col =
    if strategy == "single"
    then none
    else if strategy == "date"
    then window_col
    else if strategy == "pk_range"
    then partition_col
    else window_col

module _ (py : Runtime) where
  abbrev full_table : Result PlanError (List WindowSpec)
  full_table = lift_windows (plan_windows py "single" none none none "destination")

  -- The windows of a strategy, with the fall-back to the whole table.
  unfoldable pub windows_for :
      (strategy : String) (window_col partition_col grain : Option String) (range_ : Option Range)
      (dialect : String)
      → Result PlanError (List WindowSpec)
  windows_for strategy window_col partition_col grain range_ dialect =
      if strategy == "single"
      then full_table
      else if strategy == "date"
      then (if is_some range_ && is_some window_col
          then lift_windows
              (plan_windows py "date" window_col (some (truthy_or grain "1d")) range_ dialect)
          else full_table)
      else if strategy == "pk_range"
      then (if is_some range_ && is_some partition_col
          then lift_windows (plan_windows py "pk_range" partition_col none range_ dialect)
          else full_table)
      else full_table

module _ {Rate : Type 0} (i : PlanInput Rate) where
  abbrev pub plan_columns : ℕ
  plan_columns = length i.discovery.columns

  abbrev pub plan_bucket : Bucket
  plan_bucket = classify_bucket i.cheap_rows plan_columns i.defaults

  abbrev pub timestamp_col : Option String
  timestamp_col = auto_derive_timestamp_column i.discovery

  abbrev pub int_pk_col : Option String
  int_pk_col = auto_derive_int_pk_column i.discovery

  abbrev pub window_col : Option String
  window_col = or_else (field_of (λ o. o.window_column) i.override) timestamp_col

  abbrev pub partition_col : Option String
  partition_col = or_else (field_of (λ o. o.partition_on) i.override) int_pk_col

  abbrev pub wanted_strategy : String
  wanted_strategy =
      or_default (field_of (λ o. o.window_strategy) i.override)
        (auto_strategy (is_some window_col) (is_some timestamp_col) (is_some int_pk_col))

  unfoldable pub plan_strategy : String
  plan_strategy = if is_small plan_bucket then "single" else wanted_strategy

  abbrev pub plan_grain : Option String
  plan_grain =
      or_else (field_of (λ o. o.window_grain) i.override)
        (if plan_strategy == "date" then some "1d" else none)

  -- The condition of the parallel transport.
  abbrev pub is_parallel : Bool
  is_parallel =
      is_large plan_bucket
      && (contains i.registered_transports "connectorx" && i.transport_supports_partition_on)

  abbrev default_transport : List String → String
  default_transport [] = "arrow_odbc"
  default_transport (t ∷ ts) = t

  abbrev pub plan_transport : String
  plan_transport = if is_parallel then "connectorx" else default_transport i.registered_transports

  abbrev pub plan_partition_on : Option String
  plan_partition_on = if is_parallel then partition_col else none

  abbrev pub plan_partition_count : Option ℕ
  plan_partition_count = if is_parallel then some (min 8 (max 2 (i.cheap_rows / 1000000))) else none

  abbrev pub is_wide : Bool
  is_wide = ltb i.defaults.t_wide_cols plan_columns && not (is_some i.projection_column_count)

  abbrev pub lacks_window : Bool
  lacks_window =
      not (is_small plan_bucket)
      && (not (is_some window_col || is_some int_pk_col)
          && not (
              is_some (field_of (λ o. o.window_column) i.override)
              || is_some (field_of (λ o. o.window_strategy) i.override)))

  abbrev pub is_slow : Bool
  is_slow = is_large plan_bucket && not (contains i.registered_transports "connectorx")

  wide_blocker : Blocker
  wide_blocker = record {
    kind = wide_table;
    table = i.table_name;
    message =
        "Table '"
        <> i.table_name
        <> "' has "
        <> str_nat plan_columns
        <> " columns (threshold: "
        <> str_nat i.defaults.t_wide_cols
        <> "). Configure a projection in transforms/bronze/"
        <> i.table_name
        <> ".sql to narrow the extract.";
    bypass_flag = "--accept-wide";
  }

  window_blocker : Blocker
  window_blocker = record {
    kind = no_window_column;
    table = i.table_name;
    message =
        "Table '" <> i.table_name
        <> "' has no derivable window column (no timestamp or integer primary key found). Use --single-window to extract without windowing, or set an override with `feather extract override set "
        <> i.table_name <> " --window-column <col>`.";
    bypass_flag = "--single-window";
  }

  slow_blocker : Blocker
  slow_blocker = record {
    kind = slow_transport;
    table = i.table_name;
    message =
        "Table '"
        <> i.table_name
        <> "' is LARGE ("
        <> str_grouped i.cheap_rows
        <> " rows) but connectorx is not installed. Install connectorx for parallel reads, or use --accept-slow-transport to proceed with the current transport.";
    bypass_flag = "--accept-slow-transport";
  }

  unfoldable pub plan_blockers : List Blocker
  unfolding wide_blocker window_blocker slow_blocker
  plan_blockers =
      (if is_wide then wide_blocker ∷ [] else [])
      ++ ((if lacks_window then window_blocker ∷ [] else [])
          ++ (if is_slow then slow_blocker ∷ [] else []))

  abbrev pub strategy_column : Option String
  strategy_column = column_of plan_strategy window_col partition_col

  -- The `ExtractPlan` that is returned.
  abbrev pub assembled : List WindowSpec → Option ℕ → ExtractPlan
  assembled windows eta_seconds = record {
    bucket = plan_bucket;
    transport = plan_transport;
    partition_on = plan_partition_on;
    partition_count = plan_partition_count;
    window_strategy = plan_strategy;
    window_column = strategy_column;
    window_grain = plan_grain;
    windows = windows;
    blockers = plan_blockers;
    eta_seconds = eta_seconds;
    rows_estimate = i.cheap_rows;
    column_count = plan_columns;
    projection_column_count = i.projection_column_count;
  }

  module _ (py : Runtime) where
    abbrev pub windows_of_plan : Result PlanError (List WindowSpec)
    windows_of_plan =
        windows_for py plan_strategy window_col partition_col plan_grain i.window_range
          i.source_dialect

    -- `int(rows / rate)`; a rate of 0.0 is a ZeroDivisionError, `none` here.
    module _ (quotient : ℕ → Rate → Option ℕ) where
      unfoldable pub eta : Result PlanError (Option ℕ)
      eta =
          let remaining = i.cheap_rows - i.rows_already_extracted in
          if remaining == 0 then ok none else elim i.recent_rows_per_sec [
            | some rate ↦ elim (quotient remaining rate) [
              | none ↦ err zero_division
              | some seconds ↦ ok (some seconds)
            ]
            | none ↦
                if plan_transport == "connectorx" && is_some plan_partition_on
                then ok (some (remaining / 6000))
                else ok (some (remaining / 2000))
          ]

      unfoldable pub pick_plan : Result PlanError ExtractPlan
      pick_plan = do
        windows ← windows_of_plan
        eta_seconds ← eta
        ok (assembled windows eta_seconds)
