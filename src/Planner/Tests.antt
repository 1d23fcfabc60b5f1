-- ===== src/Planner/Tests.antt =====
-- Plans of small tables; a rate is a number here.
use feather_flow.Common.{
  or_else, ℕ, ◌/◌, ◌≡◌, refl, true, false, Option, none, some, is_some, [], ◌∷◌, if◌then◌else◌,
  ◌==◌, string_eq, nat_eq, ok, ◌⊎◌,
}
use feather_flow.State.{ExtractOverride}
use feather_flow.Windows.{
  dates, single_window, plan_windows, quote_for_dialect, identifier_codes, quotes,
}
use feather_flow.Windows.Tests.{ascii}
use feather_flow.Planner.{
  PlanInput, ExtractDefaults, ExtractPlan, small, classify_bucket, auto_strategy, column_of,
  windows_for, windows_of_plan, field_of, plan_bucket, plan_strategy, plan_blockers, assembled,
  is_small, timestamp_col, int_pk_col, partition_col, eta, pick_plan,
}
use feather_flow.Planner.Columns.{
  auto_derive_timestamp_column, auto_derive_int_pk_column, first_column, is_timestamp_type,
  is_int_type, is_infix,
}
use feather_flow.Planner.Strategy.{unblocked_strategy}

abbrev quotient : ℕ → ℕ → Option ℕ
quotient n rate = if rate == 0 then none else some (n / rate)

abbrev limits : ExtractDefaults
limits = record { t_small_rows = 1000; t_large_rows = 5000; t_narrow_cols = 2; t_wide_cols = 100 }

abbrev orders : PlanInput ℕ
orders = record {
  table_name = "orders";
  discovery = record {
    columns = ("id", "int") ∷ ("ts", "datetime") ∷ ("name", "text") ∷ [];
    primary_key = some ("id" ∷ []);
  };
  cheap_rows = 9000;
  window_range = none;
  override = none;
  defaults = limits;
  registered_transports = "connectorx" ∷ [];
  transport_supports_partition_on = true;
  projection_column_count = none;
  source_dialect = "mysql";
  recent_rows_per_sec = none;
  rows_already_extracted = 0;
}

abbrev full_plan : ExtractPlan
full_plan = assembled orders (single_window ∷ []) (some 1)

orders_planned : pick_plan orders ascii quotient ≡ ok full_plan
unfolding pick_plan eta windows_for plan_windows plan_strategy plan_blockers column_of auto_strategy
    classify_bucket auto_derive_timestamp_column auto_derive_int_pk_column first_column
    is_timestamp_type is_int_type is_infix
orders_planned = refl

orders_facts : (full_plan.blockers ≡ []) × (is_small full_plan.bucket ≡ false)
unfolding plan_blockers classify_bucket auto_derive_timestamp_column auto_derive_int_pk_column
    first_column is_timestamp_type is_int_type is_infix
orders_facts = (refl, refl)

unblocked_strategy_example :
    (((full_plan.window_strategy ≡ "date") × (full_plan.window_column ≡ timestamp_col orders))
      ⊎ ((full_plan.window_strategy ≡ "pk_range")
          × (full_plan.window_column
              ≡ or_else (field_of (λ o. o.partition_on) orders.override) (int_pk_col orders))))
    × (is_some full_plan.window_column ≡ true)
unblocked_strategy_example =
    unblocked_strategy orders ascii quotient orders_planned orders_facts.0 orders_facts.1 refl refl

abbrev note : PlanInput ℕ
note = record orders {
  discovery = record { columns = ("text", "text") ∷ []; primary_key = none };
  cheap_rows = 9;
}

abbrev note_plan : ExtractPlan
note_plan = assembled note (single_window ∷ []) (some 0)

note_planned : pick_plan note ascii quotient ≡ ok note_plan
unfolding pick_plan eta windows_for plan_windows plan_strategy plan_blockers column_of auto_strategy
    classify_bucket auto_derive_timestamp_column auto_derive_int_pk_column first_column
    is_timestamp_type is_int_type is_infix
note_planned = refl

note_small : note_plan.bucket ≡ small
unfolding classify_bucket
note_small = refl

abbrev by_column : ExtractOverride
by_column = record {
  table_name = "events";
  window_strategy = none;
  window_column = some "name";
  window_grain = none;
  partition_on = none;
  created_at = 0;
}

abbrev events : PlanInput ℕ
events = record orders {
  discovery = record { columns = ("name", "text") ∷ ("kind", "text") ∷ []; primary_key = none };
  override = some by_column;
}

abbrev events_plan : ExtractPlan
events_plan = assembled events (single_window ∷ []) (some 4)

events_planned : pick_plan events ascii quotient ≡ ok events_plan
unfolding pick_plan eta windows_for plan_windows plan_strategy plan_blockers column_of auto_strategy
    classify_bucket auto_derive_timestamp_column auto_derive_int_pk_column first_column
    is_timestamp_type is_int_type is_infix
events_planned = refl

events_facts :
    (is_small events_plan.bucket ≡ false)
    × (timestamp_col events ≡ none)
    × (int_pk_col events ≡ none)
unfolding classify_bucket auto_derive_timestamp_column auto_derive_int_pk_column first_column
    is_timestamp_type is_int_type is_infix
events_facts = (refl, refl, refl)

abbrev stalled : PlanInput ℕ
stalled = record orders { recent_rows_per_sec = some 0 }

stalled_windows : windows_of_plan stalled ascii ≡ ok (single_window ∷ [])
unfolding windows_for plan_windows plan_strategy auto_strategy classify_bucket
    auto_derive_timestamp_column auto_derive_int_pk_column first_column is_timestamp_type
    is_int_type is_infix
stalled_windows = refl

abbrev by_key : ExtractOverride
by_key = record by_column { window_strategy = some "pk_range"; window_column = none }

abbrev keyed : PlanInput ℕ
keyed = record orders {
  override = some by_key;
  window_range =
      some (dates (record { day = 719162; micros = 0 }) (record { day = 719163; micros = 0 }));
}

keyed_facts :
    (is_small (plan_bucket keyed) ≡ false)
    × (partition_col keyed ≡ some "id")
    × (quote_for_dialect ascii "id" "destination" ≡ ok "\"id\"")
unfolding classify_bucket auto_derive_timestamp_column auto_derive_int_pk_column first_column
    is_timestamp_type is_int_type is_infix quote_for_dialect identifier_codes quotes
keyed_facts = (refl, refl, refl)
