-- ===== src/Windows/Dates.antt =====
-- `_plan_date_windows`: one window for each day.
use feather_flow.Common.{
  some, map, ℕ, zero, suc, ◌+◌, ◌-◌, ◌≤◌, ◌<◌, ◌≡◌, refl, ◌∙◌, true, false, ◌&&◌, List, [], ◌∷◌,
  arith, length, leb, ltb, select, if◌then◌else◌, Bool-cases, ok, err, traverse, String, inl, inr,
  ◌==◌, nat_eq, string_eq,
}
use feather_flow.Common.Text.{Datetime, last_day, iso_date}
use feather_flow.Windows.{
  Runtime, WindowSpec, date_overflow, date_text, date_predicate, date_window, date_loop,
  plan_date_windows, quote_for_dialect,
}

-- `count` days from `start` on.
abbrev pub days_from : ℕ → ℕ → List ℕ
days_from start zero = []
days_from start (suc count) = start ∷ days_from (start + 1) count

-- How often a day is in the list.
abbrev pub day_times : ℕ → List ℕ → ℕ
day_times d days = length (select (λ e. e == d) days)

day_times_from :
    (d start count : ℕ)
    → day_times d (days_from start count) ≡ (if leb start d && ltb d (start + count) then 1 else 0)
day_times_from d start zero = ground arith
day_times_from d start (suc count) = ground (arith, day_times_from d (start + 1) count)

module _ (py : Runtime) (column dialect : String) where
  date_loop-traverse :
      (max_day fuel start : ℕ)
      → max_day + 1 - start < fuel
      → date_loop py column dialect max_day fuel start
        ≡ traverse (date_window py column dialect) (days_from start (max_day + 1 - start))
  unfolding date_loop
  date_loop-traverse max_day zero start h = absurd (omega arith)
  date_loop-traverse max_day (suc fuel) start h = elim (Bool-cases (leb start max_day)) [
    | inl more ↦
        let count : max_day + 1 - start ≡ suc (max_day + 1 - (start + 1)) = ground arith in
        rw (more, count) (rw (date_loop-traverse max_day fuel (start + 1) (ground arith)))
    | inr done ↦ let count : max_day + 1 - start ≡ 0 = ground arith in rw (done, count)
  ]

  -- A plan of grain `1d` is made of the windows of the days from that of `min_dt` to that of
  -- `max_dt` (or raises the first error that one of these raises): each day of the range has
  -- exactly one window, and no other day has one.
  pub date_partition :
      (min_dt max_dt : Datetime)
      → (days : List ℕ) × (plan_date_windows py column "1d" min_dt max_dt dialect
          ≡ traverse (date_window py column dialect) days)
        × ((d : ℕ) → day_times d days ≡ (if leb min_dt.day d && leb d max_dt.day then 1 else 0))
  unfolding plan_date_windows
  date_partition min_dt max_dt = (
    days_from min_dt.day (max_dt.day + 1 - min_dt.day),
    date_loop-traverse max_dt.day (suc (max_dt.day + 1 - min_dt.day)) min_dt.day (omega arith),
    λ d. ground (arith, day_times_from d min_dt.day (max_dt.day + 1 - min_dt.day)),
  )

  module _ {here there : String} (quoted_here : quote_for_dialect py column "destination" ≡ ok here)
      (quoted_there : quote_for_dialect py column dialect ≡ ok there) where
    -- The window of one day.
    abbrev pub day_window : ℕ → WindowSpec
    day_window d = record {
      window_key = iso_date d;
      window_predicate = date_text here d (d + 1);
      window_start = some (record { day = d; micros = 0 });
      window_end = some (record { day = d + 1; micros = 0 });
      source_filter = some (date_text there d (d + 1));
    }

    date_window-ok : (d : ℕ) → d < last_day → date_window py column dialect d ≡ ok (day_window d)
    unfolding date_window date_predicate
    date_window-ok d h =
        let room : ltb last_day (d + 1) ≡ false = ground arith in
        rw (room, quoted_here, quoted_there)

    traverse-ok :
        (start count : ℕ)
        → start + count ≤ last_day
        → traverse (date_window py column dialect) (days_from start count)
          ≡ ok (map day_window (days_from start count))
    traverse-ok start zero h = refl
    traverse-ok start (suc count) h =
        rw (date_window-ok start (omega arith), traverse-ok (start + 1) count (omega arith))

    traverse-overflow :
        (start count : ℕ)
        → start ≤ last_day
        → last_day < start + count
        → traverse (date_window py column dialect) (days_from start count) ≡ err date_overflow
    unfolding date_window
    traverse-overflow start zero h k = absurd (omega arith)
    traverse-overflow start (suc count) h k = elim (Bool-cases (ltb start last_day)) [
      | inl before ↦ rw (
        date_window-ok start (ground arith),
        traverse-overflow (start + 1) count (ground arith) (omega arith),
      )
      | inr at_end ↦ let full : ltb last_day (start + 1) ≡ true = ground arith in rw full
    ]

    -- With a column that both dialects can quote, a plan of grain `1d` whose last day lies before
    -- 9999-12-31 succeeds, with the window of each day in order: the keys are the ISO dates and the
    -- predicates the half-open days.
    pub date_plan_ok :
        (min_dt max_dt : Datetime)
        → max_dt.day < last_day
        → min_dt.day ≤ max_dt.day
        → plan_date_windows py column "1d" min_dt max_dt dialect
          ≡ ok (map day_window (days_from min_dt.day (max_dt.day + 1 - min_dt.day)))
    unfolding plan_date_windows
    date_plan_ok min_dt max_dt h k =
        date_loop-traverse max_dt.day (suc (max_dt.day + 1 - min_dt.day)) min_dt.day (omega arith)
        ∙ traverse-ok min_dt.day (max_dt.day + 1 - min_dt.day) (omega arith)

    -- With such a column, a range that ends on 9999-12-31 has no plan: the end of its last day is
    -- past the dates, and the whole plan raises an OverflowError.
    date_plan_overflow :
        (min_dt max_dt : Datetime)
        → max_dt.day ≡ last_day
        → min_dt.day ≤ max_dt.day
        → plan_date_windows py column "1d" min_dt max_dt dialect ≡ err date_overflow
    unfolding plan_date_windows
    date_plan_overflow min_dt max_dt h k =
        date_loop-traverse max_dt.day (suc (max_dt.day + 1 - min_dt.day)) min_dt.day (omega arith)
        ∙ traverse-overflow min_dt.day (max_dt.day + 1 - min_dt.day) (omega arith) (omega arith)
