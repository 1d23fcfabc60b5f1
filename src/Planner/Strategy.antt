-- ===== src/Planner/Strategy.antt =====
-- The window strategy of a table that is not small.
use feather_flow.Common.{
  ℕ, ◌≡◌, refl, true, false, ◌||◌, Option, none, some, is_some, or_else, [], String, string_eq, ok,
  arith, inl, inr, ◌⊎◌,
}
use feather_flow.Windows.{Runtime}
use feather_flow.Planner.{
  PlanInput, ExtractPlan, is_small, plan_bucket, plan_strategy, column_of, window_col,
  timestamp_col, int_pk_col, field_of, plan_blockers, lacks_window, auto_strategy, pick_plan,
}
use feather_flow.Planner.Shape.{pick_plan-eq-ok}

-- The strategy that is derived from a timestamp column and an integer key, of which there is one.
derived :
    (ts pk : Option String)
    → (is_some ts || is_some pk) ≡ true
    → ((auto_strategy (is_some ts) (is_some ts) (is_some pk) ≡ "date") × (is_some ts ≡ true))
      ⊎ ((auto_strategy (is_some ts) (is_some ts) (is_some pk) ≡ "pk_range") × (is_some pk ≡ true))
unfolding auto_strategy
derived ts pk h = ground arith

is_some-or_else : (a b : Option String) → is_some b ≡ true → is_some (or_else a b) ≡ true
is_some-or_else a b h = ground arith

module _ {Rate : Type 0} (i : PlanInput Rate) (py : Runtime) (quotient : ℕ → Rate → Option ℕ) where
  blocked-lacks_window : plan_blockers i ≡ [] → lacks_window i ≡ false
  unfolding plan_blockers
  blocked-lacks_window h = ground arith

  automatic :
      is_small (plan_bucket i) ≡ false
      → field_of (λ o. o.window_strategy) i.override ≡ none
      → plan_strategy i
        ≡ auto_strategy
            (is_some (window_col i))
            (is_some (timestamp_col i))
            (is_some (int_pk_col i))
  unfolding plan_strategy
  automatic big free = rw (big, free)

  -- A plan without blockers, of a table that is not small and has no stored strategy or window
  -- column, has the strategy `date` by its timestamp column, or `pk_range` by the stored partition
  -- column or else its integer key, and there is such a column. Its windows are not spoken of: it
  -- may have the single one, where the range of the column is not known.
  pub unblocked_strategy :
      {p : ExtractPlan}
      → pick_plan i py quotient ≡ ok p
      → p.blockers ≡ []
      → is_small p.bucket ≡ false
      → field_of (λ o. o.window_strategy) i.override ≡ none
      → field_of (λ o. o.window_column) i.override ≡ none
      → (((p.window_strategy ≡ "date") × (p.window_column ≡ timestamp_col i))
          ⊎ ((p.window_strategy ≡ "pk_range")
              × (p.window_column
                  ≡ or_else (field_of (λ o. o.partition_on) i.override) (int_pk_col i))))
        × (is_some p.window_column ≡ true)
  unfolding column_of
  unblocked_strategy h clear big no_strategy no_column =
      let (ws, seconds, planned, made) = pick_plan-eq-ok i py quotient h in
      let not_small : is_small (plan_bucket i) ≡ false = cc (made, big) in
      let col : window_col i ≡ timestamp_col i = rw no_column in
      let blocked : plan_blockers i ≡ [] = cc (made, clear) in
      let lacks = blocked-lacks_window blocked in
      let derivable : (is_some (timestamp_col i) || is_some (int_pk_col i)) ≡ true =
        ground (arith, not_small, col, lacks, no_column, no_strategy) in
      let strategy = automatic not_small no_strategy in
      rw (made, strategy, col)
        (elim (derived (timestamp_col i) (int_pk_col i) derivable) [
          | inl (is_date, has) ↦ rw is_date (inl (refl, refl), has)
          | inr (is_range, has) ↦ rw is_range (
            inr (refl, refl),
            is_some-or_else (field_of (λ o. o.partition_on) i.override) (int_pk_col i) has,
          )
        ])

  -- With a stored window column, but no stored strategy, no timestamp column and no integer key,
  -- the plan of a table that is not small reads the whole table at once, and no blocker says so.
  pub column_override_ignored :
      {p : ExtractPlan} (column : String)
      → pick_plan i py quotient ≡ ok p
      → is_small p.bucket ≡ false
      → field_of (λ o. o.window_strategy) i.override ≡ none
      → field_of (λ o. o.window_column) i.override ≡ some column
      → timestamp_col i ≡ none
      → int_pk_col i ≡ none
      → (p.window_strategy ≡ "single") × (lacks_window i ≡ false)
  unfolding auto_strategy
  column_override_ignored column h big no_strategy stored no_ts no_pk =
      let (ws, seconds, planned, made) = pick_plan-eq-ok i py quotient h in
      let not_small : is_small (plan_bucket i) ≡ false = cc (made, big) in
      (
        rw (made, automatic not_small no_strategy, stored, no_ts, no_pk) refl,
        rw (stored, not_small) refl,
      )
