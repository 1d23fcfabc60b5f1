-- ===== src/Planner/Shape.antt =====
-- The transport and the partition of a plan, and the plan of a small table.
use feather_flow.Common.{
  ℕ, ◌≤◌, ◌≡◌, true, Option, none, some, List, [], ◌∷◌, min, max, contains, string_eq, ok, arith,
  ◌⊎◌, inl, inr, >>=-eq-ok, Bool-cases, ◌/◌,
}
use feather_flow.Windows.{WindowSpec, Runtime, single_window, plan_windows}
use feather_flow.Planner.{
  PlanInput, ExtractPlan, small, large, BlockerKind, Blocker, wide_table, assembled, column_of,
  windows_for, windows_of_plan, eta, pick_plan, plan_blockers, plan_bucket, plan_strategy,
  strategy_column, is_parallel,
}

abbrev pub kinds : List Blocker → List BlockerKind
kinds [] = []
kinds (b ∷ bs) = b.kind ∷ kinds bs

module _ {Rate : Type 0} (i : PlanInput Rate) (py : Runtime) (quotient : ℕ → Rate → Option ℕ) where
  pub pick_plan-eq-ok :
      {p : ExtractPlan}
      → pick_plan i py quotient ≡ ok p
      → (ws : List WindowSpec) × (seconds : Option ℕ) × (windows_of_plan i py ≡ ok ws)
        × (p ≡ assembled i ws seconds)
  unfolding pick_plan
  pick_plan-eq-ok h =
      let (ws, planned, rest) = >>=-eq-ok (windows_of_plan i py) _ h in
      let (seconds, timed, done) = >>=-eq-ok (eta i py quotient) _ rest in
      (ws, seconds, planned, cc)

  -- A partitioned plan has 2 to 8 partitions, and only a large table gets one, read by connectorx
  -- where that is registered and the source takes partitions; any other plan names no partition
  -- column.
  partition_bounds :
      {p : ExtractPlan}
      → pick_plan i py quotient ≡ ok p
      → ((n : ℕ) × (p.partition_count ≡ some n)
          × (2 ≤ n)
          × (n ≤ 8)
          × (p.bucket ≡ large)
          × (p.transport ≡ "connectorx")
          × (contains i.registered_transports "connectorx" ≡ true)
          × (i.transport_supports_partition_on ≡ true))
        ⊎ ((p.partition_count ≡ none) × (p.partition_on ≡ none))
  partition_bounds h =
      let (ws, seconds, planned, made) = pick_plan-eq-ok h in
      rw made (elim (Bool-cases (is_parallel i)) [
        | inl parallel ↦ inl (
          min 8 (max 2 (i.cheap_rows / 1000000)),
          ground arith,
          ground arith,
          ground arith,
          ground arith,
          ground arith,
          ground arith,
          ground arith,
        )
        | inr serial ↦ inr (ground arith, ground arith)
      ])

  small-single : plan_bucket i ≡ small → plan_strategy i ≡ "single"
  unfolding plan_strategy
  small-single h = rw h

  column-single : plan_strategy i ≡ "single" → strategy_column i ≡ none
  unfolding column_of
  column-single h = rw h

  windows-single : plan_strategy i ≡ "single" → windows_of_plan i py ≡ ok (single_window ∷ [])
  unfolding windows_for plan_windows
  windows-single h = rw h

  -- A plan of the small bucket extracts the table in one window, without a window column and in one
  -- stream, whatever the override says, and nothing but its width can block it.
  pub small_plan :
      {p : ExtractPlan}
      → pick_plan i py quotient ≡ ok p
      → p.bucket ≡ small
      → (p.windows ≡ single_window ∷ [])
        × (p.window_strategy ≡ "single")
        × (p.window_column ≡ none)
        × (p.partition_count ≡ none)
        × ((p.blockers ≡ []) ⊎ (kinds p.blockers ≡ wide_table ∷ []))
  unfolding plan_blockers
  small_plan h tiny =
      let (ws, seconds, planned, made) = pick_plan-eq-ok h in
      let in_bucket : plan_bucket i ≡ small = cc in
      let single = small-single in_bucket in
      rw made (
        ground (arith, planned, windows-single single),
        single,
        column-single single,
        rw in_bucket,
        rw in_bucket (ground arith),
      )
