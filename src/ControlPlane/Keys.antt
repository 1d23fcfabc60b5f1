-- ===== src/ControlPlane/Keys.antt =====
-- control_plane/store.py: what one record does to one key of each table.
use feather_flow.Common.{
  ◌≡◌, refl, ap, ◌∙◌, Option, none, some, String, ◌==◌, Eq, string_eq, pair_eq, nat_eq,
  if◌then◌else◌, ℕ, arith, is_some, Bool, true, false,
}
use feather_flow.Common.Dict.{Dict, lookup, insert, lookup-insert}
use feather_flow.ControlPlane.{
  RunRow, EventRow, BudgetRow, Plane, RunFinish, Record, run_start, run_finish, event, budget,
  unknown,
}
use feather_flow.ControlPlane.Store.{insert_new, started_row, finish_row, write}

abbrev pub found {ℓ} : {A : Type ℓ} → A → Option A → A
found a none = a
found a (some b) = b

lookup-if :
    {K V : Type 0} ⦃e : Eq K⦄ (j k : K) (v : V) (d : Dict K V) (o : Option V)
    → lookup k d ≡ o
    → lookup j (if is_some o then d else insert k v d)
      ≡ (if k == j then some (found v (lookup j d)) else lookup j d)
lookup-if ⦃e⦄ j k v d none h =
    ground (arith, lookup-insert k j v d, e.decides k j, ap (λ i. lookup i d) {x = k} {y = j})
lookup-if ⦃e⦄ j k v d (some old) h =
    ground (arith, e.decides k j, ap (λ i. lookup i d) {x = k} {y = j})

pub lookup-insert_new :
    {K V : Type 0} ⦃e : Eq K⦄ (j k : K) (v : V) (d : Dict K V)
    → lookup j (insert_new k v d) ≡ (if k == j then some (found v (lookup j d)) else lookup j d)
lookup-insert_new j k v d = lookup-if j k v d (lookup k d) refl

abbrev pub run_after : String → Record → Option RunRow → Option RunRow
run_after k (run_start s) o = if s.run_id == k then some (found (started_row s) o) else o
run_after k (run_finish f) o = if f.run_id == k then some (finish_row f o) else o
run_after k (event j row) o = o
run_after k (budget j row) o = o
run_after k (unknown kind) o = o

abbrev pub event_after : (String × String) × ℕ → Record → Option EventRow → Option EventRow
event_after k (event j row) o = if j == k then some (found row o) else o
event_after k (run_start s) o = o
event_after k (run_finish f) o = o
event_after k (budget j row) o = o
event_after k (unknown kind) o = o

abbrev pub budget_after : (String × String) × String → Record → Option BudgetRow → Option BudgetRow
budget_after k (budget j row) o = if j == k then some row else o
budget_after k (run_start s) o = o
budget_after k (run_finish f) o = o
budget_after k (event j row) o = o
budget_after k (unknown kind) o = o

finish-at :
    (k j : String) (f : RunFinish) (d : Dict String RunRow) (b : Bool)
    → (j == k) ≡ b
    → (if b then some (finish_row f (lookup j d)) else lookup k d)
      ≡ (if b then some (finish_row f (lookup k d)) else lookup k d)
finish-at k j f d true h = ap (λ i. some (finish_row f (lookup i d))) ((string_eq.decides j k).0 h)
finish-at k j f d false h = refl

pub write-runs :
    (k : String) (r : Record) (p : Plane)
    → lookup k (write r p).runs ≡ run_after k r (lookup k p.runs)
unfolding write
write-runs k (run_start s) p = lookup-insert_new k s.run_id (started_row s) p.runs
write-runs k (run_finish f) p =
    lookup-insert f.run_id k (finish_row f (lookup f.run_id p.runs)) p.runs
    ∙ finish-at k f.run_id f p.runs (f.run_id == k) refl
write-runs k (event j row) p = refl
write-runs k (budget j row) p = refl
write-runs k (unknown kind) p = refl

pub write-events :
    (k : (String × String) × ℕ) (r : Record) (p : Plane)
    → lookup k (write r p).events ≡ event_after k r (lookup k p.events)
unfolding write
write-events k (event j row) p = lookup-insert_new k j row p.events
write-events k (run_start s) p = refl
write-events k (run_finish f) p = refl
write-events k (budget j row) p = refl
write-events k (unknown kind) p = refl

pub write-budgets :
    (k : (String × String) × String) (r : Record) (p : Plane)
    → lookup k (write r p).budgets ≡ budget_after k r (lookup k p.budgets)
unfolding write
write-budgets k (budget j row) p = lookup-insert j k row p.budgets
write-budgets k (run_start s) p = refl
write-budgets k (run_finish f) p = refl
write-budgets k (event j row) p = refl
write-budgets k (unknown kind) p = refl
