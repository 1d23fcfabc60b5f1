-- ===== src/ControlPlane/Folds.antt =====
-- control_plane/store.py: what a list of records does to one key, and that once more changes
-- nothing.
use feather_flow.Common.{
  ◌≡◌, refl, sym, ap, ◌∙◌, ◌⊎◌, inl, inr, List, [], ◌∷◌, Option, none, some, String, ◌==◌,
  string_eq, pair_eq, nat_eq, ℕ, Bool, true, false, Bool-cases, if◌then◌else◌,
}
use feather_flow.ControlPlane.{
  RunRow, EventRow, BudgetRow, RunFinish, Record, run_start, run_finish, event, budget, unknown,
}
use feather_flow.ControlPlane.Store.{started_row, opened, closed, coalesce, finish_row}
use feather_flow.ControlPlane.Keys.{found, run_after, event_after, budget_after}

abbrev pub each {ℓ} : {S : Type ℓ} → (Record → S → S) → List Record → S → S
each step [] o = o
each step (r ∷ rs) o = each step rs (step r o)

-- Budgets: the last write stays.
abbrev pub budget_each :
    (String × String) × String → List Record → Option BudgetRow → Option BudgetRow
budget_each k = each (budget_after k)

budget-step :
    (k : (String × String) × String) (r : Record)
    → ((o : Option BudgetRow) → budget_after k r o ≡ o)
      ⊎ ((o u : Option BudgetRow) → budget_after k r o ≡ budget_after k r u)
budget-step k (run_start s) = inl λ o. refl
budget-step k (run_finish f) = inl λ o. refl
budget-step k (event j row) = inl λ o. refl
budget-step k (unknown kind) = inl λ o. refl
budget-step k (budget j row) = elim (Bool-cases (j == k)) [
  | inl h ↦
      inr λ o u. ap (λ b. if b then some row else o) h ∙ sym (ap (λ b. if b then some row else u) h)
  | inr h ↦ inl λ o. ap (λ b. if b then some row else o) h
]

budget-settles :
    (k : (String × String) × String) (rs : List Record)
    → ((o : Option BudgetRow) → budget_each k rs o ≡ o)
      ⊎ ((o u : Option BudgetRow) → budget_each k rs o ≡ budget_each k rs u)
budget-settles k [] = inl λ o. refl
budget-settles k (r ∷ rs) = elim (budget-settles k rs) [
  | inr h ↦ inr λ o u. h (budget_after k r o) (budget_after k r u)
  | inl h ↦ elim (budget-step k r) [
    | inl d ↦ inl λ o. h (budget_after k r o) ∙ d o
    | inr d ↦ inr λ o u. ap (budget_each k rs) (d o u)
  ]
]

pub budget-again :
    (k : (String × String) × String) (rs : List Record) (o : Option BudgetRow)
    → budget_each k rs (budget_each k rs o) ≡ budget_each k rs o
budget-again k rs o = elim (budget-settles k rs) [
  | inl h ↦ h (budget_each k rs o)
  | inr h ↦ h (budget_each k rs o) o
]

if-same {ℓ} : {A : Type ℓ} (b : Bool) (a : A) → (if b then a else a) ≡ a
if-same true a = refl
if-same false a = refl

-- Events: the first write stays.
event-kept :
    (k : (String × String) × ℕ) (rs : List Record) (row : EventRow)
    → each (event_after k) rs (some row) ≡ some row
event-kept k [] row = refl
event-kept k (run_start s ∷ rs) row = event-kept k rs row
event-kept k (run_finish f ∷ rs) row = event-kept k rs row
event-kept k (budget j other ∷ rs) row = event-kept k rs row
event-kept k (unknown kind ∷ rs) row = event-kept k rs row
event-kept k (event j other ∷ rs) row =
    ap (each (event_after k) rs) (if-same (j == k) (some row)) ∙ event-kept k rs row

event-written :
    (k : (String × String) × ℕ) (rs : List Record) (row : EventRow)
    → each (event_after k) rs (each (event_after k) rs none) ≡ each (event_after k) rs none
    → (b : Bool)
    → (let after = λ (o : Option EventRow). if b then some (found row o) else o in
        each (event_after k) rs (after (each (event_after k) rs (after none)))
        ≡ each (event_after k) rs (after none))
event-written k rs row h true =
    ap (λ o. each (event_after k) rs (some (found row o))) (event-kept k rs row)
event-written k rs row h false = h

pub event-again :
    (k : (String × String) × ℕ) (rs : List Record) (o : Option EventRow)
    → each (event_after k) rs (each (event_after k) rs o) ≡ each (event_after k) rs o
event-again k [] o = refl
event-again k (r ∷ rs) (some row) = ap (each (event_after k) (r ∷ rs)) (event-kept k (r ∷ rs) row)
event-again k (run_start s ∷ rs) none = event-again k rs none
event-again k (run_finish f ∷ rs) none = event-again k rs none
event-again k (budget j row ∷ rs) none = event-again k rs none
event-again k (unknown kind ∷ rs) none = event-again k rs none
event-again k (event j row ∷ rs) none = event-written k rs row (event-again k rs none) (j == k)

-- Runs: on a row that is there, the finishes amount to one.
abbrev pub run_each : String → List Record → Option RunRow → Option RunRow
run_each k = each (run_after k)

abbrev closing : RunFinish → RunFinish → RunFinish
closing later f = record later { extra = coalesce later.extra f.extra }

coalesce_assoc {ℓ} :
    {A : Type ℓ} (a b c : Option A) → coalesce (coalesce a b) c ≡ coalesce a (coalesce b c)
coalesce_assoc (some x) b c = refl
coalesce_assoc none b c = refl

closed-closed :
    (later f : RunFinish) (row : RunRow)
    → closed later (closed f row) ≡ closed (closing later f) row
closed-closed later f row =
    ap
      (λ x. record (closed f row) {
        finished_at = some later.finished_at;
        status = later.status;
        stop_reason = later.stop_reason;
        n_ok = later.n_ok;
        n_err = later.n_err;
        n_skipped = later.n_skipped;
        extra = x;
      })
      (sym (coalesce_assoc later.extra f.extra row.extra))

coalesce_twice {ℓ} : {A : Type ℓ} (a b : Option A) → coalesce a (coalesce a b) ≡ coalesce a b
coalesce_twice (some x) b = refl
coalesce_twice none b = refl

coalesce_same {ℓ} : {A : Type ℓ} (a : Option A) → coalesce a a ≡ a
coalesce_same (some x) = refl
coalesce_same none = refl

closed-twice : (f : RunFinish) (row : RunRow) → closed f (closed f row) ≡ closed f row
closed-twice f row =
    ap (λ x. record (closed f row) { extra = x }) (coalesce_twice f.extra row.extra)

closed-opened : (f : RunFinish) → closed f (opened f) ≡ opened f
closed-opened f = ap (λ x. record (opened f) { extra = x }) (coalesce_same f.extra)

-- What a list of records does to a row that is there.
abbrev IsOneFinish : String → List Record → Type 0
IsOneFinish k rs =
    ((row : RunRow) → run_each k rs (some row) ≡ some row)
    ⊎ ((f : RunFinish) × ((row : RunRow) → run_each k rs (some row) ≡ some (closed f row)))

amounts-after :
    (k : String) (f : RunFinish) (rs : List Record)
    → IsOneFinish k rs
    → (b : Bool)
    → ((row : RunRow) → run_each k rs (if b then some (closed f row) else some row) ≡ some row)
      ⊎ ((g : RunFinish) × ((row : RunRow)
            → run_each k rs (if b then some (closed f row) else some row) ≡ some (closed g row)))
amounts-after k f rs h false = h
amounts-after k f rs (inl h) true = inr (f, λ row. h (closed f row))
amounts-after k f rs (inr (g, h)) true =
    inr (closing g f, λ row. h (closed f row) ∙ ap some (closed-closed g f row))

amounts-start :
    (k : String) (rs : List Record)
    → IsOneFinish k rs
    → (b : Bool)
    → ((row : RunRow) → run_each k rs (if b then some row else some row) ≡ some row)
      ⊎ ((g : RunFinish) × ((row : RunRow)
            → run_each k rs (if b then some row else some row) ≡ some (closed g row)))
amounts-start k rs h true = h
amounts-start k rs h false = h

amounts : (k : String) (rs : List Record) → IsOneFinish k rs
amounts k [] = inl λ row. refl
amounts k (run_start s ∷ rs) = amounts-start k rs (amounts k rs) (s.run_id == k)
amounts k (run_finish f ∷ rs) = amounts-after k f rs (amounts k rs) (f.run_id == k)
amounts k (event j row ∷ rs) = amounts k rs
amounts k (budget j row ∷ rs) = amounts k rs
amounts k (unknown kind ∷ rs) = amounts k rs

coalesce_between {ℓ} :
    {A : Type ℓ} (a b : Option A) → coalesce a (coalesce b (coalesce a b)) ≡ coalesce a b
coalesce_between (some x) b = refl
coalesce_between none b = coalesce_same b

closed-between : (g f : RunFinish) → closed g (closed f (closed g (opened f))) ≡ closed g (opened f)
closed-between g f =
    ap (λ x. record (closed g (opened f)) { extra = x }) (coalesce_between g.extra f.extra)

run-kept :
    (k : String) (rs : List Record) (row : RunRow)
    → run_each k rs (run_each k rs (some row)) ≡ run_each k rs (some row)
run-kept k rs row = elim (amounts k rs) [
  | inl h ↦ ap (run_each k rs) (h row)
  | inr (f, h) ↦
      ap (run_each k rs) (h row) ∙ h (closed f row) ∙ ap some (closed-twice f row) ∙ sym (h row)
]

run-started :
    (k : String) (rs : List Record) (row : RunRow)
    → run_each k rs (run_each k rs none) ≡ run_each k rs none
    → (b : Bool)
    → (let after = λ (o : Option RunRow). if b then some (found row o) else o in
        run_each k rs (after (run_each k rs (after none))) ≡ run_each k rs (after none))
run-started k rs row h false = h
run-started k rs row h true = elim (amounts k rs) [
  | inl same ↦ ap (λ o. run_each k rs (some (found row o))) (same row)
  | inr (f, same) ↦
      ap (λ o. run_each k rs (some (found row o))) (same row)
      ∙ same (closed f row)
      ∙ ap some (closed-twice f row)
      ∙ sym (same row)
]

run-finished :
    (k : String) (rs : List Record) (f : RunFinish)
    → run_each k rs (run_each k rs none) ≡ run_each k rs none
    → (b : Bool)
    → (let after = λ (o : Option RunRow). if b then some (finish_row f o) else o in
        run_each k rs (after (run_each k rs (after none))) ≡ run_each k rs (after none))
run-finished k rs f h false = h
run-finished k rs f h true = elim (amounts k rs) [
  | inl same ↦
      ap (λ o. run_each k rs (some (finish_row f o))) (same (opened f))
      ∙ ap (λ row. run_each k rs (some row)) (closed-opened f)
  | inr (g, same) ↦
      ap (λ o. run_each k rs (some (finish_row f o))) (same (opened f))
      ∙ same (closed f (closed g (opened f)))
      ∙ ap some (closed-between g f)
      ∙ sym (same (opened f))
]

pub run-again :
    (k : String) (rs : List Record) (o : Option RunRow)
    → run_each k rs (run_each k rs o) ≡ run_each k rs o
run-again k rs (some row) = run-kept k rs row
run-again k [] none = refl
run-again k (run_start s ∷ rs) none =
    run-started k rs (started_row s) (run-again k rs none) (s.run_id == k)
run-again k (run_finish f ∷ rs) none = run-finished k rs f (run-again k rs none) (f.run_id == k)
run-again k (event j row ∷ rs) none = run-again k rs none
run-again k (budget j row ∷ rs) none = run-again k rs none
run-again k (unknown kind ∷ rs) none = run-again k rs none
