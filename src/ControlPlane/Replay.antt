-- ===== src/ControlPlane/Replay.antt =====
-- control_plane/store.py: a list of records that is applied once more changes no table.
use feather_flow.Common.{
  ◌≡◌, refl, sym, ap, subst, ◌∙◌, List, [], ◌∷◌, Option, none, some, String, ◌==◌, ==_refl,
  string_eq, pair_eq, nat_eq, Bool, true, false, not, All, any, ok, ◌>>=◌, ◌>>◌, raise_if, ℕ,
  >>=-eq-ok, if◌then◌else◌, ◌++◌, arith,
}
use feather_flow.Common.Dict.{Dict, lookup, insert, has}
use feather_flow.ControlPlane.{
  RunRow, EventRow, Plane, RunFinish, Record, run_start, run_finish, event, budget, unknown,
}
use feather_flow.ControlPlane.Store.{
  ApplyError, run_id_clash, not_events, is_event, event_params, execute_many, insert_new,
  apply_events_batch, write, refuse, others, closed, apply, apply_all, finish_row, started_row,
}
use feather_flow.ControlPlane.Keys.{
  run_after, event_after, write-runs, write-events, write-budgets, found,
}
use feather_flow.ControlPlane.Folds.{
  each, run_each, budget_each, run-again, event-again, budget-again,
}

-- The plane after every statement of the records.
abbrev pub write_all : List Record → Plane → Plane
write_all [] p = p
write_all (r ∷ rs) p = write_all rs (write r p)

-- Two planes that hold the same rows, whatever the order in which they came.
pub SameTables : Plane → Plane → Type 0
SameTables p q =
    ((k : String) → lookup k p.runs ≡ lookup k q.runs)
    × ((k : (String × String) × ℕ) → lookup k p.events ≡ lookup k q.events)
    × ((k : (String × String) × String) → lookup k p.budgets ≡ lookup k q.budgets)

pub SameTables-refl : (p : Plane) → SameTables p p
unfolding SameTables
SameTables-refl p = (λ k. refl, λ k. refl, λ k. refl)

write_all-runs :
    (k : String) (rs : List Record) (p : Plane)
    → lookup k (write_all rs p).runs ≡ run_each k rs (lookup k p.runs)
write_all-runs k [] p = refl
write_all-runs k (r ∷ rs) p =
    write_all-runs k rs (write r p) ∙ ap (run_each k rs) (write-runs k r p)

write_all-events :
    (k : (String × String) × ℕ) (rs : List Record) (p : Plane)
    → lookup k (write_all rs p).events ≡ each (event_after k) rs (lookup k p.events)
write_all-events k [] p = refl
write_all-events k (r ∷ rs) p =
    write_all-events k rs (write r p) ∙ ap (each (event_after k) rs) (write-events k r p)

write_all-budgets :
    (k : (String × String) × String) (rs : List Record) (p : Plane)
    → lookup k (write_all rs p).budgets ≡ budget_each k rs (lookup k p.budgets)
write_all-budgets k [] p = refl
write_all-budgets k (r ∷ rs) p =
    write_all-budgets k rs (write r p) ∙ ap (budget_each k rs) (write-budgets k r p)

write_all-again :
    (rs : List Record) (p : Plane) → SameTables (write_all rs (write_all rs p)) (write_all rs p)
unfolding SameTables
write_all-again rs p = (
  λ k.
      write_all-runs k rs (write_all rs p)
      ∙ ap (run_each k rs) (write_all-runs k rs p)
      ∙ run-again k rs (lookup k p.runs)
      ∙ sym (write_all-runs k rs p),
  λ k.
      write_all-events k rs (write_all rs p)
      ∙ ap (each (event_after k) rs) (write_all-events k rs p)
      ∙ event-again k rs (lookup k p.events)
      ∙ sym (write_all-events k rs p),
  λ k.
      write_all-budgets k rs (write_all rs p)
      ∙ ap (budget_each k rs) (write_all-budgets k rs p)
      ∙ budget-again k rs (lookup k p.budgets)
      ∙ sym (write_all-budgets k rs p),
)

-- The run that a record is about belongs to the record's extractor.
abbrev owned : String → Option RunRow → Bool
owned extractor none = false
owned extractor (some row) = row.extractor == extractor

unfoldable owns_run : Plane → Record → Bool
owns_run p (run_start s) = owned s.extractor (lookup s.run_id p.runs)
owns_run p (run_finish f) = owned f.extractor (lookup f.run_id p.runs)
owns_run p (event k row) = true
owns_run p (budget k row) = true
owns_run p (unknown kind) = false

passed-test : (b : Bool) (e : ApplyError) → raise_if (not b) e ≡ ok tt → b ≡ true
passed-test true e h = refl
passed-test false e h = cc

module _ (extractor : String) where
  owned-if :
      (row new : RunRow) (b : Bool)
      → (row.extractor == extractor) ≡ true
      → (new.extractor ≡ row.extractor)
      → owned extractor (if b then some new else some row) ≡ true
  owned-if row new true h e = ap (λ x. x == extractor) e ∙ h
  owned-if row new false h e = h

  -- No statement changes whose run it is.
  owned-kept :
      (k : String) (r : Record) (o : Option RunRow)
      → owned extractor o ≡ true
      → owned extractor (run_after k r o) ≡ true
  owned-kept k r none h = cc
  owned-kept k (run_start s) (some row) h = owned-if row row (s.run_id == k) h refl
  owned-kept k (run_finish f) (some row) h = owned-if row (closed f row) (f.run_id == k) h refl
  owned-kept k (event j e) (some row) h = h
  owned-kept k (budget j e) (some row) h = h
  owned-kept k (unknown kind) (some row) h = h

  owned-passes :
      (o : Option RunRow) (e : ApplyError)
      → owned extractor o ≡ true
      → raise_if (others extractor o) e ≡ ok tt
  owned-passes none e h = cc
  owned-passes (some row) e h = ap (λ b. raise_if (not b) e) h

  passed-owned :
      (o : Option RunRow) (new : RunRow) (e : ApplyError)
      → new.extractor ≡ extractor
      → raise_if (others extractor o) e ≡ ok tt
      → owned extractor (some (found new o)) ≡ true
  passed-owned none new e h passed = ap (λ x. x == extractor) h ∙ ==_refl extractor
  passed-owned (some row) new e h passed = passed-test (row.extractor == extractor) e passed

owns-write :
    (p : Plane) (r other : Record) → owns_run p r ≡ true → owns_run (write other p) r ≡ true
unfolding owns_run
owns-write p (run_start s) other h =
    ap (owned s.extractor) (write-runs s.run_id other p)
    ∙ owned-kept s.extractor s.run_id other (lookup s.run_id p.runs) h
owns-write p (run_finish f) other h =
    ap (owned f.extractor) (write-runs f.run_id other p)
    ∙ owned-kept f.extractor f.run_id other (lookup f.run_id p.runs) h
owns-write p (event k row) other h = h
owns-write p (budget k row) other h = h
owns-write p (unknown kind) other h = h

owns-passes : (p : Plane) (r : Record) → owns_run p r ≡ true → apply r p ≡ ok (write r p)
unfolding owns_run apply refuse
owns-passes p (run_start s) h =
    ap (λ x. x >> ok (write (run_start s) p))
      (owned-passes s.extractor (lookup s.run_id p.runs) (run_id_clash s.run_id) h)
owns-passes p (run_finish f) h =
    ap (λ x. x >> ok (write (run_finish f) p))
      (owned-passes f.extractor (lookup f.run_id p.runs) (run_id_clash f.run_id) h)
owns-passes p (event k row) h = refl
owns-passes p (budget k row) h = refl
owns-passes p (unknown kind) h = cc

passed-finished :
    (f : RunFinish) (o : Option RunRow) (e : ApplyError)
    → raise_if (others f.extractor o) e ≡ ok tt
    → owned f.extractor (some (finish_row f o)) ≡ true
passed-finished f none e h = ==_refl f.extractor
passed-finished f (some row) e h = passed-test (row.extractor == f.extractor) e h

passed-owns : (p : Plane) (r : Record) → refuse r p ≡ ok tt → owns_run (write r p) r ≡ true
unfolding owns_run refuse
passed-owns p (run_start s) h =
    ap (owned s.extractor) (
      write-runs s.run_id (run_start s) p
      ∙ ap
          (λ b.
            if b
            then some (found (started_row s) (lookup s.run_id p.runs))
            else lookup s.run_id p.runs)
          (==_refl s.run_id))
    ∙ passed-owned s.extractor (lookup s.run_id p.runs) (started_row s) (run_id_clash s.run_id) refl
        h
passed-owns p (run_finish f) h =
    ap (owned f.extractor) (
      write-runs f.run_id (run_finish f) p
      ∙ ap (λ b. if b then some (finish_row f (lookup f.run_id p.runs)) else lookup f.run_id p.runs)
          (==_refl f.run_id))
    ∙ passed-finished f (lookup f.run_id p.runs) (run_id_clash f.run_id) h
passed-owns p (event k row) h = refl
passed-owns p (budget k row) h = refl
passed-owns p (unknown kind) h = cc

OwnsAll : Plane → List Record → Type 0
OwnsAll p = All (λ r. owns_run p r ≡ true)

OwnsAll-write :
    (p : Plane) (rs : List Record) (other : Record) → OwnsAll p rs → OwnsAll (write other p) rs
unfolding OwnsAll
OwnsAll-write p [] other h = tt
OwnsAll-write p (r ∷ rs) other (h, hs) = (owns-write p r other h, OwnsAll-write p rs other hs)

owns-write_all :
    (p : Plane) (r : Record) (rs : List Record)
    → owns_run p r ≡ true
    → owns_run (write_all rs p) r ≡ true
owns-write_all p r [] h = h
owns-write_all p r (other ∷ rs) h = owns-write_all (write other p) r rs (owns-write p r other h)

-- A plane that owns_run the runs of all the records takes them.
OwnsAll-passes :
    (rs : List Record) (p : Plane) → OwnsAll p rs → apply_all rs p ≡ ok (write_all rs p)
unfolding OwnsAll apply_all
OwnsAll-passes [] p h = refl
OwnsAll-passes (r ∷ rs) p (h, hs) =
    ap (λ x. x >>= apply_all rs) (owns-passes p r h)
    ∙ OwnsAll-passes rs (write r p) (OwnsAll-write p rs r hs)

apply-ok : (r : Record) (p q : Plane) → apply r p ≡ ok q → (refuse r p ≡ ok tt) × (write r p ≡ q)
unfolding apply
apply-ok r p q h =
    let (u, passed, same) = >>=-eq-ok (refuse r p) (λ x. ok (write r p)) h in (passed, cc)

-- What was applied is written, and owned afterwards.
applied :
    (rs : List Record) (p q : Plane) → apply_all rs p ≡ ok q → (q ≡ write_all rs p) × OwnsAll q rs
unfolding apply_all OwnsAll
applied [] p q h = (cc, tt)
applied (r ∷ rs) p q h =
    let (next, first, rest) = >>=-eq-ok (apply r p) (apply_all rs) h in
    let (passed, same) = apply-ok r p next first in
    let (done, owning) = applied rs next q rest in
    (
      done ∙ ap (write_all rs) (sym same),
      (
        subst (λ x. owns_run x r ≡ true) (ap (write_all rs) same ∙ sym done)
            (owns-write_all (write r p) r rs (passed-owns p r passed)),
        owning,
      ),
    )

-- A tail of the log that was applied to a plane is applied once more without an error, and no
-- table holds another row afterwards.
pub reshipped :
    (rs : List Record) (p q : Plane)
    → apply_all rs p ≡ ok q
    → (again : Plane) × (apply_all rs q ≡ ok again) × SameTables again q
reshipped rs p q h =
    let (done, owning) = applied rs p q h in
    (
      write_all rs q,
      OwnsAll-passes rs q owning,
      subst (λ x. SameTables (write_all rs x) x) (sym done) (write_all-again rs p),
    )

-- A key that is not there is written behind the others.
insert_absent :
    {V : Type 0} (k : (String × String) × ℕ) (v : V) (d : Dict ((String × String) × ℕ) V)
    → has d k ≡ false
    → insert k v d ≡ d ++ ((k, v) ∷ [])
unfolding lookup insert
insert_absent k v [] h = refl
insert_absent k v ((j, w) ∷ d) h = ground (arith, insert_absent k v d, h)

same_insert :
    (k : (String × String) × ℕ) (row : EventRow) (d : Dict ((String × String) × ℕ) EventRow)
    → (if has d k then d else d ++ ((k, row) ∷ [])) ≡ insert_new k row d
same_insert k row d = ground (arith, insert_absent k row d)

events-batch :
    (recs : List Record) (p : Plane)
    → any (λ r. not (is_event r)) recs ≡ false
    → ok (record p { events = execute_many (event_params recs) p.events }) ≡ apply_all recs p
unfolding apply_all apply refuse execute_many write
events-batch [] p h = refl
events-batch (event k row ∷ recs) p h =
    ap (λ d. ok (record p { events = execute_many (event_params recs) d }))
      (same_insert k row p.events)
    ∙ events-batch recs (write (event k row) p) h
events-batch (run_start s ∷ recs) p h = cc
events-batch (run_finish f ∷ recs) p h = cc
events-batch (budget k row ∷ recs) p h = cc
events-batch (unknown kind ∷ recs) p h = cc

-- A list of records that are all events is projected by the statement of the batch, which goes out
-- once for the list, as it is by applying the records one by one.
pub apply_events_batch-apply_all :
    (recs : List Record) (p : Plane)
    → any (λ r. not (is_event r)) recs ≡ false
    → apply_events_batch recs p ≡ apply_all recs p
unfolding apply_events_batch
apply_events_batch-apply_all recs p h =
    ap
      (λ b.
        raise_if b not_events
        >> ok (record p { events = execute_many (event_params recs) p.events }))
      h
    ∙ events-batch recs p h
