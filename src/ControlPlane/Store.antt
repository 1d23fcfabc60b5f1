-- ===== src/ControlPlane/Store.antt =====
-- control_plane/store.py: the projection of the log's records into the tables. A statement that
-- meets a conflict on its key does nothing, or updates the row that is there.
use feather_flow.Common.{
  ℕ, suc, ◌&&◌, Bool, true, false, not, List, [], ◌∷◌, ◌++◌, Option, none, some, String, ◌==◌, Eq,
  string_eq, pair_eq, nat_eq, any, if◌then◌else◌, Result, ok, err, ◌>>=◌, ◌>>◌, raise_if,
}
use feather_flow.Common.Dict.{Dict, lookup, insert, has}
use feather_flow.ControlPlane.{
  RunRow, EventRow, Plane, RunStart, RunFinish, Record, run_start, run_finish, event, budget,
  unknown,
}

pub data ApplyError : Type 0 where
  run_id_clash unknown_kind : String → ApplyError
  not_events : ApplyError

-- `COALESCE(new, old)`
abbrev pub coalesce {ℓ} : {A : Type ℓ} → Option A → Option A → Option A
coalesce (some a) old = some a
coalesce none old = old

abbrev pub started_else : Option ℕ → ℕ → ℕ
started_else (some t) u = t
started_else none u = u

-- INSERT ... ON CONFLICT DO NOTHING
abbrev pub insert_new : {K V : Type 0} ⦃e : Eq K⦄ → K → V → Dict K V → Dict K V
insert_new k v d = if has d k then d else insert k v d

abbrev pub started_row : RunStart → RunRow
started_row s = record {
  extractor = s.extractor;
  mode = s.mode;
  host = s.host;
  pid = s.pid;
  started_at = s.started_at;
  finished_at = none;
  status = s.status;
  stop_reason = none;
  n_ok = none;
  n_err = none;
  n_skipped = none;
  reconciled_by = none;
  wal_path = s.wal_path;
  extra = s.extra;
}

-- The row of a finish that no start has preceded.
abbrev pub opened : RunFinish → RunRow
opened f = record {
  extractor = f.extractor;
  mode = none;
  host = none;
  pid = none;
  started_at = started_else f.started_at f.finished_at;
  finished_at = some f.finished_at;
  status = f.status;
  stop_reason = f.stop_reason;
  n_ok = f.n_ok;
  n_err = f.n_err;
  n_skipped = f.n_skipped;
  reconciled_by = none;
  wal_path = none;
  extra = f.extra;
}

-- DO UPDATE of the row that is there.
abbrev pub closed : RunFinish → RunRow → RunRow
closed f row = record row {
  finished_at = some f.finished_at;
  status = f.status;
  stop_reason = f.stop_reason;
  n_ok = f.n_ok;
  n_err = f.n_err;
  n_skipped = f.n_skipped;
  extra = coalesce f.extra row.extra;
}

abbrev pub finish_row : RunFinish → Option RunRow → RunRow
finish_row f none = opened f
finish_row f (some row) = closed f row

abbrev pub others : String → Option RunRow → Bool
others extractor none = false
others extractor (some row) = not (row.extractor == extractor)

-- `_refuse_other_extractors_run`: a row that is there is refused to another extractor, before
-- anything is written; a statement that wrote no row has met one.
abbrev pub refuse_other : String → String → Plane → Result ApplyError (Unit {0})
refuse_other run_id extractor p =
    raise_if (others extractor (lookup run_id p.runs)) (run_id_clash run_id)

-- The statements of `apply`.
unfoldable pub write : Record → Plane → Plane
write (run_start s) p = record p { runs = insert_new s.run_id (started_row s) p.runs }
write (run_finish f) p = record p {
  runs = insert f.run_id (finish_row f (lookup f.run_id p.runs)) p.runs;
}
write (event k row) p = record p { events = insert_new k row p.events }
write (budget k row) p = record p { budgets = insert k row p.budgets }
write (unknown kind) p = p

unfoldable pub refuse : Record → Plane → Result ApplyError (Unit {0})
refuse (run_start s) p = refuse_other s.run_id s.extractor p
refuse (run_finish f) p = refuse_other f.run_id f.extractor p
refuse (event k row) p = ok tt
refuse (budget k row) p = ok tt
refuse (unknown kind) p = err (unknown_kind kind)

-- `apply`, one record
unfoldable pub apply : Record → Plane → Result ApplyError Plane
apply r p = refuse r p >> ok (write r p)

-- `for rec in records: store.apply(cur, rec)`
unfoldable pub apply_all : List Record → Plane → Result ApplyError Plane
apply_all [] p = ok p
apply_all (r ∷ rs) p = apply r p >>= apply_all rs

abbrev pub is_event : Record → Bool
is_event (event k row) = true
is_event (run_start s) = false
is_event (run_finish f) = false
is_event (budget k row) = false
is_event (unknown kind) = false

-- The parameters of the batch's statement, one for each event.
abbrev pub event_params : List Record → Dict ((String × String) × ℕ) EventRow
event_params [] = []
event_params (event k row ∷ rs) = (k, row) ∷ event_params rs
event_params (run_start s ∷ rs) = event_params rs
event_params (run_finish f ∷ rs) = event_params rs
event_params (budget k row ∷ rs) = event_params rs
event_params (unknown kind ∷ rs) = event_params rs

-- The batch's own INSERT: a conflict does nothing.
unfoldable pub execute_many :
    Dict ((String × String) × ℕ) EventRow
    → Dict ((String × String) × ℕ) EventRow
    → Dict ((String × String) × ℕ) EventRow
execute_many [] events = events
execute_many ((k, row) ∷ params) events =
    execute_many params (if has events k then events else events ++ ((k, row) ∷ []))

-- `apply_events_batch`, whose rows go to the table of events in one statement
unfoldable pub apply_events_batch : List Record → Plane → Result ApplyError Plane
apply_events_batch recs p = do
  raise_if (any (λ r. not (is_event r)) recs) not_events
  ok (record p { events = execute_many (event_params recs) p.events })

-- `reconcile_dead`: the unfinished runs of the extractor, less the run itself. Beside the tables,
-- the number of rows.
abbrev pub unfinished : Option ℕ → Bool
unfinished none = true
unfinished (some t) = false

abbrev pub is_dead : String → String → String → RunRow → Bool
is_dead extractor run_id k row =
    row.extractor == extractor && unfinished row.finished_at && not (k == run_id)

abbrev pub died : String → ℕ → RunRow → RunRow
died run_id now row = record row {
  status = "died";
  stop_reason = some "died";
  finished_at = some now;
  reconciled_by = some run_id;
}

unfoldable pub mark_dead : String → String → ℕ → Dict String RunRow → Dict String RunRow × ℕ
mark_dead extractor run_id now [] = ([], 0)
mark_dead extractor run_id now ((k, row) ∷ d) =
    let (rest, n) = mark_dead extractor run_id now d in
    if is_dead extractor run_id k row
    then ((k, died run_id now row) ∷ rest, suc n)
    else ((k, row) ∷ rest, n)

unfoldable pub reconcile_dead : String → String → ℕ → Plane → Plane × ℕ
reconcile_dead extractor run_id now p =
    let (runs, n) = mark_dead extractor run_id now p.runs in (record p { runs = runs }, n)
