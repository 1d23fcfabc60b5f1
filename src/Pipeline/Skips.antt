-- ===== src/Pipeline/Skips.antt =====
-- `run_table`: a table in backoff, and an extraction that fails.
use feather_flow.Common.{
  ◌≡◌, refl, ap, sym, ◌∙◌, Bool, true, false, Option, none, some, or_default, [], ◌∷◌,
  if◌then◌else◌, String, string_eq, Result, ok, err, arith, inl, inr,
}
use feather_flow.Common.Action.{and_then, pure}
use feather_flow.Destination.{World, table_of}
use feather_flow.SchemaDrift.{Schema, detect_drift, has_drift}
use feather_flow.State.{Db, Run}
use feather_flow.State.Meta.{init_state}
use feather_flow.State.Retry.{should_skip_retry}
use feather_flow.State.Runs.{bad_trigger}
use feather_flow.State.Snapshots.{save_schema_snapshot, get_schema_snapshot}
use feather_flow.Pipeline.Table.{
  Altered, altered_rows, no_catalog_entry, other_exception, RunSource, RunConfig, RunResult,
  Libraries,
}
use feather_flow.Pipeline.Run.{
  blank_run, result_of, note_row, backoff_text, skip_backoff, check_drift, compare_schema, goes_on,
  altered_world, add_columns, saved_if, alter_table, effective_target,
}
use feather_flow.Pipeline.All.{run_table}
use feather_flow.Pipeline.Outcomes.{note-cases}

module _ {Row : Type 0} (libs : Libraries Row) where
  kept-note :
      (row : Run) (w : World Row)
      → bad_trigger row.trigger ≡ false
      → ((note_row libs row w).1.bronze ≡ w.bronze)
        × ((note_row libs row w).1.db.watermarks ≡ w.db.watermarks)
  kept-note row w trigger = elim (note-cases libs row w trigger) [
    | inl (e, h) ↦ (ap (λ p. p.1.bronze) h, ap (λ p. p.1.db.watermarks) h)
    | inr h ↦ (ap (λ p. p.1.bronze) h, ap (λ p. p.1.db.watermarks) h)
  ]

  skipped_run :
      (t : RunConfig) (source : RunSource Row) (w : World Row) (ready : Db)
      (message : Option String)
      → init_state w.db ≡ ok ready
      → should_skip_retry t.now ready t.name ≡ (true, message)
      → run_table libs t source w ≡ skip_backoff libs t message (record w { db = ready })
  unfolding run_table
  skipped_run t source w ready message h skip = grind (arith, h, skip)

  ends_there :
      (p : Result String (Unit {0}) × World Row) (r : RunResult)
      → (and_then p.0 (λ u. pure r) p.1).1 ≡ p.1
  ends_there (ok u, w) r = refl
  ends_there (err e, w) r = refl

  kept-skip :
      (t : RunConfig) (message : Option String) (w : World Row)
      → ((skip_backoff libs t message w).1.bronze ≡ w.bronze)
        × ((skip_backoff libs t message w).1.db.watermarks ≡ w.db.watermarks)
  unfolding skip_backoff
  kept-skip t message w =
      let text = some (backoff_text libs message) in
      let row = record (blank_run libs t "skipped" t.now) { error_message = text } in
      let same = ends_there (note_row libs row w) (result_of libs t "skipped" 0 text) in
      let (b, m) = kept-note row w refl in
      (ap (λ x. x.bronze) same ∙ b, ap (λ x. x.db.watermarks) same ∙ m)

  -- A table in backoff is skipped: the run is the same for any two sources, so that none is asked,
  -- and neither the destination nor a watermark changes. The state database has a version that the
  -- program accepts.
  pub backoff_skips :
      (t : RunConfig) (source other : RunSource Row) (w : World Row) (ready : Db)
      (message : Option String)
      → init_state w.db ≡ ok ready
      → should_skip_retry t.now ready t.name ≡ (true, message)
      → (run_table libs t source w ≡ run_table libs t other w)
        × ((run_table libs t source w).1.bronze ≡ w.bronze)
        × ((run_table libs t source w).1.db.watermarks ≡ ready.watermarks)
  backoff_skips t source other w ready message h skip =
      let a = skipped_run t source w ready message h skip in
      let (b, m) = kept-skip t message (record w { db = ready }) in
      (
        a ∙ sym (skipped_run t other w ready message h skip),
        ap (λ p. p.1.bronze) a ∙ b,
        ap (λ p. p.1.db.watermarks) a ∙ m,
      )

  altered-either :
      (b : Bool) (x y : Bool × World Row) (db : Db)
      → x.1.db ≡ db
      → y.1.db ≡ db
      → (if b then x else y).1.db ≡ db
  altered-either true x y db h k = h
  altered-either false x y db h k = k

  altered_world-db :
      (target : String) (r : Altered Row) (w : World Row)
      → (altered_world libs target r w).db ≡ w.db
  altered_world-db target (altered_rows ls) w = refl
  altered_world-db target no_catalog_entry w = refl
  altered_world-db target other_exception w = refl

  alter_table-db :
      (target : String) (columns : Schema) (w : World Row)
      → (alter_table libs target columns w).1.db ≡ w.db
  unfolding alter_table
  alter_table-db target [] w = refl
  alter_table-db target (c ∷ cs) w =
      let r = libs.add_column c (table_of target w) in
      let next = altered_world libs target r w in
      altered-either (goes_on libs r) (alter_table libs target cs next) (false, w) w.db
        (alter_table-db target cs next ∙ altered_world-db target r w) refl

  add_columns-db :
      (target : String) (columns : Schema) (w : World Row)
      → (add_columns libs target columns w).1.db ≡ w.db
  add_columns-db target [] w = refl
  add_columns-db target (c ∷ cs) w =
      alter_table-db target (c ∷ cs) (record w { bronze = some (or_default w.bronze []) })

  abbrev pub KeepsDb : Db → World Row → Type 0
  KeepsDb db w = (w.db.watermarks ≡ db.watermarks) × (w.db.runs ≡ db.runs)

  kept-if :
      (b : Bool) (x : Option String × World Row) (w : World Row)
      → KeepsDb w.db x.1
      → KeepsDb w.db (if b then x else (none, w)).1
  kept-if true x w h = h
  kept-if false x w h = (refl, refl)

  saved-KeepsDb :
      (t : RunConfig) (current : Schema) (p : Bool × World Row) (db : Db)
      → p.1.db ≡ db
      → KeepsDb db (saved_if libs t current p)
  unfolding save_schema_snapshot
  saved-KeepsDb t current (true, w) db h = (ap (λ d. d.watermarks) h, ap (λ d. d.runs) h)
  saved-KeepsDb t current (false, w) db h = (ap (λ d. d.watermarks) h, ap (λ d. d.runs) h)

  compared :
      (t : RunConfig) (current : Schema) (stored : Option Schema) (w : World Row)
      → KeepsDb w.db (compare_schema libs t current stored w).1
  unfolding save_schema_snapshot
  compared t current none w = (refl, refl)
  compared t current (some stored) w =
      let drift = detect_drift current stored in
      let p = add_columns libs (effective_target libs t) drift.added w in
      kept-if (has_drift drift) (some (libs.drift_json drift), saved_if libs t current p) w
        (saved-KeepsDb t current p w.db (add_columns-db (effective_target libs t) drift.added w))

  pub drift_keeps :
      (t : RunConfig) (schema : Result String Schema) (w : World Row)
      → KeepsDb w.db (check_drift libs t schema w).1
  unfolding check_drift
  drift_keeps t (err e) w = (refl, refl)
  drift_keeps t (ok current) w = compared t current (get_schema_snapshot w.db t.name) w
