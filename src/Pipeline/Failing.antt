-- ===== src/Pipeline/Failing.antt =====
-- `run_table`: an extraction that fails.
use feather_flow.Common.{
  ◌≡◌, ℕ, ◌+◌, ◌*◌, min, or_default, List, [], ◌∷◌, refl, ap, ◌∙◌, Bool, true, false, Option, none,
  some, if◌then◌else◌, contains, String, ◌==◌, string_eq, ==_refl, Result, ok, err, arith, inl, inr,
  Result-cases,
}
use feather_flow.Common.Dict.{lookup, lookup-insert}
use feather_flow.Common.Action.{and_then, ◌>>◌, pure, modify, handle, try_except}
use feather_flow.Destination.{Loaded, World, table_of}
use feather_flow.SchemaDrift.{Schema, detect_drift, has_drift}
use feather_flow.State.{Watermark}
use feather_flow.State.Snapshots.{get_schema_snapshot}
use feather_flow.State.Retry.{increment_retry, failed_row, backoff}
use feather_flow.State.Runs.{run_ids}
use feather_flow.State.Watermarks.{read_watermark}
use feather_flow.Pipeline.Table.{
  Altered, altered_rows, no_catalog_entry, other_exception, Metadata, Change, Request, RunSource,
  RunConfig, RunResult, Libraries, run_id_of, is_incremental, metadata_of, last_value_of,
  nonempty_text,
}
use feather_flow.Pipeline.Run.{
  blank_run, result_of, on_db, skip_unchanged, check_drift, alter_table, altered_world, goes_on,
  add_columns, saved_if, compare_schema, effective_target, extract_rows, request_of, later_request,
}
use feather_flow.Pipeline.All.{
  load_whole, load_appended, load_later, load_incrementally, load_changed, failed_run,
}
use feather_flow.Pipeline.Outcomes.{marks}
use feather_flow.Pipeline.Outcomes.{note-new}
use feather_flow.Pipeline.All.{run_detected}
use feather_flow.Pipeline.Skips.{drift_keeps}

-- A watermark without its count and its backoff.
abbrev pub untried : Watermark → Watermark
untried w = record w { retry_count = none; retry_after = none }

-- The watermark of a table that has none.
abbrev pub no_row : Watermark
no_row = record {
  strategy = none;
  last_value = none;
  last_checksum = none;
  last_row_count = none;
  last_file_mtime = none;
  last_file_hash = none;
  last_run_at = none;
  retry_count = none;
  retry_after = none;
  boundary_hashes = none;
  source_db = none;
}

abbrev pub failed_before : Option Watermark → ℕ
failed_before none = 0
failed_before (some w) = or_default w.retry_count 0

module _ {Row : Type 0} (libs : Libraries Row) where
  module _ (t : RunConfig) (source : RunSource Row)
      (down : (q : Request) → (e : String) × (source.extract q ≡ err e)) where
    abbrev EndsInError : Result String RunResult × World Row → World Row → Type 0
    EndsInError p w = (e : String) × (p ≡ (err e, w))

    no_rows : (q : Request) → (e : String) × (extract_rows libs t source q ≡ err e)
    unfolding extract_rows
    no_rows q = let (e, h) = down q in (e, grind (arith, h))

    whole_raises :
        (m : Metadata) (changes old : Option String) (w : World Row)
        → EndsInError (load_whole libs t source m changes old w) w
    unfolding load_whole
    whole_raises m changes old w =
        let (e, h) =
          no_rows
            (request_of libs t (if is_incremental t then nonempty_text t.filter else none) none) in
        (e, grind (arith, h))

    appended_raises :
        (m : Metadata) (changes old : Option String) (w : World Row)
        → EndsInError (load_appended libs t source m changes old w) w
    unfolding load_appended
    appended_raises m changes old w =
        let (e, h) = no_rows (request_of libs t t.filter none) in (e, grind (arith, h))

    later_raises :
        (m : Metadata) (changes : Option String) (old : String) (w : World Row)
        → EndsInError (load_later libs t source m changes old w) w
    unfolding load_later
    later_raises m changes old w = elim (Result-cases (later_request libs t old)) [
      | inl (q, h) ↦ let (e, k) = no_rows q in (e, grind (arith, h, k))
      | inr (e, h) ↦ (e, grind (arith, h))
    ]

    incrementally_raises :
        (m : Metadata) (changes old : Option String) (w : World Row)
        → EndsInError (load_incrementally libs t source m changes old w) w
    incrementally_raises m changes none w = whole_raises m changes none w
    incrementally_raises m changes (some old) w = later_raises m changes old w

    branch_raises :
        (b c : Bool) (x y z : Result String RunResult × World Row) (w : World Row)
        → EndsInError x w
        → EndsInError y w
        → EndsInError z w
        → EndsInError (if b then x else if c then y else z) w
    branch_raises true c x y z w h k l = h
    branch_raises false true x y z w h k l = k
    branch_raises false false x y z w h k l = l

    load_raises :
        (m : Metadata) (old : Option String) (w : World Row)
        → EndsInError
            (load_changed libs t source m old w)
            (check_drift libs t (source.get_schema t.source_table) w).1
    unfolding load_changed
    load_raises m old w =
        let (changes, w') = check_drift libs t (source.get_schema t.source_table) w in
        branch_raises (is_incremental t) (t.strategy == "append")
          (load_incrementally libs t source m changes old w')
          (load_appended libs t source m changes old w') (load_whole libs t source m changes old w')
          w' (incrementally_raises m changes old w') (appended_raises m changes old w')
          (whole_raises m changes old w')

    abbrev recorded :
        String → Result String (Unit {0}) × World Row → Result String RunResult × World Row
    recorded e (r, w) =
        and_then r
          (λ u.
            modify (on_db libs (increment_retry t.ended_at t.name))
            >> pure (result_of libs t "failure" 0 (some e)))
          w

    failure_recorded :
        (e : String) (w : World Row)
        → contains (run_ids w.db.runs) (run_id_of libs t) ≡ false
        → ((failed_run libs t e w).0 ≡ ok (result_of libs t "failure" 0 (some e)))
          × (lookup t.name (failed_run libs t e w).1.db.watermarks
              ≡ some (failed_row t.ended_at (lookup t.name w.db.watermarks)))
          × ((failed_run libs t e w).1.bronze ≡ w.bronze)
    unfolding failed_run increment_retry
    failure_recorded e w new =
        let row = record (blank_run libs t "failure" t.started_at) { error_message = some e } in
        let h = ap (recorded e) (note-new libs row w refl refl new) in
        (
          ap (λ p. p.0) h,
          ap (λ p. lookup t.name p.1.db.watermarks) h ∙ simp (lookup-insert, ==_refl),
          ap (λ p. p.1.bronze) h,
        )

    handled :
        (p : Result String RunResult × World Row) (e : String) (w w' : World Row)
        → p ≡ (err e, w')
        → handle p.0 (failed_run libs t) p.1 ≡ failed_run libs t e w'
    handled p e w w' h = ap (λ q. handle q.0 (failed_run libs t) q.1) h

    other_altered :
        (target other : String) (columns : Schema) (w : World Row)
        → (target == other) ≡ false
        → table_of other (alter_table libs target columns w).1 ≡ table_of other w
    unfolding alter_table
    other_altered target other [] w h = refl
    other_altered target other (c ∷ cs) w h =
        let r = libs.add_column c (table_of target w) in
        let next = altered_world libs target r w in
        either-table other (goes_on libs r) (alter_table libs target cs next) (false, w)
          (table_of other w) (other_altered target other cs next h ∙ other_world target other r w h)
          refl
      where
        either-table :
            (other : String) (b : Bool) (x y : Bool × World Row) (o : Option (List (Loaded Row)))
            → table_of other x.1 ≡ o
            → table_of other y.1 ≡ o
            → table_of other (if b then x else y).1 ≡ o
        either-table other true x y o h k = h
        either-table other false x y o h k = k

        other_world :
            (target other : String) (r : Altered Row) (w : World Row)
            → (target == other) ≡ false
            → table_of other (altered_world libs target r w) ≡ table_of other w
        other_world target other (altered_rows ls) w h =
            lookup-insert target other ls (or_default w.bronze [])
            ∙ ap (λ b. if b then some ls else table_of other w) h
        other_world target other no_catalog_entry w h = refl
        other_world target other other_exception w h = refl

    other_added :
        (target other : String) (columns : Schema) (w : World Row)
        → (target == other) ≡ false
        → table_of other (add_columns libs target columns w).1 ≡ table_of other w
    other_added target other [] w h = refl
    other_added target other (c ∷ cs) w h =
        other_altered target other (c ∷ cs) (record w { bronze = some (or_default w.bronze []) }) h

    other_saved :
        (current : Schema) (other : String) (p : Bool × World Row)
        → table_of other (saved_if libs t current p) ≡ table_of other p.1
    other_saved current other (true, w) = refl
    other_saved current other (false, w) = refl

    other_compared :
        (current : Schema) (stored : Option Schema) (other : String) (w : World Row)
        → (effective_target libs t == other) ≡ false
        → table_of other (compare_schema libs t current stored w).1 ≡ table_of other w
    other_compared current none other w h = refl
    other_compared current (some stored) other w h =
        let drift = detect_drift current stored in
        let target = effective_target libs t in
        drifted (has_drift drift) other
          (
            some (libs.drift_json drift),
            saved_if libs t current (add_columns libs target drift.added w),
          )
          w
          (other_saved current other (add_columns libs target drift.added w)
            ∙ other_added target other drift.added w h)
      where
        drifted :
            (b : Bool) (other : String) (x : Option String × World Row) (w : World Row)
            → table_of other x.1 ≡ table_of other w
            → table_of other (if b then x else (none, w)).1 ≡ table_of other w
        drifted true other x w h = h
        drifted false other x w h = refl

    other_checked :
        (schema : Result String Schema) (other : String) (w : World Row)
        → (effective_target libs t == other) ≡ false
        → table_of other (check_drift libs t schema w).1 ≡ table_of other w
    unfolding check_drift
    other_checked (err e) other w h = refl
    other_checked (ok current) other w h =
        other_compared current (get_schema_snapshot w.db t.name) other w h

    one_more :
        (now : ℕ) (wm : Option Watermark)
        → (untried (failed_row now wm) ≡ untried (or_default wm no_row))
          × ((failed_row now wm).retry_count ≡ some (failed_before wm + 1))
          × ((failed_row now wm).retry_after
              ≡ some (now + min ((failed_before wm + 1) * 15) 120 * 60000000))
    unfolding failed_row backoff
    one_more now none = (refl, refl, refl)
    one_more now (some w) = (refl, refl, refl)

    -- A table whose source has changed and then raises for every request of its rows fails: the
    -- failure is reported, the retry count of its watermark is one more than it was (0 where there
    -- was none), the table is not retried for 15 minutes times this count, 120 at most, and the
    -- rest of the watermark stays as it was; no other table of the destination changes. The run's
    -- id is new.
    pub extraction_fails :
        (change : Change) (w : World Row) (other : String)
        → change.changed ≡ true
        → contains (run_ids w.db.runs) (run_id_of libs t) ≡ false
        → (effective_target libs t == other) ≡ false
        → let wm = read_watermark w.db t.name in
          let p = run_detected libs t source wm change w in
          (e : String) × (row : Watermark) × (p.0 ≡ ok (result_of libs t "failure" 0 (some e)))
          × (read_watermark p.1.db t.name ≡ some row)
          × (row.retry_count ≡ some (failed_before wm + 1))
          × (row.retry_after ≡ some (t.ended_at + min ((failed_before wm + 1) * 15) 120 * 60000000))
          × (untried row ≡ untried (or_default wm no_row))
          × (table_of other p.1 ≡ table_of other w)
    unfolding read_watermark
    extraction_fails change w other changed new apart =
        let wm = lookup t.name w.db.watermarks in
        let old = last_value_of wm in
        let m = metadata_of change.metadata in
        let schema = source.get_schema t.source_table in
        let w' = (check_drift libs t schema w).1 in
        let (marks, runs) = drift_keeps libs t schema w in
        let (e, raised) = load_raises m old w in
        let (a, b, c) =
          failure_recorded e w' (ap (λ rs. contains (run_ids rs) (run_id_of libs t)) runs ∙ new) in
        let (rest, count, after) = one_more t.ended_at wm in
        let run =
          ap
            (λ x.
              (if x
                  then try_except (load_changed libs t source m old) (failed_run libs t)
                  else skip_unchanged libs t change)
                w)
            changed
          ∙ handled (load_changed libs t source m old w) e w w' raised in
        (
          e,
          failed_row t.ended_at wm,
          ap (λ p. p.0) run ∙ a,
          ap (λ p. lookup t.name p.1.db.watermarks) run
              ∙ b
              ∙ ap (λ d. some (failed_row t.ended_at (lookup t.name d))) marks,
          count,
          after,
          rest,
          ap (λ p. table_of other p.1) run
              ∙ ap (λ b. lookup other (or_default b [])) c
              ∙ other_checked schema other w apart,
        )
