-- ===== src/Pipeline/Outcomes.antt =====
-- `run_table`: what a run leaves in the state database.
use feather_flow.Common.{
  ℕ, ◌≤◌, max, leb, ◌&&◌, ◌||◌, ◌==◌, Bool, true, nat_eq, map, if◌then◌else◌, ◌≡◌, refl, ap, sym,
  ◌∙◌, false, Option, none, some, List, [], ◌∷◌, ◌++◌, contains, String, string_eq, ==_refl, Result,
  ok, err, arith, inl, inr, ◌⊎◌, Bool-cases, or_default,
}
use feather_flow.Common.Dict.{Dict, lookup, lookup-insert, lookup-adjust}
use feather_flow.Common.Action.{and_then, pure, modify, ◌>>◌}
use feather_flow.State.{Watermark, Db, Run, DqRow}
use feather_flow.State.Runs.{
  run_ids, record_run, bad_trigger, too_many_rows, duplicate_run, out_of_range,
}
use feather_flow.State.Retry.{reset_retry, cleared_row}
use feather_flow.State.Snapshots.{record_dq_result}
use feather_flow.State.Watermarks.{
  read_watermark, write_watermark, written, read_boundary_hashes, write_boundary_hashes,
}
use feather_flow.Destination.{World}
use feather_flow.Pipeline.Table.{
  Metadata, RunConfig, RunResult, Libraries, nonempty_text, is_incremental,
}
use feather_flow.Pipeline.Run.{
  blank_run, result_of, on_db, note_row, mark, check_quality, save_results, new_value, stamp_text,
  greatest, max_of, effective_target,
}
use feather_flow.Pipeline.All.{store_hashes, hashes_at, finish_run}

-- No timestamp exceeds `g`; a NULL does not count.
abbrev pub no_later : ℕ → List (Option ℕ) → Bool
no_later g [] = true
no_later g (none ∷ ts) = no_later g ts
no_later g (some t ∷ ts) = leb t g && no_later g ts

abbrev pub occurs : ℕ → List (Option ℕ) → Bool
occurs g [] = false
occurs g (none ∷ ts) = occurs g ts
occurs g (some t ∷ ts) = t == g || occurs g ts

-- `some g` is one of the timestamps and exceeded by none; `none` is for no timestamps.
abbrev pub is_greatest : Option ℕ → List (Option ℕ) → Bool
is_greatest none [] = true
is_greatest none (none ∷ ts) = is_greatest none ts
is_greatest none (some t ∷ ts) = false
is_greatest (some g) ts = occurs g ts && no_later g ts

later_too : (a b : ℕ) (ts : List (Option ℕ)) → a ≤ b → no_later a ts ≡ true → no_later b ts ≡ true
later_too a b [] h k = refl
later_too a b (none ∷ ts) h k = later_too a b ts h k
later_too a b (some t ∷ ts) h k = ground (arith, later_too a b ts h)

nothing_later : (g : ℕ) (ts : List (Option ℕ)) → is_greatest none ts ≡ true → no_later g ts ≡ true
nothing_later g [] h = refl
nothing_later g (none ∷ ts) h = nothing_later g ts h
nothing_later g (some t ∷ ts) h = cc

max_cases : (t g : ℕ) → ((max t g ≡ g) × (t ≤ g)) ⊎ ((max t g ≡ t) × (g ≤ t))
max_cases t g = ground arith

greatest-next :
    (t : Option ℕ) (g : Option ℕ) (ts : List (Option ℕ))
    → is_greatest g ts ≡ true
    → is_greatest (greatest t g) (t ∷ ts) ≡ true
greatest-next none none ts h = h
greatest-next none (some g) ts h = h
greatest-next (some t) none ts h = ground (arith, nothing_later t ts h)
greatest-next (some t) (some g) ts h = elim (max_cases t g) [
  | inl (e, k) ↦ ground (arith, later_too t g ts, h, e, k, ap (λ m. occurs m ts) e)
  | inr (e, k) ↦ ground (arith, later_too g t ts, h, e, k, ap (λ m. no_later m ts) e)
]

max_of-greatest : (ts : List (Option ℕ)) → is_greatest (max_of ts) ts ≡ true
unfolding max_of
max_of-greatest [] = refl
max_of-greatest (t ∷ ts) = greatest-next t (max_of ts) ts (max_of-greatest ts)

module _ {Row : Type 0} (libs : Libraries Row) where
  abbrev pub marks : World Row → Dict String Watermark
  marks w = w.db.watermarks

  abbrev pub with_run : Run → World Row → World Row
  with_run row w = on_db libs (λ d. record d { runs = d.runs ++ (row ∷ []) }) w

  -- A run is recorded, unless its id is there or a count of rows is out of range.
  pub note-cases :
      (row : Run) (w : World Row)
      → bad_trigger row.trigger ≡ false
      → ((e : String) × (note_row libs row w ≡ (err e, w)))
        ⊎ (note_row libs row w ≡ (ok tt, with_run row w))
  unfolding note_row record_run
  note-cases row w trigger = elim (Bool-cases (too_many_rows row)) [
    | inl many ↦ inl (libs.run_error out_of_range, grind (arith, many, trigger))
    | inr few ↦ elim (Bool-cases (contains (run_ids w.db.runs) row.run_id)) [
      | inl h ↦ inl (libs.run_error duplicate_run, grind (arith, h, few, trigger))
      | inr h ↦ inr (grind (arith, h, few, trigger))
    ]
  ]

  pub note-new :
      (row : Run) (w : World Row)
      → bad_trigger row.trigger ≡ false
      → too_many_rows row ≡ false
      → contains (run_ids w.db.runs) row.run_id ≡ false
      → note_row libs row w ≡ (ok tt, with_run row w)
  unfolding note_row record_run
  note-new row w trigger few h = grind (arith, h, few, trigger)

  marks-save_results :
      (rs : List DqRow) (db : Db) → (save_results libs rs db).watermarks ≡ db.watermarks
  unfolding record_dq_result
  marks-save_results [] db = refl
  marks-save_results (r ∷ rs) db = marks-save_results rs (record_dq_result r db)

  marks-check_quality :
      (r : Result String (List DqRow)) (w : World Row) → marks (check_quality libs r w) ≡ marks w
  unfolding check_quality
  marks-check_quality (ok rs) w = marks-save_results rs w.db
  marks-check_quality (err e) w = refl

  -- The world before the run is with_run.
  abbrev marked : RunConfig → Metadata → Option String → List Row → World Row → World Row
  marked t m old rows w =
      on_db libs
        (write_watermark t.ended_at t.name (mark libs t m (some (new_value libs t old rows))))
        (on_db libs (store_hashes libs t (new_value libs t old rows) rows)
          (check_quality libs (libs.run_dq_checks w (effective_target libs t)) w))

  ok-same : (a b : RunResult) → Path (Result String RunResult) (ok a) (ok b) → b ≡ a
  ok-same a b h = cc

  ok-clash :
      {A : Type 0} {x y : A} (e : String) (r : RunResult)
      → Path (Result String RunResult) (err e) (ok r)
      → x ≡ y
  ok-clash e r h = cc h

  -- The statements behind the note of the run.
  abbrev closing :
      RunConfig → ℕ → Result String (Unit {0}) × World Row → Result String RunResult × World Row
  closing t loaded (r, w) =
      and_then r
        (λ u.
          modify (on_db libs (reset_retry t.name)) >> pure (result_of libs t "success" loaded none))
        w

  abbrev success_row : RunConfig → ℕ → Option String → Option String → List Row → Run
  success_row t loaded changes old rows = record (blank_run libs t "success" t.started_at) {
    rows_extracted = loaded;
    rows_loaded = loaded;
    watermark_before = nonempty_text old;
    watermark_after = new_value libs t old rows;
    schema_changes = changes;
  }

  closed-if :
      (t : RunConfig) (row : Run) (loaded : ℕ) (w w' : World Row) (r : RunResult)
      → bad_trigger row.trigger ≡ false
      → closing t loaded (note_row libs row w) ≡ (ok r, w')
      → (w' ≡ on_db libs (reset_retry t.name) (with_run row w))
        × (r ≡ result_of libs t "success" loaded none)
  closed-if t row loaded w w' r trigger h = elim (note-cases row w trigger) [
    | inl (e, k) ↦
        let clash = sym (ap (closing t loaded) k) ∙ h in
        (ok-clash e r (ap (λ p. p.0) clash), ok-clash e r (ap (λ p. p.0) clash))
    | inr k ↦
        let same = sym (ap (closing t loaded) k) ∙ h in
        (
          sym (ap (λ p. p.1) same),
          ok-same (result_of libs t "success" loaded none) r (ap (λ p. p.0) same),
        )
  ]

  finished :
      (t : RunConfig) (m : Metadata) (changes old : Option String) (rows : List Row) (loaded : ℕ)
      (w w' : World Row) (r : RunResult)
      → finish_run libs t m changes old rows loaded w ≡ (ok r, w')
      → (w'
          ≡ on_db libs
              (reset_retry t.name)
              (with_run (success_row t loaded changes old rows) (marked t m old rows w)))
        × (r ≡ result_of libs t "success" loaded none)
  unfolding finish_run
  finished t m changes old rows loaded w w' r h =
      closed-if t (success_row t loaded changes old rows) loaded (marked t m old rows w) w' r refl h

  -- The row of the table after a run that has succeeded.
  pub final_row :
      (t : RunConfig) (m : Metadata) (changes old : Option String) (rows : List Row) (loaded : ℕ)
      (w w' : World Row) (r : RunResult)
      → finish_run libs t m changes old rows loaded w ≡ (ok r, w')
      → lookup t.name (marks w')
        ≡ some (
            cleared_row (
              written t.ended_at (mark libs t m (some (new_value libs t old rows))) (
                lookup t.name
                  (store_hashes libs t
                    (new_value libs t old rows)
                    rows
                    (check_quality libs
                      (libs.run_dq_checks w (effective_target libs t))
                      w).db).watermarks)))
  unfolding reset_retry write_watermark
  final_row t m changes old rows loaded w w' r h =
      ap (λ x. lookup t.name (marks x)) (finished t m changes old rows loaded w w' r h).0
      ∙ simp (lookup-adjust, lookup-insert, ==_refl)

  settled :
      (t : RunConfig) (m : Metadata) (value : Option String) (o : Option Watermark)
      → let row = cleared_row (written t.ended_at (mark libs t m (some value)) o) in
        (row.last_value ≡ value)
        × (row.retry_count ≡ some 0)
        × (row.retry_after ≡ none)
        × (row.last_file_hash ≡ m.file_hash)
  settled t m value none = (refl, refl, refl, refl)
  settled t m value (some w) = (refl, refl, refl, refl)

  -- The value of the watermark, where `g` is the greatest timestamp of the batch.
  abbrev pub expected_value : RunConfig → Option String → Option ℕ → List Row → Option String
  expected_value t old g [] = if is_incremental t then old else none
  expected_value t old none (r ∷ rs) = none
  expected_value t old (some g) (r ∷ rs) =
      if is_incremental t then some (libs.isoformat g) else none

  stamped :
      (t : RunConfig) (old : Option String) (g : Option ℕ) (r : Row) (rs : List Row)
      → (if is_incremental t then stamp_text libs g else none) ≡ expected_value t old g (r ∷ rs)
  stamped t old none r rs = ground arith
  stamped t old (some g) r rs = refl

  new_value-expected :
      (t : RunConfig) (old : Option String) (rows : List Row)
      → new_value libs t old rows
        ≡ expected_value t old (max_of (map (libs.stamp t.timestamp_column) rows)) rows
  new_value-expected t old [] = refl
  new_value-expected t old (r ∷ rs) =
      stamped t old (max_of (map (libs.stamp t.timestamp_column) (r ∷ rs))) r rs

  -- What follows a load, where it ends well, reports the number of rows, and leaves the table with
  -- a watermark: the text of the greatest timestamp of the batch, which is one of its timestamps
  -- and exceeded by none (or the old watermark for no rows), of an incremental table and none of
  -- any other, the file's hash as it was detected, no failure counted and no backoff.
  pub success_settles :
      (t : RunConfig) (m : Metadata) (changes old : Option String) (rows : List Row) (loaded : ℕ)
      (w w' : World Row) (r : RunResult)
      → finish_run libs t m changes old rows loaded w ≡ (ok r, w')
      → (r ≡ result_of libs t "success" loaded none)
        × ((row : Watermark) × (g : Option ℕ) × (read_watermark w'.db t.name ≡ some row)
            × (is_greatest g (map (libs.stamp t.timestamp_column) rows) ≡ true)
            × (row.last_value ≡ expected_value t old g rows)
            × (row.retry_count ≡ some 0)
            × (row.retry_after ≡ none)
            × (row.last_file_hash ≡ m.file_hash))
  unfolding read_watermark
  success_settles t m changes old rows loaded w w' r h =
      let value = new_value libs t old rows in
      let stamps = map (libs.stamp t.timestamp_column) rows in
      let stored =
        store_hashes libs t value rows
          (check_quality libs (libs.run_dq_checks w (effective_target libs t)) w).db in
      let (a, b, c, d) = settled t m value (lookup t.name stored.watermarks) in
      (
        (finished t m changes old rows loaded w w' r h).1,
        (
          cleared_row
              (written t.ended_at (mark libs t m (some value)) (lookup t.name stored.watermarks)),
          max_of stamps,
          final_row t m changes old rows loaded w w' r h,
          max_of-greatest stamps,
          a ∙ new_value-expected t old rows,
          b,
          c,
          d,
        ),
      )

  hashes-none :
      (t : RunConfig) (rows : List Row) (value : Option String) (keys : Option (List String))
      (db : Db)
      → lookup t.name db.watermarks ≡ none
      → lookup t.name (hashes_at libs t rows value keys db).watermarks ≡ none
  unfolding write_boundary_hashes
  hashes-none t rows none keys db h = h
  hashes-none t rows (some v) none db h = h
  hashes-none t rows (some v) (some []) db h = h
  hashes-none t rows (some v) (some (k ∷ ks)) db h = simp (lookup-adjust, ==_refl, h)

  kept-none :
      (t : RunConfig) (value : Option String) (rows : List Row) (db : Db)
      → lookup t.name db.watermarks ≡ none
      → lookup t.name (store_hashes libs t value rows db).watermarks ≡ none
  unfolding store_hashes
  kept-none t value [] db h = h
  kept-none t value (r ∷ rs) db h =
      ground (arith, h, hashes-none t (r ∷ rs) (nonempty_text value) t.primary_key db h)

  pub fresh_hashes :
      (t : RunConfig) (m : Metadata) (changes old : Option String) (rows : List Row) (loaded : ℕ)
      (w w' : World Row) (r : RunResult)
      → lookup t.name (marks w) ≡ none
      → finish_run libs t m changes old rows loaded w ≡ (ok r, w')
      → read_boundary_hashes w'.db t.name ≡ []
  unfolding read_boundary_hashes
  fresh_hashes t m changes old rows loaded w w' r fresh h =
      let value = new_value libs t old rows in
      let checked = check_quality libs (libs.run_dq_checks w (effective_target libs t)) w in
      let stored = kept-none t value rows checked.db (
        ap (lookup t.name) (marks-check_quality (libs.run_dq_checks w (effective_target libs t)) w)
        ∙ fresh) in
      let row =
        final_row t m changes old rows loaded w w' r h
        ∙ ap (λ o. some (cleared_row (written t.ended_at (mark libs t m (some value)) o))) stored in
      ap (λ o. elim o [ none ↦ [] | some x ↦ or_default x.boundary_hashes [] ]) row
