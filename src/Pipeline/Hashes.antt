-- ===== src/Pipeline/Hashes.antt =====
-- `run_table`: boundary hashes that are not stored.
use feather_flow.Common.{
  ℕ, ◌≡◌, refl, sym, ap, ◌∙◌, Bool, true, false, Option, none, some, or_default, List, [], ◌∷◌, map,
  contains, if◌then◌else◌, String, ◌==◌, string_eq, nat_eq, ==_refl, ok, arith, inl, inr,
  Bool-cases,
}
use feather_flow.Common.Dict.{lookup, has, apply, adjust, lookup-adjust}
use feather_flow.Common.Text.{◌<>◌, codes}
use feather_flow.Common.Action.{and_then-ok, ◌>>=◌}
use feather_flow.Destination.{World, is_qualified}
use feather_flow.Destination.Full.{load_full}
use feather_flow.State.{Db, Watermark}
use feather_flow.State.Retry.{cleared_row}
use feather_flow.State.Watermarks.{
  WatermarkUpdate, written, with_hashes, read_watermark, read_boundary_hashes,
  write_boundary_hashes,
}
use feather_flow.Pipeline.{filter_loop, is_loaded, compute_pk_hashes, filter_boundary_rows}
use feather_flow.Pipeline.Table.{
  Metadata, RunSource, RunConfig, RunResult, Libraries, run_id_of, is_incremental, nonempty_text,
}
use feather_flow.Pipeline.Run.{
  effective_target, extract_rows, request_of, check_quality, new_value, stamp_text, max_of, mark,
}
use feather_flow.Pipeline.All.{finish_run, load_whole, store_hashes, hashes_at}
use feather_flow.Pipeline.Outcomes.{marks, fresh_hashes, final_row}

-- A text with the letter T is another than one without it.
other_text :
    (a b : String) → contains (codes a) 84 ≡ false → contains (codes b) 84 ≡ true → (a == b) ≡ false
other_text a b h k = elim (Bool-cases (a == b)) [
  | inl e ↦
      let clash : false ≡ true =
        sym h ∙ ap (λ x. contains (codes x) 84) ((string_eq.decides a b).0 e) ∙ k in
      cc clash
  | inr e ↦ e
]

nonempty_iso : (s : String) → contains (codes s) 84 ≡ true → nonempty_text (some s) ≡ some s
nonempty_iso s h = elim (Bool-cases (s == "")) [
  | inl e ↦
      let clash : false ≡ true =
        ap (λ x. contains (codes x) 84) (sym ((string_eq.decides s "").0 e)) ∙ h in
      cc clash
  | inr e ↦ ap (λ b. if b then none else some s) e
]

-- What a next run reads of a row whose hashes were overwritten by none.
read_none :
    (now : ℕ) (u : WatermarkUpdate) (o : Option Watermark)
    → or_default (cleared_row (written now u (apply (with_hashes []) o))).boundary_hashes [] ≡ []
read_none now u none = refl
read_none now u (some w) = refl

module _ {Row : Type 0} (libs : Libraries Row) where
  -- The rows' texts in the column have no T.
  module _ (ts_column : String)
      (spaced : (row : Row) → contains (codes (libs.cell ts_column row)) 84 ≡ false) where
    unhashed_rows :
        (rows : List Row) (primary_key : List String) (value : String)
        → contains (codes value) 84 ≡ true
        → compute_pk_hashes libs.cell libs.sha256 rows primary_key ts_column value ≡ []
    unfolding compute_pk_hashes
    unhashed_rows [] primary_key value h = refl
    unhashed_rows (row ∷ rows) primary_key value h = ground (
      arith,
      other_text (libs.cell ts_column row) value (spaced row) h,
      unhashed_rows rows primary_key value h,
    )

    none_loaded :
        (rows : List Row) (primary_key : List String) (value : String) (hashes : List String)
        → contains (codes value) 84 ≡ true
        → filter_loop (is_loaded libs.cell libs.sha256 primary_key ts_column value hashes) rows
          ≡ (rows, 0)
    unfolding filter_loop
    none_loaded [] primary_key value hashes h = refl
    none_loaded (row ∷ rows) primary_key value hashes h = grind (
      arith,
      other_text (libs.cell ts_column row) value (spaced row) h,
      none_loaded rows primary_key value hashes h,
    )

    all_kept :
        (rows : List Row) (value : String) (keys : Option (List String)) (hashes : List String)
        → contains (codes value) 84 ≡ true
        → filter_boundary_rows libs.cell libs.sha256 rows keys ts_column value hashes ≡ (rows, 0)
    unfolding filter_boundary_rows
    all_kept rows value none hashes h = refl
    all_kept rows value (some []) hashes h = refl
    all_kept rows value (some (k ∷ ks)) [] h = refl
    all_kept rows value (some (k ∷ ks)) (x ∷ xs) h = none_loaded rows (k ∷ ks) value (x ∷ xs) h

  stored-none :
      (t : RunConfig) (g : ℕ) (k : String) (ks : List String) (r : Row) (rs : List Row) (db : Db)
      → is_incremental t ≡ true
      → t.primary_key ≡ some (k ∷ ks)
      → ((row : Row) → contains (codes (libs.cell t.timestamp_column row)) 84 ≡ false)
      → contains (codes (libs.isoformat g)) 84 ≡ true
      → lookup t.name (store_hashes libs t (some (libs.isoformat g)) (r ∷ rs) db).watermarks
        ≡ apply (with_hashes []) (lookup t.name db.watermarks)
  unfolding store_hashes write_boundary_hashes
  stored-none t g k ks r rs db inc key spaced iso =
      let at = λ (o : Option String) (p : Option (List String)).
        lookup t.name (hashes_at libs t (r ∷ rs) o p db).watermarks in
      let value = libs.isoformat g in
      ap
        (λ (b : Bool).
          let d : Db =
            if b
            then hashes_at libs t (r ∷ rs) (nonempty_text (some value)) t.primary_key db
            else db in
          lookup t.name d.watermarks)
        inc
      ∙ ap (λ o. at o t.primary_key) (nonempty_iso value iso)
      ∙ ap (at (some value)) key
      ∙ ap (λ hs. lookup t.name (adjust t.name (with_hashes hs) db.watermarks))
          (unhashed_rows t.timestamp_column spaced (r ∷ rs) (k ∷ ks) value iso)
      ∙ lookup-adjust t.name t.name (with_hashes []) db.watermarks
      ∙ ap
          (λ b.
            if b
            then apply (with_hashes []) (lookup t.name db.watermarks)
            else lookup t.name db.watermarks)
          (==_refl t.name)

  -- `str` of a timestamp has no T, and `isoformat` has one between the date and the time. Hence a
  -- run of an incremental table with a key and a timestamp that ends well leaves no boundary hashes,
  -- and at its watermark no row of a later batch is filtered, whatever hashes are stored.
  pub timestamps_never_match :
      (t : RunConfig) (m : Metadata) (changes old : Option String) (k : String) (ks : List String)
      (row : Row) (rows : List Row) (g loaded : ℕ) (w w' : World Row) (r : RunResult)
      (batch : List Row) (keys : Option (List String)) (hashes : List String)
      → ((row : Row) → contains (codes (libs.cell t.timestamp_column row)) 84 ≡ false)
      → contains (codes (libs.isoformat g)) 84 ≡ true
      → is_incremental t ≡ true
      → t.primary_key ≡ some (k ∷ ks)
      → max_of (map (libs.stamp t.timestamp_column) (row ∷ rows)) ≡ some g
      → finish_run libs t m changes old (row ∷ rows) loaded w ≡ (ok r, w')
      → (read_boundary_hashes w'.db t.name ≡ [])
        × (filter_boundary_rows libs.cell libs.sha256 batch keys t.timestamp_column
              (libs.isoformat g)
              hashes
            ≡ (batch, 0))
  unfolding read_boundary_hashes
  timestamps_never_match t m changes old k ks row rows g loaded w w' r batch keys hashes spaced iso
        inc key greatest h =
      let checked = check_quality libs (libs.run_dq_checks w (effective_target libs t)) w in
      let stamps = map (libs.stamp t.timestamp_column) (row ∷ rows) in
      let is_value : new_value libs t old (row ∷ rows) ≡ some (libs.isoformat g) =
        ap (λ b. if b then stamp_text libs (max_of stamps) else none) inc
        ∙ ap (stamp_text libs) greatest in
      let stored =
        ap (λ v. lookup t.name (store_hashes libs t v (row ∷ rows) checked.db).watermarks) is_value
        ∙ stored-none t g k ks row rows checked.db inc key spaced iso in
      let u = mark libs t m (some (new_value libs t old (row ∷ rows))) in
      let there =
        final_row libs t m changes old (row ∷ rows) loaded w w' r h
        ∙ ap (λ o. some (cleared_row (written t.ended_at u o))) stored in
      (
        ap (λ o. elim o [ none ↦ [] | some x ↦ or_default x.boundary_hashes [] ]) there
            ∙ read_none t.ended_at u (lookup t.name checked.db.watermarks),
        all_kept t.timestamp_column spaced batch (libs.isoformat g) keys hashes iso,
      )

  marks-load_full :
      (table run_id : String) (rows : List Row) (w : World Row)
      → marks libs (load_full libs.catalog_error table rows run_id w).1 ≡ marks libs w
  unfolding load_full
  marks-load_full table run_id rows w = elim (Bool-cases (is_qualified table)) [
    | inl q ↦ elim (Bool-cases (has (or_default w.bronze []) (table <> "_new"))) [
      | inl h ↦ grind (arith, q, h)
      | inr h ↦ grind (arith, q, h)
    ]
    | inr q ↦ grind (arith, q)
  ]

  -- The first run of a table that has no watermark leaves no boundary hashes, whatever it has
  -- loaded: they are written before the row that would hold them.
  pub first_hashes_lost :
      (t : RunConfig) (source : RunSource Row) (m : Metadata) (changes old : Option String)
      (w w' : World Row) (r : RunResult)
      → read_watermark w.db t.name ≡ none
      → load_whole libs t source m changes old w ≡ (ok r, w')
      → read_boundary_hashes w'.db t.name ≡ []
  unfolding load_whole read_watermark
  first_hashes_lost t source m changes old w w' r fresh h =
      let request =
        request_of libs t (if is_incremental t then nonempty_text t.filter else none) none in
      let load = λ (rows : List Row).
        load_full libs.catalog_error (effective_target libs t) rows (run_id_of libs t) in
      let (rows, extracted, h') =
        and_then-ok (extract_rows libs t source request)
          (λ rows. load rows >>= λ loaded. finish_run libs t m changes old rows loaded) w w' r h in
      let (loaded, done, h'') =
        and_then-ok (load rows w).0 (λ loaded. finish_run libs t m changes old rows loaded)
          (load rows w).1 w' r h' in
      fresh_hashes libs t m changes old rows loaded (load rows w).1 w' r
        (ap (lookup t.name) (marks-load_full (effective_target libs t) (run_id_of libs t) rows w)
          ∙ fresh)
        h''
