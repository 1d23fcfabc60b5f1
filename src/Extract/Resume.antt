-- ===== src/Extract/Resume.antt =====
-- The loop over the windows: a table that is extracted in several runs.
use feather_flow.Common.{
  ℕ, ◌≡◌, refl, ap, subst, sym, ◌∙◌, Bool, true, not, List, [], ◌∷◌, ◌+◌, ◌&&◌, ◌||◌, ◌⊎◌, select,
  String, ◌==◌, string_eq, ==_refl, Result, ok, arith, inl, inr, All, All-select, contains,
  Result-cases,
}
use feather_flow.Common.Action.{and_then-keeps, and_then-ok, pure, ◌>>=◌}
use feather_flow.Common.Text.{◌<>◌}
use feather_flow.State.CommitLog.{is_committed}
use feather_flow.State.WindowLog.{get_committed_windows}
use feather_flow.Windows.{WindowSpec}
use feather_flow.Destination.{World}
use feather_flow.Destination.Replacing.{row_list}
use feather_flow.Destination.Loading.{load_replaces_window}
use feather_flow.Destination.Exact.{Exact, Apart, Serves, load_keeps_Exact, failed_keeps_Exact}
use feather_flow.Extract.{
  Source, TableConfig, Texts, target_of, iter_source_batches, load_window, load_windows,
  uncommitted,
}

module _ {Row : Type 0} (holds : String → Row → Bool) (texts : Texts) where
  -- The source's streams for the windows are slices of one list of rows.
  abbrev pub AllServed : TableConfig → Source Row → List Row → List WindowSpec → Type 0
  AllServed table source rows =
      All (λ u. Serves holds rows u (iter_source_batches source table.source_table u.source_filter))

  -- Each window is `v` or apart from it.
  abbrev pub AllApart : WindowSpec → List WindowSpec → Type 0
  AllApart v = All (λ u. (u ≡ v) ⊎ Apart holds u v)

  window_keeps_Exact :
      (table : TableConfig) (source : Source Row) (rows : List Row) (u v : WindowSpec)
      (w : World Row)
      → Serves holds rows u (iter_source_batches source table.source_table u.source_filter)
      → (u ≡ v) ⊎ Apart holds u v
      → Exact holds rows (target_of table) v w
      → Exact holds rows (target_of table) v (load_window holds texts table source u w).1
  window_keeps_Exact table source rows u v w s a e =
      let loaded = load_window holds texts table source u w in
      let stream = iter_source_batches source table.source_table u.source_filter in
      let run_id = "extract_" <> table.name <> "_" <> texts.isoformat table.now in
      elim (Result-cases loaded.0) [
        | inl (n, k) ↦
            load_keeps_Exact holds (table.committed_at u) (target_of table) u v stream run_id
              source.transport_name n rows w loaded.1 (ap (λ r. (r, loaded.1)) k) s a e
        | inr (f, k) ↦
            failed_keeps_Exact holds (table.committed_at u) (target_of table) u v stream run_id
              source.transport_name f rows w loaded.1 (ap (λ r. (r, loaded.1)) k) s a e
      ]

  loop_keeps_Exact :
      (table : TableConfig) (source : Source Row) (rows : List Row) (v : WindowSpec)
      (windows : List WindowSpec) (w : World Row)
      → AllServed table source rows windows
      → AllApart v windows
      → Exact holds rows (target_of table) v w
      → Exact holds rows (target_of table) v (load_windows holds texts table source windows w).1
  unfolding load_windows
  loop_keeps_Exact table source rows v [] w s a e = e
  loop_keeps_Exact table source rows v (u ∷ windows) w (s, ss) (a, as_) e =
      let loaded = load_window holds texts table source u w in
      let P = Exact holds rows (target_of table) v in
      let rest = load_windows holds texts table source windows loaded.1 in
      let kept = window_keeps_Exact table source rows u v w s a e in
      let rest_kept = loop_keeps_Exact table source rows v windows loaded.1 ss as_ kept in
      and_then-keeps P loaded.0
        (λ n. load_windows holds texts table source windows >>= λ m. pure (n + m)) loaded.1 kept
        (λ n. and_then-keeps P rest.0 (λ m. pure (n + m)) rest.1 rest_kept (λ m. rest_kept))

  -- Whether the loop over the windows ends or an exception stops it, be it of a stream or of the
  -- write of the commit log behind the commit of a table, a window that is logged after
  -- it has in the table the rows that it has in the source, if this held before. The streams that
  -- end have the source's rows of their windows, and the windows have different keys and predicates
  -- that exclude each other.
  pub resume-Exact :
      (table : TableConfig) (source : Source Row) (rows : List Row) (v : WindowSpec)
      (windows : List WindowSpec) (w w' : World Row) (r : Result String ℕ)
      → load_windows holds texts table source windows w ≡ (r, w')
      → AllServed table source rows windows
      → AllApart v windows
      → Exact holds rows (target_of table) v w
      → Exact holds rows (target_of table) v w'
  resume-Exact table source rows v windows w w' r h s a e =
      subst (Exact holds rows (target_of table) v) (ap (λ p. p.1) h)
        (loop_keeps_Exact table source rows v windows w s a e)

  abbrev pub keys_of : List WindowSpec → List String
  keys_of [] = []
  keys_of (u ∷ us) = u.window_key ∷ keys_of us

  log_order : (t : String) (a b c x : Bool) → x ≡ ((t == t && a) || c) → (b || x) ≡ ((a || b) || c)
  log_order t a b c x h = ground (arith, ==_refl t, h)

  -- A loop that ends has logged its windows and changed no other entry for the table.
  loop_logs :
      (table : TableConfig) (source : Source Row) (windows : List WindowSpec) (key : String) (n : ℕ)
      (w w' : World Row)
      → load_windows holds texts table source windows w ≡ (ok n, w')
      → is_committed w'.db (target_of table) key
        ≡ (contains (keys_of windows) key || is_committed w.db (target_of table) key)
  unfolding load_windows
  loop_logs table source [] key n w w' h =
      ap (λ p. is_committed p.1.db (target_of table) key) (sym h)
  loop_logs table source (u ∷ windows) key n w w' h =
      let loaded = load_window holds texts table source u w in
      let (m, k, h') =
        and_then-ok loaded.0
          (λ n. load_windows holds texts table source windows >>= λ m. pure (n + m)) loaded.1 w' n
          h in
      let rest = load_windows holds texts table source windows loaded.1 in
      let (o, k', h'') = and_then-ok rest.0 (λ o. pure (m + o)) rest.1 w' n h' in
      let (_, _, log) =
        load_replaces_window holds (table.committed_at u) (target_of table) u
          (iter_source_batches source table.source_table u.source_filter)
          ("extract_" <> table.name <> "_" <> texts.isoformat table.now) source.transport_name m w
          loaded.1 (target_of table) key (ap (λ r. (r, loaded.1)) k) in
      let later = loop_logs table source windows key o loaded.1 rest.1 (ap (λ r. (r, rest.1)) k') in
      ap (λ p. is_committed p.1.db (target_of table) key) (sym h'')
      ∙ later
      ∙ log_order (target_of table) (u.window_key == key) (contains (keys_of windows) key)
          (is_committed w.db (target_of table) key) (is_committed loaded.1.db (target_of table) key)
          log

  keys-uncommitted :
      (committed : List String) (windows : List WindowSpec) (key : String)
      → contains (keys_of (uncommitted committed windows)) key
        ≡ (contains (keys_of windows) key && not (contains committed key))
  unfolding uncommitted
  keys-uncommitted committed [] key = refl
  keys-uncommitted committed (u ∷ windows) key = ground (
    arith,
    keys-uncommitted committed windows key,
    string_eq.decides u.window_key key,
    ap (contains committed) {x = u.window_key} {y = key},
  )

  uncommitted-All :
      (P : WindowSpec → Type 0) (committed : List String) (plan : List WindowSpec)
      → All P plan
      → All P (uncommitted committed plan)
  unfolding uncommitted
  uncommitted-All P committed plan h =
      All-select P (λ u. not (contains committed u.window_key)) plan h

  committed-Exact :
      (v : WindowSpec) (w : World Row) (rows : List Row) (table : String)
      → is_committed w.db table v.window_key ≡ true
      → Exact holds rows table v w
      → select (holds v.window_predicate) (row_list table w)
        ≡ select (holds v.window_predicate) rows
  committed-Exact v w rows table h (inl k) = cc (h, k)
  committed-Exact v w rows table h (inr k) = k

  -- If the loop over the windows of a plan that are not yet logged ends, then for every window of
  -- the plan the table has the rows that the source has, in their order, whatever of the plan
  -- earlier runs had done. It is assumed that the window was exact before if it was logged, that
  -- the streams that end have the source's rows of their windows, and that the plan's windows have
  -- different keys and predicates that exclude each other.
  pub extract_completes :
      (table : TableConfig) (source : Source Row) (rows : List Row) (v : WindowSpec)
      (plan : List WindowSpec) (n : ℕ) (w w' : World Row)
      → load_windows holds texts table source
          (uncommitted (get_committed_windows w.db (target_of table)) plan)
          w
        ≡ (ok n, w')
      → contains (keys_of plan) v.window_key ≡ true
      → AllServed table source rows plan
      → AllApart v plan
      → Exact holds rows (target_of table) v w
      → select (holds v.window_predicate) (row_list (target_of table) w')
        ≡ select (holds v.window_predicate) rows
  extract_completes table source rows v plan n w w' h m s a e =
      let committed = get_committed_windows w.db (target_of table) in
      let todo = uncommitted committed plan in
      let logged : is_committed w'.db (target_of table) v.window_key ≡ true =
        loop_logs table source todo v.window_key n w w' h
        ∙ (ground (arith, m, keys-uncommitted committed plan v.window_key)) in
      committed-Exact v w' rows (target_of table) logged (
        resume-Exact table source rows v todo w w' (ok n) h (uncommitted-All _ committed plan s)
          (uncommitted-All _ committed plan a) e)
