-- ===== src/Destination/Loading.antt =====
-- `load_batched_append` on the two databases: what it commits, and what a retry commits.
use feather_flow.Common.{
  ℕ, ◌≡◌, ap, sym, ◌∙◌, Bool, true, not, some, or_default, List, [], ◌++◌, ◌&&◌, ◌||◌,
  if◌then◌else◌, length, select, String, ◌==◌, string_eq, nat_eq, ==_refl, Result, ok, err, ◌⊎◌,
  Result-cases, arith, all, Bool-cases, inl, inr,
}
use feather_flow.Common.Dict.{lookup-insert}
use feather_flow.State.{WindowRow}
use feather_flow.State.CommitLog.{is_committed, committed-record}
use feather_flow.Windows.{WindowSpec}
use feather_flow.Destination.{
  Loaded, World, Stream, is_qualified, window_transaction, opened_file, commit_table, log_window,
  table_of, load_batched_append,
}
use feather_flow.Destination.Replacing.{
  rows_of, plain, row_list, transaction-rows, transaction-again, replaced_twice,
}

abbrev pub window_row : ℕ → WindowSpec → ℕ → String → String → WindowRow
window_row now window rows transport run_id = record {
  window_start = window.window_start;
  window_end = window.window_end;
  rows_loaded = rows;
  transport_used = transport;
  committed_at = now;
  run_id = run_id;
}

module _ {Row : Type 0} (holds : String → Row → Bool) where
  -- A load that returns has committed a transaction and then logged it.
  pub load-ok :
      (logged : Result String ℕ) (table : String) (window : WindowSpec) (stream : Stream Row)
      (run_id transport : String) (n : ℕ) (w w' : World Row)
      → load_batched_append holds logged table window stream run_id transport w ≡ (ok n, w')
      → (ls : List (Loaded Row)) × (now : ℕ) × (is_qualified table ≡ true)
        × (window_transaction holds window.window_predicate run_id (table_of table w) stream
            ≡ ok (ls, n))
        × (w'
            ≡ log_window table window.window_key
                (window_row now window n transport run_id)
                (commit_table table ls w))
  unfolding load_batched_append
  load-ok logged table window stream run_id transport n w w' h =
      elim (Bool-cases (is_qualified table)) [
        | inl q ↦
            elim (Result-cases
              (window_transaction holds window.window_predicate run_id (table_of table w) stream)) [
                | inl ((ls, m), k) ↦ elim (Result-cases logged) [
                  | inl (now, l) ↦
                      (ls, now, q, grind (arith, q, k, l, h), grind (arith, q, k, l, h))
                  | inr (f, l) ↦ grind (arith, q, k, l, h)
                ]
                | inr (f, k) ↦ grind (arith, q, k, h)
              ]
        | inr q ↦ grind (arith, q, h)
      ]

  pub row_list-left :
      (table other : String) (ls : List (Loaded Row)) (w : World Row)
      → row_list other (commit_table table ls w)
        ≡ (if table == other then plain ls else row_list other w)
  row_list-left table other ls w = simp (lookup-insert) (ground arith)

  row_list-commit :
      (table other key : String) (ls : List (Loaded Row)) (row : WindowRow) (w : World Row)
      → row_list other (log_window table key row (commit_table table ls w))
        ≡ (if table == other then plain ls else row_list other w)
  row_list-commit table other key ls row w = simp (lookup-insert) (ground arith)

  table_of-commit :
      (table key : String) (ls : List (Loaded Row)) (row : WindowRow) (w : World Row)
      → table_of table (log_window table key row (commit_table table ls w)) ≡ some ls
  table_of-commit table key ls row w = simp (lookup-insert, ==_refl)

  -- A load returns if its transaction does.
  load-commits :
      (now : ℕ) (table : String) (window : WindowSpec) (stream : Stream Row)
      (run_id transport : String) (n : ℕ) (ls : List (Loaded Row)) (w : World Row)
      → is_qualified table ≡ true
      → window_transaction holds window.window_predicate run_id (table_of table w) stream
        ≡ ok (ls, n)
      → load_batched_append holds (ok now) table window stream run_id transport w ≡ (
        ok n,
        log_window table window.window_key
            (window_row now window n transport run_id)
            (commit_table table ls w),
      )
  unfolding load_batched_append
  load-commits now table window stream run_id transport n ls w q h = grind (arith, q, h)

  -- A load that returns replaces the rows of its window: the table keeps the rows outside of it, in
  -- their order, and after them has the rows of the stream, whose number is returned; other tables
  -- stay as they were. The window is logged and the rest of the commit log stays.
  pub load_replaces_window :
      (logged : Result String ℕ) (table : String) (window : WindowSpec) (stream : Stream Row)
      (run_id transport : String) (n : ℕ) (w w' : World Row) (other key : String)
      → load_batched_append holds logged table window stream run_id transport w ≡ (ok n, w')
      → (row_list other w' ≡ (
          if table == other
          then select (λ r. not (holds window.window_predicate r)) (row_list table w)
            ++ rows_of stream.batches
          else row_list other w))
        × (n ≡ length (rows_of stream.batches))
        × (is_committed w'.db other key
            ≡ ((table == other && window.window_key == key) || is_committed w.db other key))
  load_replaces_window logged table window stream run_id transport n w w' other key h =
      let (ls, now, q, t, e) = load-ok logged table window stream run_id transport n w w' h in
      let (rows, count) =
        transaction-rows holds window.window_predicate run_id (table_of table w) stream ls n t in
      (
        ap (row_list other) e
            ∙ row_list-commit table other window.window_key ls
                (window_row now window n transport run_id) w
            ∙ ap (λ rs. if table == other then rs else row_list other w) rows,
        count,
        ap (λ v. is_committed v.db other key) e
            ∙ committed-record table window.window_key other key
                (window_row now window n transport run_id) w.db,
      )

  -- A load that raises has committed nothing, or its transaction and not the log.
  pub load-err :
      (logged : Result String ℕ) (table : String) (window : WindowSpec) (stream : Stream Row)
      (run_id transport e : String) (w w' : World Row)
      → load_batched_append holds logged table window stream run_id transport w ≡ (err e, w')
      → (w'.db ≡ w.db)
        × (((other : String) → row_list other w' ≡ row_list other w)
            ⊎ ((ls : List (Loaded Row)) × (n : ℕ) × (logged ≡ err e)
                × (window_transaction holds window.window_predicate run_id (table_of table w) stream
                    ≡ ok (ls, n))
                × (w' ≡ commit_table table ls w)))
  unfolding load_batched_append
  load-err logged table window stream run_id transport e w w' h =
      elim (Bool-cases (is_qualified table)) [
        | inl q ↦
            elim (Result-cases
              (window_transaction holds window.window_predicate run_id (table_of table w) stream)) [
                | inl ((ls, n), k) ↦ elim (Result-cases logged) [
                  | inl (now, l) ↦ grind (arith, q, k, l, h)
                  | inr (f, l) ↦
                      let left : w' ≡ commit_table table ls w = grind (arith, q, k, l, h) in
                      let raised : logged ≡ err e = grind (arith, q, k, l, h) in
                      (ap (λ v. v.db) left, inr (ls, n, raised, k, left))
                ]
                | inr (f, k) ↦
                    let left : w' ≡ opened_file w = grind (arith, q, k, h) in
                    (ap (λ v. v.db) left, inl (λ other. ap (row_list other) left))
              ]
        | inr q ↦
            let left : w' ≡ w = grind (arith, q, h) in
            (ap (λ v. v.db) left, inl (λ other. ap (row_list other) left))
      ]

  -- A load that raises leaves every other table and the state database as they were, its window
  -- unlogged; its own table too, unless it is the write of the commit log that has raised: then the
  -- rows of the window are replaced.
  pub failed_load_unlogged :
      (logged : Result String ℕ) (table : String) (window : WindowSpec) (stream : Stream Row)
      (run_id transport e : String) (w w' : World Row) (other : String)
      → load_batched_append holds logged table window stream run_id transport w ≡ (err e, w')
      → (w'.db ≡ w.db)
        × ((row_list other w' ≡ row_list other w)
            ⊎ ((logged ≡ err e)
                × (row_list other w' ≡ (
                    if table == other
                    then select (λ r. not (holds window.window_predicate r)) (row_list table w)
                      ++ rows_of stream.batches
                    else row_list other w))))
  failed_load_unlogged logged table window stream run_id transport e w w' other h =
      let (same, ended) = load-err logged table window stream run_id transport e w w' h in
      elim ended [
        | inl kept ↦ (same, inl (kept other))
        | inr (ls, n, raised, k, left) ↦
            let (rows, _) =
              transaction-rows holds window.window_predicate run_id (table_of table w) stream ls n
                k in
            (
              same,
              inr (
                raised,
                ap (row_list other) left
                    ∙ row_list-left table other ls w
                    ∙ ap (λ rs. if table == other then rs else row_list other w) rows,
              ),
            )
      ]

  -- If a load is interrupted between its two commits, so that its table is written and its window is
  -- not logged, and the rows of the stream satisfy the window's predicate, then a retry with the
  -- same stream returns the same number, logs the window and leaves the rows as the first load did.
  pub retry_after_crash :
      (logged : Result String ℕ) (later : ℕ) (table : String) (window : WindowSpec)
      (stream : Stream Row) (run_id again transport : String) (n : ℕ) (w w' : World Row)
      → load_batched_append holds logged table window stream run_id transport w ≡ (ok n, w')
      → all (holds window.window_predicate) (rows_of stream.batches) ≡ true
      → (w'' : World Row) × (load_batched_append holds
            (ok later)
            table
            window
            stream
            again
            transport
            (record w { bronze = w'.bronze })
          ≡ (ok n, w''))
        × (row_list table w'' ≡ row_list table w')
        × (is_committed w''.db table window.window_key ≡ true)
  retry_after_crash logged later table window stream run_id again transport n w w' h k =
      let (ls, now, q, t, e) = load-ok logged table window stream run_id transport n w w' h in
      let predicate = window.window_predicate in
      let crashed = record w { bronze = w'.bronze } in
      let row = window_row later window n transport again in
      let (fresh, t') =
        transaction-again holds predicate run_id again (table_of table w) ls stream ls n t in
      let there : table_of table crashed ≡ some ls =
        ap (table_of table) e
        ∙ table_of-commit table window.window_key ls (window_row now window n transport run_id) w in
      let (first_rows, _) =
        transaction-rows holds predicate run_id (table_of table w) stream ls n t in
      let (again_rows, _) = transaction-rows holds predicate again (some ls) stream fresh n t' in
      (
        log_window table window.window_key row (commit_table table fresh crashed),
        load-commits later table window stream again transport n fresh crashed q
            (ap (λ o. window_transaction holds predicate again o stream) there ∙ t'),
        ap (λ o. plain (or_default o []))
              (table_of-commit table window.window_key fresh row crashed)
            ∙ replaced_twice (holds predicate) (row_list table w) (plain ls) (plain fresh)
                (rows_of stream.batches) first_rows again_rows k
            ∙ sym (ap (λ o. plain (or_default o [])) there),
        committed-record table window.window_key table window.window_key row w.db
            ∙ simp (==_refl) (ground arith),
      )
