-- ===== src/Destination/Exact.antt =====
-- Windows of a table whose rows are those of the source, and loads of other windows.
use feather_flow.Common.{
  ℕ, ◌≡◌, refl, ap, sym, ◌∙◌, Bool, true, false, not, List, [], ◌∷◌, ◌++◌, ◌&&◌, ◌⊎◌, select,
  String, ◌==◌, string_eq, ==_refl, Result, ok, err, arith, inl, inr, is_some,
}
use feather_flow.State.CommitLog.{is_committed}
use feather_flow.Windows.{WindowSpec}
use feather_flow.Destination.{World, Stream, load_batched_append, window_transaction, table_of}
use feather_flow.Destination.Replacing.{rows_of, row_list, transaction-rows}
use feather_flow.Destination.Loading.{load-ok, load-err, row_list-left, load_replaces_window}

module _ {Row : Type 0} where
  pub replaced_self :
      (p : Row → Bool) (xs ys : List Row)
      → select p (select (λ r. not (p r)) xs ++ select p ys) ≡ select p ys
  replaced_self p [] [] = refl
  replaced_self p [] (y ∷ ys) = ground (arith, replaced_self p [] ys)
  replaced_self p (x ∷ xs) ys = ground (arith, replaced_self p xs ys)

  pub replaced_apart :
      (p q : Row → Bool) (xs ys : List Row)
      → ((r : Row) → (p r && q r) ≡ false)
      → select q (select (λ r. not (p r)) xs ++ select p ys) ≡ select q xs
  replaced_apart p q [] [] h = refl
  replaced_apart p q [] (y ∷ ys) h = ground (arith, replaced_apart p q [] ys h, h y)
  replaced_apart p q (x ∷ xs) ys h = ground (arith, replaced_apart p q xs ys h, h x)

module _ {Row : Type 0} (holds : String → Row → Bool) where
  -- If the window is logged, the table has its rows of the source, in their order.
  abbrev pub Exact : List Row → String → WindowSpec → World Row → Type 0
  Exact source table v w =
      (is_committed w.db table v.window_key ≡ false)
      ⊎ (select (holds v.window_predicate) (row_list table w)
          ≡ select (holds v.window_predicate) source)

  -- Two windows of one plan.
  abbrev pub Apart : WindowSpec → WindowSpec → Type 0
  Apart u v =
      (u.window_key == v.window_key ≡ false)
      × ((r : Row) → (holds u.window_predicate r && holds v.window_predicate r) ≡ false)

  -- A stream that ends well has the rows of its window.
  abbrev pub Serves : List Row → WindowSpec → Stream Row → Type 0
  Serves source u stream =
      (is_some stream.failure ≡ true)
      ⊎ (rows_of stream.batches ≡ select (holds u.window_predicate) source)

  ended_well :
      (predicate run_id : String) (source : List Row) (u : WindowSpec) (w : World Row)
      (table : String) (stream : Stream Row) {a : _}
      → window_transaction holds predicate run_id (table_of table w) stream ≡ ok a
      → Serves source u stream
      → rows_of stream.batches ≡ select (holds u.window_predicate) source
  unfolding window_transaction
  ended_well predicate run_id source u w table stream h (inr s) = s
  ended_well predicate run_id source u w table stream h (inl f) = grind (arith, h, f)

  loaded_rows :
      (logged : Result String ℕ) (table : String) (u : WindowSpec) (stream : Stream Row)
      (run_id transport : String) (n : ℕ) (source : List Row) (w w' : World Row)
      → load_batched_append holds logged table u stream run_id transport w ≡ (ok n, w')
      → Serves source u stream
      → row_list table w'
        ≡ select (λ r. not (holds u.window_predicate r)) (row_list table w)
          ++ select (holds u.window_predicate) source
  loaded_rows logged table u stream run_id transport n source w w' h s =
      let (ls, _, _, t, _) = load-ok holds logged table u stream run_id transport n w w' h in
      let (rows, _, _) =
        load_replaces_window holds logged table u stream run_id transport n w w' table "" h in
      rows ∙ simp (==_refl, ended_well u.window_predicate run_id source u w table stream t s)

  -- A load that returns keeps every window exact, its own included.
  pub load_keeps_Exact :
      (logged : Result String ℕ) (table : String) (u v : WindowSpec) (stream : Stream Row)
      (run_id transport : String) (n : ℕ) (source : List Row) (w w' : World Row)
      → load_batched_append holds logged table u stream run_id transport w ≡ (ok n, w')
      → Serves source u stream
      → (u ≡ v) ⊎ Apart u v
      → Exact source table v w
      → Exact source table v w'
  load_keeps_Exact logged table u v stream run_id transport n source w w' h s (inl same) e = inr (
      ap (λ x. select (holds x.window_predicate) (row_list table w')) (sym same)
      ∙ ap (select (holds u.window_predicate))
          (loaded_rows logged table u stream run_id transport n source w w' h s)
      ∙ replaced_self (holds u.window_predicate) (row_list table w) source
      ∙ ap (λ x. select (holds x.window_predicate) source) same)
  load_keeps_Exact logged table u v stream run_id transport n source w w' h s (inr (keys, apart))
        (inl none_yet) =
      let (_, _, log) =
        load_replaces_window holds logged table u stream run_id transport n w w' table v.window_key
          h in
      inl (log ∙ ground (arith, keys, none_yet))
  load_keeps_Exact logged table u v stream run_id transport n source w w' h s (inr (keys, apart))
        (inr exact) =
      inr (
        ap (select (holds v.window_predicate))
          (loaded_rows logged table u stream run_id transport n source w w' h s)
        ∙ replaced_apart (holds u.window_predicate) (holds v.window_predicate) (row_list table w)
            source apart
        ∙ exact)

  kept_Exact :
      (table : String) (source : List Row) (v : WindowSpec) (w w' : World Row)
      → is_committed w'.db table v.window_key ≡ is_committed w.db table v.window_key
      → row_list table w' ≡ row_list table w
      → Exact source table v w
      → Exact source table v w'
  kept_Exact table source v w w' log rows (inl none_yet) = inl (log ∙ none_yet)
  kept_Exact table source v w w' log rows (inr exact) =
      inr (ap (select (holds v.window_predicate)) rows ∙ exact)

  -- The window `u` is replaced and the log stays.
  replaced_Exact :
      (table : String) (source : List Row) (u v : WindowSpec) (w w' : World Row)
      → is_committed w'.db table v.window_key ≡ is_committed w.db table v.window_key
      → row_list table w'
        ≡ select (λ r. not (holds u.window_predicate r)) (row_list table w)
          ++ select (holds u.window_predicate) source
      → (u ≡ v) ⊎ Apart u v
      → Exact source table v w
      → Exact source table v w'
  replaced_Exact table source u v w w' log rows (inl same) e = inr (
      ap (λ x. select (holds x.window_predicate) (row_list table w')) (sym same)
      ∙ ap (select (holds u.window_predicate)) rows
      ∙ replaced_self (holds u.window_predicate) (row_list table w) source
      ∙ ap (λ x. select (holds x.window_predicate) source) same)
  replaced_Exact table source u v w w' log rows (inr (keys, apart)) (inl none_yet) =
      inl (log ∙ none_yet)
  replaced_Exact table source u v w w' log rows (inr (keys, apart)) (inr exact) = inr (
      ap (select (holds v.window_predicate)) rows
      ∙ replaced_apart (holds u.window_predicate) (holds v.window_predicate) (row_list table w)
          source apart
      ∙ exact)

  -- A load that raises keeps every window exact, even where the write of the commit log has raised.
  pub failed_keeps_Exact :
      (logged : Result String ℕ) (table : String) (u v : WindowSpec) (stream : Stream Row)
      (run_id transport e : String) (source : List Row) (w w' : World Row)
      → load_batched_append holds logged table u stream run_id transport w ≡ (err e, w')
      → Serves source u stream
      → (u ≡ v) ⊎ Apart u v
      → Exact source table v w
      → Exact source table v w'
  failed_keeps_Exact logged table u v stream run_id transport e source w w' h s a exact =
      let (same, ended) = load-err holds logged table u stream run_id transport e w w' h in
      let log : is_committed w'.db table v.window_key ≡ is_committed w.db table v.window_key =
        ap (λ d. is_committed d table v.window_key) same in
      elim ended [
        | inl kept ↦ kept_Exact table source v w w' log (kept table) exact
        | inr (ls, n, raised, k, left) ↦
            let (rows, _) =
              transaction-rows holds u.window_predicate run_id (table_of table w) stream ls n k in
            let served = ended_well u.window_predicate run_id source u w table stream k s in
            replaced_Exact table source u v w w' log
              (ap (row_list table) left
                ∙ row_list-left holds table table ls w
                ∙ simp (==_refl, rows, served))
              a exact
      ]
