-- ===== src/Destination/Tests.antt =====
-- Loads on small tables: rows are numbers, and two predicates split them.
use feather_flow.Common.{
  ℕ, ◌≡◌, Result, ◌⊎◌, refl, Bool, true, ◌&&◌, ◌||◌, not, none, some, [], ◌∷◌, ◌++◌, length, select,
  ltb, if◌then◌else◌, String, ◌==◌, string_eq, ok, err,
}
use feather_flow.Common.Dict.{lookup}
use feather_flow.State.{empty_db}
use feather_flow.State.CommitLog.{is_committed}
use feather_flow.Windows.{WindowSpec}
use feather_flow.Destination.{
  World, Stream, is_qualified, write_batches, window_transaction, commit_table, log_window,
  load_batched_append,
}
use feather_flow.Destination.Replacing.{rows_of, row_list}
use feather_flow.Destination.Loading.{
  window_row, load_replaces_window, failed_load_unlogged, retry_after_crash,
}

abbrev equal_text : String → String → Bool
equal_text a b = a == b

abbrev pub below_ten : String → ℕ → Bool
below_ten predicate n =
    if predicate == "n < 10"
    then ltb n 10
    else if predicate == "n >= 10"
    then not (ltb n 10)
    else true

abbrev pub window_of : String → String → WindowSpec
window_of key predicate = record {
  window_key = key;
  window_predicate = predicate;
  window_start = none;
  window_end = none;
  source_filter = some predicate;
}

abbrev pub low : WindowSpec
low = window_of "low" "n < 10"

abbrev pub high : WindowSpec
high = window_of "high" "n >= 10"

abbrev old_world : World ℕ
old_world = record {
  bronze = some (
      ("bronze.n", record { row = 3; run_id = "r0" } ∷ record { row = 12; run_id = "r0" } ∷ [])
      ∷ []);
  db = empty_db;
}

abbrev two_batches : Stream ℕ
two_batches = record { batches = (1 ∷ 2 ∷ []) ∷ (5 ∷ []) ∷ []; failure = none }

abbrev broken : Stream ℕ
broken = record { batches = (1 ∷ []) ∷ []; failure = some "connection lost" }

abbrev new_world : World ℕ
new_world = log_window "bronze.n" "low" (window_row 7 low 3 "arrow_odbc" "r1") (
    commit_table "bronze.n"
      (record { row = 12; run_id = "r0" }
        ∷ record { row = 1; run_id = "r1" }
        ∷ record { row = 2; run_id = "r1" }
        ∷ record { row = 5; run_id = "r1" }
        ∷ [])
      old_world)

loaded :
    load_batched_append below_ten (ok 7) "bronze.n" low two_batches "r1" "arrow_odbc" old_world
    ≡ (ok 3, new_world)
unfolding load_batched_append is_qualified window_transaction write_batches lookup
loaded = refl

load_replaces_window_example :
    (row_list "bronze.n" new_world ≡ (
      if equal_text "bronze.n" "bronze.n"
      then select (λ r. not (below_ten "n < 10" r)) (row_list "bronze.n" old_world)
        ++ rows_of two_batches.batches
      else row_list "bronze.n" old_world))
    × (3 ≡ length (rows_of two_batches.batches))
    × (is_committed new_world.db "bronze.n" "low" ≡ (
        (equal_text "bronze.n" "bronze.n" && equal_text "low" "low")
        || is_committed old_world.db "bronze.n" "low"))
load_replaces_window_example =
    load_replaces_window below_ten (ok 7) "bronze.n" low two_batches "r1" "arrow_odbc" 3 old_world
      new_world "bronze.n" "low" loaded

lost :
    load_batched_append below_ten (ok 7) "bronze.n" low broken "r1" "arrow_odbc" old_world
    ≡ (err "connection lost", old_world)
unfolding load_batched_append is_qualified window_transaction write_batches lookup
lost = refl

-- The write of the commit log fails behind the commit of the table.
abbrev half_world : World ℕ
half_world = record old_world { bronze = new_world.bronze }

unlogged :
    load_batched_append below_ten
      (err "locked")
      "bronze.n"
      low
      two_batches
      "r1"
      "arrow_odbc"
      old_world
    ≡ (err "locked", half_world)
unfolding load_batched_append is_qualified window_transaction write_batches lookup
unlogged = refl

failed_load_unlogged_example :
    (half_world.db ≡ old_world.db)
    × ((row_list "bronze.n" half_world ≡ row_list "bronze.n" old_world)
        ⊎ ((◌≡◌ {A = Result String ℕ} (err "locked") (err "locked"))
            × (row_list "bronze.n" half_world ≡ (
                if equal_text "bronze.n" "bronze.n"
                then select (λ r. not (below_ten "n < 10" r)) (row_list "bronze.n" old_world)
                  ++ rows_of two_batches.batches
                else row_list "bronze.n" old_world))))
failed_load_unlogged_example =
    failed_load_unlogged below_ten (err "locked") "bronze.n" low two_batches "r1" "arrow_odbc"
      "locked" old_world half_world "bronze.n" unlogged

retry_after_crash_example :
    (w : World ℕ) × (load_batched_append below_ten
        (ok 9)
        "bronze.n"
        low
        two_batches
        "r2"
        "arrow_odbc"
        (record old_world { bronze = new_world.bronze })
      ≡ (ok 3, w))
    × (row_list "bronze.n" w ≡ row_list "bronze.n" new_world)
    × (is_committed w.db "bronze.n" "low" ≡ true)
retry_after_crash_example =
    retry_after_crash below_ten (ok 7) 9 "bronze.n" low two_batches "r1" "r2" "arrow_odbc" 3
      old_world new_world loaded refl
