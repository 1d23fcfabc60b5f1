-- ===== src/Destination.antt =====
-- src/feather_flow/destinations/duckdb.py: the batched append. The destination's file maps a
-- qualified table to its rows; DuckDB's evaluation of a predicate on a row is a parameter, `holds`.
-- A transaction works on a copy of the table: a rollback drops the copy.
pub mod Replacing
pub mod Loading
pub mod Exact
pub mod Incremental
pub mod Full
pub mod Tests
use feather_flow.Common.{
  ℕ, ◌+◌, ◌≡◌, Bool, true, false, not, Option, none, some, or_default, List, [], ◌∷◌, ◌++◌, map,
  if◌then◌else◌, length, select, String, ◌==◌, string_eq, nat_eq, Result, ok, err,
}
use feather_flow.Common.Dict.{Dict, lookup, insert}
use feather_flow.Common.Action.{Action, pure, throw, modify, gets, lift, ◌>>=◌, ◌>>◌}
use feather_flow.Common.Text.{◌<>◌, codes}
use feather_flow.State.{Db, WindowRow}
use feather_flow.State.WindowLog.{record_committed_window}
use feather_flow.Windows.{WindowSpec}

-- A row of a bronze table: that of the source and `_etl_run_id`.
pub record Loaded (Row : Type 0) : Type 0 where
  pub row : Row
  pub run_id : String

abbrev pub Bronze : Type 0 → Type 0
Bronze Row = Dict String (List (Loaded Row))

-- The two database files.
pub record World (Row : Type 0) : Type 0 where
  pub bronze : Option (Bronze Row)
  pub db : Db

-- What an iterator of batches yields, and the exception that ends it, if one does.
pub record Stream (Row : Type 0) : Type 0 where
  pub batches : List (List Row)
  pub failure : Option String

-- `table.split(".")` has two parts.
abbrev dots : List ℕ → ℕ
dots [] = 0
dots (c ∷ cs) = (if c == b'.' then 1 else 0) + dots cs

unfoldable pub is_qualified : String → Bool
is_qualified table = dots (codes table) == 1

module _ {Row : Type 0} where
  -- SELECT *, …, run_id AS _etl_run_id
  abbrev pub stamp_rows : String → List Row → List (Loaded Row)
  stamp_rows run_id = map (λ r. record { row = r; run_id = run_id })

  -- `con.commit` of the table.
  abbrev pub commit_table : String → List (Loaded Row) → World Row → World Row
  commit_table table ls w = record w { bronze = some (insert table ls (or_default w.bronze [])) }

  -- `_connect`
  abbrev pub opened_file : World Row → World Row
  opened_file w = record w { bronze = some (or_default w.bronze []) }

  abbrev pub log_window : String → String → WindowRow → World Row → World Row
  log_window table key row w = record w { db = record_committed_window table key row w.db }

  abbrev pub table_of : String → World Row → Option (List (Loaded Row))
  table_of table w = lookup table (or_default w.bronze [])

module _ {Row : Type 0} (holds : String → Row → Bool) where
  -- DELETE FROM … WHERE predicate
  abbrev pub delete_where : String → List (Loaded Row) → List (Loaded Row)
  delete_where predicate = select (λ l. not (holds predicate l.row))

  -- One round of the loop over the batches: `started` is `schema_created`.
  unfoldable pub write_batches :
      (predicate run_id : String) (started : Bool) (table : Option (List (Loaded Row))) (rows : ℕ)
      → List (List Row)
      → Bool × Option (List (Loaded Row)) × ℕ
  write_batches predicate run_id started table rows [] = (started, table, rows)
  write_batches predicate run_id started table rows (batch ∷ rest) =
      let current = or_default table [] in
      let cleared = if started then current else delete_where predicate current in
      write_batches predicate run_id true (some (cleared ++ stamp_rows run_id batch))
        (rows + length batch) rest

  -- What follows the loop, on what it left.
  abbrev pub close_transaction :
      String → Bool × Option (List (Loaded Row)) × ℕ → Result String (List (Loaded Row) × ℕ)
  close_transaction predicate (started, none, rows) =
      err "load_batched_append: iterator yielded no batches and the table does not exist"
  close_transaction predicate (true, some ls, rows) = ok (ls, rows)
  close_transaction predicate (false, some ls, rows) = ok (delete_where predicate ls, rows)

  -- The transaction on one table: the committed rows and their number, or the exception.
  unfoldable pub window_transaction :
      (predicate run_id : String) (table : Option (List (Loaded Row))) (stream : Stream Row)
      → Result String (List (Loaded Row) × ℕ)
  window_transaction predicate run_id table stream = elim stream.failure [
    | some e ↦ err e
    | none ↦
        close_transaction predicate (write_batches predicate run_id false table 0 stream.batches)
  ]

  -- `logged` is the time of the second transaction, `record_committed_window`, or the exception
  -- that it raises; it comes behind the commit of the table. `_connect` makes a missing file.
  unfoldable pub load_batched_append :
      (logged : Result String ℕ) (table : String) (window : WindowSpec) (stream : Stream Row)
      (run_id transport : String)
      → Action (World Row) String ℕ
  unfolding window_transaction
  load_batched_append logged table window stream run_id transport =
      if is_qualified table
      then (do
        modify opened_file
        current ← gets (table_of table)
        (ls, rows) ← lift (window_transaction window.window_predicate run_id current stream)
        modify (commit_table table ls)
        now ← lift logged
        modify (
            log_window table window.window_key (record {
              window_start = window.window_start;
              window_end = window.window_end;
              rows_loaded = rows;
              transport_used = transport;
              committed_at = now;
              run_id = run_id;
            }))
        pure rows)
      else throw ("load_batched_append expects schema.table, got: " <> table)
