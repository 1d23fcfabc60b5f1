-- ===== src/Destination/Full.antt =====
-- src/feather_flow/destinations/duckdb.py: `load_full`, which swaps a table for a new one, and
-- `load_append`. The text of DuckDB's exception is a parameter.
use feather_flow.Common.{
  Bool, true, false, ℕ, or_default, List, [], ◌++◌, if◌then◌else◌, length, String, string_eq,
  Result, ok, err,
}
use feather_flow.Common.Dict.{has}
use feather_flow.Common.Action.{Action, pure, throw, gets, lift, modify, ◌>>=◌, ◌>>◌}
use feather_flow.Common.Text.{◌<>◌}
use feather_flow.Destination.{Loaded, World, is_qualified, stamp_rows, commit_table, table_of}

module _ {Row : Type 0} where
  -- The transaction of `load_full`: CREATE of the staging table, which must not exist, DROP of the
  -- final one, and RENAME.
  abbrev pub swap :
      (String → String) → String → List (Loaded Row) → Bool → World Row → Result String (World Row)
  swap catalog_error table rows true w = err (catalog_error (table <> "_new"))
  swap catalog_error table rows false w = ok (commit_table table rows w)

  abbrev pub put : World Row → Action (World Row) String Unit
  put w' w = (ok tt, w')

  unfoldable pub load_full :
      (String → String) → String → List Row → String → Action (World Row) String ℕ
  load_full catalog_error table rows run_id =
      if is_qualified table
      then (do
        w ← gets (λ w. w)
        swapped ← lift (
            swap catalog_error table (stamp_rows run_id rows)
              (has (or_default w.bronze []) (table <> "_new")) w)
        put swapped
        pure (length rows))
      else throw ("load_full expects schema.table, got: " <> table)

  unfoldable pub load_append : String → List Row → String → Action (World Row) String ℕ
  load_append table rows run_id =
      if is_qualified table
      then (do
        current ← gets (table_of table)
        modify (commit_table table (or_default current [] ++ stamp_rows run_id rows))
        pure (length rows))
      else throw ("load_append expects schema.table, got: " <> table)
