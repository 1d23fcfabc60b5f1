-- ===== src/State/CommitLog.antt =====
-- The commit log as a set of windows.
use feather_flow.Common.{
  ◌≡◌, refl, ap, false, Bool, true, false, List, [], ◌∷◌, not, ◌&&◌, ◌||◌, String, ◌==◌, string_eq,
  pair_eq, contains, arith,
}
use feather_flow.Common.Dict.{Dict, lookup, has, lookup-insert}
use feather_flow.State.{WindowRow, Db}
use feather_flow.State.WindowLog.{
  window_keys, without_table, get_committed_windows, record_committed_window,
  clear_windows_for_table, distinct_tables, get_all_window_table_names,
}

abbrev pub is_committed : Db → String → String → Bool
is_committed db table key = contains (get_committed_windows db table) key

window_keys-has :
    (table key : String) (d : Dict (String × String) WindowRow)
    → contains (window_keys table d) key ≡ has d (table, key)
unfolding window_keys lookup
window_keys-has table key [] = refl
window_keys-has table key (((t, k), row) ∷ rest) = ground (arith, window_keys-has table key rest)

-- A recorded window is committed, and no other window changes.
pub committed-record :
    (table key other_table other_key : String) (row : WindowRow) (db : Db)
    → is_committed (record_committed_window table key row db) other_table other_key
      ≡ ((table == other_table && key == other_key) || is_committed db other_table other_key)
unfolding get_committed_windows record_committed_window
committed-record table key other_table other_key row db =
    simp (window_keys-has, lookup-insert) (ground arith)

keys-without_table :
    (table other key : String) (d : Dict (String × String) WindowRow)
    → contains (window_keys other (without_table table d)) key
      ≡ (not (table == other) && contains (window_keys other d) key)
unfolding window_keys without_table
keys-without_table table other key [] = ground arith
keys-without_table table other key (((t, k), row) ∷ rest) = ground (
  arith,
  keys-without_table table other key rest,
  string_eq.decides t table,
  string_eq.decides t other,
  string_eq.decides table other,
)

-- Clearing a table forgets its windows and no others.
pub committed-clear :
    (table other key : String) (db : Db)
    → is_committed (clear_windows_for_table table db) other key
      ≡ (not (table == other) && is_committed db other key)
unfolding get_committed_windows clear_windows_for_table
committed-clear table other key db = keys-without_table table other key db.windows

-- A table is named if and only if it is not yet seen and has an entry.
abbrev has_entry : String → Dict (String × String) WindowRow → Bool
has_entry table [] = false
has_entry table (((t, key), row) ∷ rest) = t == table || has_entry table rest

distinct_tables-has_entry :
    (table : String) (seen : List String) (d : Dict (String × String) WindowRow)
    → contains (distinct_tables seen d) table ≡ (not (contains seen table) && has_entry table d)
unfolding distinct_tables
distinct_tables-has_entry table seen [] = ground arith
distinct_tables-has_entry table seen (((t, key), row) ∷ rest) = ground (
  arith,
  distinct_tables-has_entry table seen rest,
  distinct_tables-has_entry table (t ∷ seen) rest,
  string_eq.decides t table,
  ap (λ (s : String). contains seen s) {x = t} {y = table},
)

committed-has_entry :
    (table key : String) (d : Dict (String × String) WindowRow)
    → contains (window_keys table d) key ≡ true
    → has_entry table d ≡ true
unfolding window_keys
committed-has_entry table key [] h = cc
committed-has_entry table key (((t, k), row) ∷ rest) h =
    ground (arith, committed-has_entry table key rest)

-- A table with a committed window is among the names that the check for a missing destination
-- reads.
pub committed_named :
    (table key : String) (db : Db)
    → is_committed db table key ≡ true
    → contains (get_all_window_table_names db) table ≡ true
unfolding get_all_window_table_names get_committed_windows
committed_named table key db h =
    ground (
      arith,
      distinct_tables-has_entry table [] db.windows,
      committed-has_entry table key db.windows,
    )
