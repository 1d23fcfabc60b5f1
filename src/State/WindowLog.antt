-- ===== src/State/WindowLog.antt =====
-- The commit log of the windows.
use feather_flow.Common.{List, [], ◌∷◌, if◌then◌else◌, String, ◌==◌, string_eq, pair_eq, contains}
use feather_flow.Common.Dict.{Dict, insert}
use feather_flow.State.{WindowRow, Db}

unfoldable pub window_keys : String → Dict (String × String) WindowRow → List String
window_keys table [] = []
window_keys table (((t, key), row) ∷ rest) =
    let others = window_keys table rest in if t == table then key ∷ others else others

unfoldable pub get_committed_windows : Db → String → List String
unfolding window_keys
get_committed_windows db table = window_keys table db.windows

-- INSERT OR REPLACE
unfoldable pub record_committed_window : String → String → WindowRow → Db → Db
record_committed_window table key row db = record db {
  windows = insert (table, key) row db.windows;
}

unfoldable pub without_table :
    String → Dict (String × String) WindowRow → Dict (String × String) WindowRow
without_table table [] = []
without_table table (((t, key), row) ∷ rest) =
    let others = without_table table rest in if t == table then others else ((t, key), row) ∷ others

unfoldable pub clear_windows_for_table : String → Db → Db
unfolding without_table
clear_windows_for_table table db = record db { windows = without_table table db.windows }

unfoldable pub clear_all_windows : Db → Db
clear_all_windows db = record db { windows = [] }

unfoldable pub distinct_tables : List String → Dict (String × String) WindowRow → List String
distinct_tables seen [] = []
distinct_tables seen (((t, key), row) ∷ rest) =
    let fresh = t ∷ distinct_tables (t ∷ seen) rest in
    let others = distinct_tables seen rest in if contains seen t then others else fresh

-- SELECT DISTINCT
unfoldable pub get_all_window_table_names : Db → List String
unfolding distinct_tables
get_all_window_table_names db = distinct_tables [] db.windows
