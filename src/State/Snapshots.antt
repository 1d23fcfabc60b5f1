-- ===== src/State/Snapshots.antt =====
-- The results of quality checks and the snapshots of schemas.
use feather_flow.Common.{List, [], ◌∷◌, ◌++◌, Option, none, some, String, string_eq}
use feather_flow.Common.Dict.{lookup, insert}
use feather_flow.State.{DqRow, Db}

unfoldable pub record_dq_result : DqRow → Db → Db
record_dq_result r db = record db { dq_results = db.dq_results ++ (r ∷ []) }

-- DELETE of the table's rows, and an INSERT for each column.
unfoldable pub save_schema_snapshot : String → List (String × String) → Db → Db
save_schema_snapshot table schema db = record db { snapshots = insert table schema db.snapshots }

-- Without rows there is no snapshot.
abbrev pub snapshot_of : Option (List (String × String)) → Option (List (String × String))
snapshot_of none = none
snapshot_of (some []) = none
snapshot_of (some (c ∷ cs)) = some (c ∷ cs)

unfoldable pub get_schema_snapshot : Db → String → Option (List (String × String))
get_schema_snapshot db table = snapshot_of (lookup table db.snapshots)
