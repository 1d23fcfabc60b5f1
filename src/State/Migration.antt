-- ===== src/State/Migration.antt =====
-- `init_state` on an old, a current and a newer state database.
use feather_flow.Common.{
  ◌≡◌, some, if◌then◌else◌, nat_eq, string_eq, [], ◌∷◌, ok, String, arith, Option-cases, inl, inr,
}
use feather_flow.Common.Dict.{Dict, lookup, insert, has, lookup-insert}
use feather_flow.State.{Watermark, Db}
use feather_flow.State.Meta.{
  schema_version, migrated_row, copy_missing, migrate_v1_to_v2, init_state,
}

-- Where the first dictionary has no entry, the second one's.
copy_missing-keeps :
    (cached into : Dict String Watermark) (table : String) (w : Watermark)
    → lookup table into ≡ some w
    → lookup table (copy_missing cached into) ≡ some w
unfolding copy_missing
copy_missing-keeps [] into table w h = h
copy_missing-keeps ((t, v) ∷ rest) into table w h =
    copy_missing-keeps rest (if has into t then into else insert t (migrated_row v) into) table w
      (ground (arith, lookup-insert t table (migrated_row v) into, string_eq.decides t table))

migrate-keeps :
    (db : Db) (table : String) (w : Watermark)
    → lookup table db.watermarks ≡ some w
    → lookup table (migrate_v1_to_v2 db).watermarks ≡ some w
unfolding migrate_v1_to_v2
migrate-keeps db table w h = elim (Option-cases db.cache_watermarks) [
  | inl absent ↦ ground (arith, absent)
  | inr (cached, there) ↦ ground (arith, there, copy_missing-keeps cached db.watermarks table w h)
]

-- An accepted `init_state` leaves the current version, keeps every watermark that was there, and a
-- second call changes nothing.
pub init_state_settles :
    (db : Db) {db' : Db} (table : String) (w : Watermark)
    → init_state db ≡ ok db'
    → lookup table db.watermarks ≡ some w
    → (db'.schema_version ≡ some schema_version)
      × (init_state db' ≡ ok db')
      × (lookup table db'.watermarks ≡ some w)
unfolding init_state
init_state_settles db table w h found =
    (ground arith, ground arith, ground (arith, migrate-keeps db table w found))
