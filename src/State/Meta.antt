-- ===== src/State/Meta.antt =====
-- `init_state`: the version of the schema. The tables themselves are made if they are missing,
-- which leaves those that are there alone, so only the version row and the migration show.
use feather_flow.Common.{
  ℕ, none, some, ltb, if◌then◌else◌, nat_eq, ◌==◌, [], ◌∷◌, Result, ok, err, String, string_eq,
}
use feather_flow.Common.Dict.{Dict, insert, has}
use feather_flow.State.{Watermark, Db}

pub data MetaError : Type 0 where
  newer_schema : MetaError

abbrev pub schema_version : ℕ
schema_version = 2

-- The columns that the migration copies; `retry_count` takes its default, the others are NULL.
unfoldable pub migrated_row : Watermark → Watermark
migrated_row w = record w {
  strategy = none;
  last_value = none;
  retry_count = some 0;
  retry_after = none;
  boundary_hashes = none;
}

-- `INSERT OR IGNORE INTO _watermarks … SELECT … FROM _cache_watermarks`
unfoldable pub copy_missing : Dict String Watermark → Dict String Watermark → Dict String Watermark
unfolding migrated_row
copy_missing [] into = into
copy_missing ((table, w) ∷ rest) into =
    copy_missing rest (if has into table then into else insert table (migrated_row w) into)

unfoldable pub migrate_v1_to_v2 : Db → Db
unfolding copy_missing
migrate_v1_to_v2 db = elim db.cache_watermarks [
  | none ↦ db
  | some cached ↦ record db {
    watermarks = copy_missing cached db.watermarks;
    cache_watermarks = none;
  }
]

unfoldable pub init_state : Db → Result MetaError Db
unfolding migrate_v1_to_v2
init_state db = elim db.schema_version [
  | none ↦ ok (record db { schema_version = some schema_version })
  | some v ↦
      let migrated = if v == 1 then migrate_v1_to_v2 db else db in
      if ltb v schema_version
      then ok (record migrated { schema_version = some schema_version })
      else if ltb schema_version v
      then err newer_schema
      else ok db
]
