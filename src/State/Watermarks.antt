-- ===== src/State/Watermarks.antt =====
-- `read_watermark`, `write_watermark` and the boundary hashes.
use feather_flow.Common.{ℕ, Option, none, some, List, [], or_default, String, string_eq}
use feather_flow.Common.Dict.{lookup, insert, adjust}
use feather_flow.State.{Watermark, Db}

-- The keyword arguments of `write_watermark`; `last_value` is `none` for the sentinel.
pub record WatermarkUpdate : Type 0 where
  pub strategy : Option String
  pub last_run_at : Option ℕ
  pub last_file_mtime : Option ℕ
  pub last_file_hash : Option String
  pub last_value : Option (Option String)
  pub last_checksum : Option String
  pub last_row_count : Option ℕ
  pub source_db : Option String

unfoldable pub read_watermark : Db → String → Option Watermark
read_watermark db table = lookup table db.watermarks

-- The row that the INSERT makes: `retry_count` has a default, the rest is NULL.
abbrev pub fresh_row : ℕ → WatermarkUpdate → Watermark
fresh_row run_at u = record {
  strategy = u.strategy;
  last_value = or_default u.last_value none;
  last_checksum = u.last_checksum;
  last_row_count = u.last_row_count;
  last_file_mtime = u.last_file_mtime;
  last_file_hash = u.last_file_hash;
  last_run_at = some run_at;
  retry_count = some 0;
  retry_after = none;
  boundary_hashes = none;
  source_db = u.source_db;
}

-- The row after either UPDATE.
abbrev pub updated_row : ℕ → WatermarkUpdate → Watermark → Watermark
updated_row run_at u w = record w {
  strategy = u.strategy;
  last_value = or_default u.last_value w.last_value;
  last_checksum = u.last_checksum;
  last_row_count = u.last_row_count;
  last_file_mtime = u.last_file_mtime;
  last_file_hash = u.last_file_hash;
  last_run_at = some run_at;
  source_db = u.source_db;
}

-- The row that a write makes of the one that was there.
abbrev pub written : ℕ → WatermarkUpdate → Option Watermark → Watermark
written now u none = fresh_row (or_default u.last_run_at now) u
written now u (some w) = updated_row (or_default u.last_run_at now) u w

unfoldable pub write_watermark : ℕ → String → WatermarkUpdate → Db → Db
write_watermark now table u db = record db {
  watermarks = insert table (written now u (lookup table db.watermarks)) db.watermarks;
}

abbrev pub with_hashes : List String → Watermark → Watermark
with_hashes hashes w = record w { boundary_hashes = some hashes }

-- `UPDATE _watermarks SET boundary_hashes = ? WHERE table_name = ?`
unfoldable pub write_boundary_hashes : String → List String → Db → Db
write_boundary_hashes table hashes db = record db {
  watermarks = adjust table (with_hashes hashes) db.watermarks;
}

unfoldable pub read_boundary_hashes : Db → String → List String
read_boundary_hashes db table = elim (lookup table db.watermarks) [
  | none ↦ []
  | some w ↦ or_default w.boundary_hashes []
]
