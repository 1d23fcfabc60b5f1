-- ===== src/Pipeline.antt =====
-- src/feather_flow/pipeline.py: the boundary rows of an incremental run. `cell` is the text,
-- `str(v)`, of a row's value in a column, and `sha256` the hash of a text.
pub mod Boundary
pub mod Table
pub mod Run
pub mod All
pub mod Outcomes
pub mod Hashes
pub mod Skips
pub mod Failing
mod Tests
mod RunTests
use feather_flow.Common.{
  ℕ, ◌+◌, ◌≡◌, Bool, true, false, not, ◌&&◌, ◌||◌, List, [], ◌∷◌, Option, none, some, map,
  if◌then◌else◌, select, contains, String, ◌==◌, string_eq,
}
use feather_flow.Common.Text.{◌<>◌}
use feather_flow.Curation.{join}

-- `target or f"bronze.{name}"`
unfoldable pub resolve_target : String → Option String → String
resolve_target name none = "bronze." <> name
resolve_target name (some target) = if target == "" then "bronze." <> name else target

-- The loop: the rows that are kept and the number of those that are skipped.
unfoldable pub filter_loop : {Row : Type 0} → (Row → Bool) → List Row → List Row × ℕ
filter_loop loaded [] = ([], 0)
filter_loop loaded (row ∷ rows) =
    let (kept, skipped) = filter_loop loaded rows in
    if loaded row then (kept, skipped + 1) else (row ∷ kept, skipped)

module _ {Row : Type 0} (cell : String → Row → String) (sha256 : String → String) where
  abbrev pub pk_hash : List String → Row → String
  pk_hash primary_key row = sha256 (join "|" (map (λ pk. cell pk row) primary_key))

  unfoldable pub compute_pk_hashes : List Row → List String → String → String → List String
  compute_pk_hashes [] primary_key ts_column watermark_value = []
  compute_pk_hashes (row ∷ rows) primary_key ts_column watermark_value =
      let rest = compute_pk_hashes rows primary_key ts_column watermark_value in
      if cell ts_column row == watermark_value then pk_hash primary_key row ∷ rest else rest

  -- A row at the old watermark whose hash was stored.
  abbrev pub is_loaded : List String → String → String → List String → Row → Bool
  is_loaded primary_key ts_column old_watermark prev_hashes row =
      cell ts_column row == old_watermark && contains prev_hashes (pk_hash primary_key row)

  -- Without a key or without stored hashes nothing is filtered.
  unfoldable pub filter_boundary_rows :
      List Row → Option (List String) → String → String → List String → List Row × ℕ
  filter_boundary_rows rows none ts_column old_watermark prev_hashes = (rows, 0)
  filter_boundary_rows rows (some []) ts_column old_watermark prev_hashes = (rows, 0)
  filter_boundary_rows rows (some (k ∷ ks)) ts_column old_watermark [] = (rows, 0)
  filter_boundary_rows rows (some (k ∷ ks)) ts_column old_watermark (h ∷ hs) =
      filter_loop (is_loaded (k ∷ ks) ts_column old_watermark (h ∷ hs)) rows
