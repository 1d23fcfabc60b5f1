-- ===== src/Pipeline/Tests.antt =====
-- Two incremental runs of a table of two rows.
use feather_flow.Common.{
  ℕ, ◌≡◌, refl, true, List, [], ◌∷◌, Option, some, map, if◌then◌else◌, select, String, ◌==◌,
  string_eq, ok, arith,
}
use feather_flow.Common.Dict.{lookup, insert}
use feather_flow.Curation.{join}
use feather_flow.State.{empty_db}
use feather_flow.Destination.{World, is_qualified}
use feather_flow.Destination.Replacing.{row_list}
use feather_flow.Destination.Incremental.{min_of, load_incremental, load_rows, replace_from}
use feather_flow.Pipeline.{is_loaded, filter_loop, filter_boundary_rows}
use feather_flow.Pipeline.Boundary.{is_at, boundary_rows_lost}

-- A row within the overlap, and one at the watermark.
data Sample : Type 0 where
  early late : Sample

abbrev cell : String → Sample → String
cell column early = if column == "ts" then "18" else "1"
cell column late = if column == "ts" then "20" else "2"

abbrev stamp : Sample → Option ℕ
stamp early = some 18
stamp late = some 20

abbrev catalog_error : String → String
catalog_error table = "table does not exist"

abbrev identity : String → String
identity text = text

abbrev both : List Sample
both = early ∷ late ∷ []

abbrev loaded_before : World Sample
loaded_before = record {
  bronze = some (
      (
        "bronze.n",
        record { row = early; run_id = "r0" } ∷ record { row = late; run_id = "r0" } ∷ [],
      )
      ∷ []);
  db = empty_db;
}

abbrev loaded_after : World Sample
loaded_after = record {
  bronze = some (("bronze.n", record { row = early; run_id = "r1" } ∷ []) ∷ []);
  db = empty_db;
}

second_load :
    load_incremental stamp catalog_error "bronze.n" (early ∷ []) "r1" loaded_before
    ≡ (ok 1, loaded_after)
unfolding load_incremental load_rows replace_from min_of is_qualified lookup insert
second_load = refl

second_batch :
    (filter_boundary_rows cell identity both (some ("id" ∷ [])) "ts" "20" ("2" ∷ [])).0 ≡ early ∷ []
unfolding filter_boundary_rows filter_loop join
second_batch = refl

second_least : min_of (map stamp (early ∷ [])) ≡ some 18
unfolding min_of
second_least = refl

at_mark : (x : Sample) → is_at cell identity "ts" "20" x ≡ true → stamp x ≡ some 20
at_mark early h = cc h
at_mark late h = refl

boundary_rows_lost_example :
    select
      (is_loaded cell identity ("id" ∷ []) "ts" "20" ("2" ∷ []))
      (row_list "bronze.n" loaded_after)
    ≡ []
boundary_rows_lost_example =
    boundary_rows_lost cell identity stamp catalog_error "bronze.n" "r1" both "id" [] "ts" "20" "2"
      [] early [] 18 20 1 loaded_before loaded_after second_batch second_least (omega arith) at_mark
      second_load
