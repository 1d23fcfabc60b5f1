-- ===== src/DiscoverState/Tests.antt =====
-- A run of discovery with one source renamed.
use feather_flow.Common.{
  ◌≡◌, refl, none, some, List, [], ◌∷◌, if◌then◌else◌, contains, String, string_eq,
}
use feather_flow.Common.Dict.{lookup, insert, has}
use feather_flow.DiscoverState.{
  Found, Sources, record_ok, record_failed, decide, decide_current, decide_removed, classify,
  candidates, rename_loop, detect_renames,
}
use feather_flow.DiscoverState.Decisions.{expected, classify_decides}

abbrev found : Found
found = record {
  type = "postgres";
  fingerprint = "h:5432/db";
  host = some "h";
  database = some "db";
}

abbrev sources : Sources
sources =
    record_failed "crm" (record found { fingerprint = "h:5432/crm" }) "no route" "t2"
      (record_ok "erp" found 12 "schema_erp.json" "t1" [])

decisions_test :
    classify sources ("crm" ∷ "new" ∷ []) none
    ≡ ("crm", "retry") ∷ ("new", "new") ∷ ("erp", "removed") ∷ []
unfolding classify decide decide_current decide_removed record_failed record_ok lookup insert
decisions_test = refl

renames_test :
    (detect_renames sources (("main", "h:5432/db") ∷ ("crm", "h:5432/crm") ∷ [])).proposals
    ≡ ("erp", "main") ∷ []
unfolding detect_renames rename_loop candidates record_failed record_ok lookup insert
renames_test = refl

abbrev configured : List String
configured = "crm" ∷ "new" ∷ []

classify_decides_example : lookup "erp" (classify sources configured none) ≡ (
    if contains configured "erp"
    then some (expected none (lookup "erp" sources))
    else if has sources "erp"
    then some "removed"
    else none)
classify_decides_example = classify_decides sources configured none "erp"
