-- ===== src/SchemaDrift/Tests.antt =====
-- A column of each class.
use feather_flow.Common.{◌≡◌, refl, not, ◌&&◌, [], ◌∷◌, contains, string_eq}
use feather_flow.Common.Dict.{lookup, insert}
use feather_flow.SchemaDrift.{Schema, detect_drift, add_all, changes}
use feather_flow.SchemaDrift.Classes.{column_names, changed_names, differs, drift_classifies}

abbrev before : Schema
before = ("id", "INT") ∷ ("name", "TEXT") ∷ ("old", "TEXT") ∷ []

abbrev after : Schema
after = ("id", "BIGINT") ∷ ("name", "TEXT") ∷ ("new", "TEXT") ∷ []

drift_test : (detect_drift after before).type_changed ≡ ("id", "INT", "BIGINT") ∷ []
unfolding detect_drift add_all changes lookup insert
drift_test = refl

drift_classifies_example :
    (contains (column_names (detect_drift after before).added) "id"
      ≡ (contains (column_names after) "id" && not (contains (column_names before) "id")))
    × (contains (column_names (detect_drift after before).removed) "id"
        ≡ (contains (column_names before) "id" && not (contains (column_names after) "id")))
    × (contains (changed_names (detect_drift after before).type_changed) "id"
        ≡ differs (lookup "id" (add_all [] before)) (lookup "id" (add_all [] after)))
drift_classifies_example = drift_classifies after before "id"
