-- ===== src/SchemaDrift.antt =====
-- src/feather_flow/schema_drift.py: the columns that a source has gained, lost or changed. A schema
-- is a list of names with types; of a name that comes twice, the maps keep the last type.
pub mod Classes
mod Tests
use feather_flow.Common.{
  ◌≡◌, Bool, true, false, not, ◌||◌, Option, none, some, List, [], ◌∷◌, if◌then◌else◌, select,
  String, ◌==◌, string_eq,
}
use feather_flow.Common.Dict.{Dict, lookup, insert, has, keys}

abbrev pub Schema : Type 0
Schema = List (String × String)

pub record DriftReport : Type 0 where
  pub added : Schema
  pub removed : Schema
  -- name, old type and new type
  pub type_changed : List (String × String × String)

abbrev is_nonempty {ℓ} : {A : Type ℓ} → List A → Bool
is_nonempty [] = false
is_nonempty (x ∷ xs) = true

unfoldable pub has_drift : DriftReport → Bool
has_drift d = is_nonempty d.added || (is_nonempty d.removed || is_nonempty d.type_changed)

unfoldable pub severity : DriftReport → String
severity d = if is_nonempty d.type_changed then "CRITICAL" else "INFO"

-- `{name: dtype for name, dtype in schema}`, onto a map
unfoldable pub add_all : Dict String String → Schema → Dict String String
add_all map [] = map
add_all map ((name, dtype) ∷ rest) = add_all (insert name dtype map) rest

-- The columns that a map does not have.
abbrev pub missing_from : Dict String String → Schema → Schema
missing_from map = select (λ (name, dtype). not (has map name))

abbrev change_of :
    String
    → Option String
    → Option String
    → List (String × String × String)
    → List (String × String × String)
change_of name (some old) (some new) rest = if new == old then rest else (name, old, new) ∷ rest
change_of name (some old) none rest = rest
change_of name none new rest = rest

unfoldable pub changes :
    Dict String String → Dict String String → List String → List (String × String × String)
changes current_map stored_map [] = []
changes current_map stored_map (name ∷ names) =
    change_of name (lookup name stored_map) (lookup name current_map)
      (changes current_map stored_map names)

unfoldable pub detect_drift : Schema → Schema → DriftReport
unfolding add_all
detect_drift current_schema stored_schema =
    let current_map = add_all [] current_schema in
    let stored_map = add_all [] stored_schema in
    record {
      added = missing_from stored_map current_schema;
      removed = missing_from current_map stored_schema;
      type_changed = changes current_map stored_map (keys current_map);
    }
