-- ===== src/SchemaDrift/Classes.antt =====
-- Each column of either schema in its class.
use feather_flow.Common.{
  ◌≡◌, refl, ap, sym, ◌∙◌, Bool, false, not, ◌&&◌, ◌||◌, Option, none, some, is_some, List, [], ◌∷◌,
  contains, String, ◌==◌, string_eq, arith,
}
use feather_flow.Common.Dict.{Dict, lookup, insert, has, keys, lookup-insert, has-contains}
use feather_flow.SchemaDrift.{Schema, add_all, missing_from, change_of, changes, detect_drift}

abbrev pub column_names : Schema → List String
column_names [] = []
column_names ((name, dtype) ∷ rest) = name ∷ column_names rest

abbrev pub changed_names : List (String × String × String) → List String
changed_names [] = []
changed_names ((name, old, new) ∷ rest) = name ∷ changed_names rest

-- Both maps have the column, and with another type.
abbrev pub differs : Option String → Option String → Bool
differs (some old) (some new) = not (new == old)
differs (some old) none = false
differs none new = false

has-add_all :
    (map : Dict String String) (schema : Schema) (name : String)
    → has (add_all map schema) name ≡ (contains (column_names schema) name || has map name)
unfolding add_all
has-add_all map [] name = refl
has-add_all map ((n, dtype) ∷ rest) name =
    has-add_all (insert n dtype map) rest name ∙ ground (arith, lookup-insert n name dtype map)

column_names-missing :
    (map : Dict String String) (schema : Schema) (name : String)
    → contains (column_names (missing_from map schema)) name
      ≡ (contains (column_names schema) name && not (has map name))
column_names-missing map [] name = refl
column_names-missing map ((n, dtype) ∷ rest) name = ground (
  arith,
  column_names-missing map rest name,
  string_eq.decides n name,
  ap (has map) {x = n} {y = name},
)

changed_names-change_of :
    (name other : String) (old new : Option String) (rest : List (String × String × String))
    → contains (changed_names (change_of name old new rest)) other
      ≡ ((name == other && differs old new) || contains (changed_names rest) other)
changed_names-change_of name other (some old) (some new) rest = ground arith
changed_names-change_of name other (some old) none rest = ground arith
changed_names-change_of name other none new rest = ground arith

changed_names-changes :
    (current_map stored_map : Dict String String) (listed : List String) (name : String)
    → contains (changed_names (changes current_map stored_map listed)) name
      ≡ (contains listed name && differs (lookup name stored_map) (lookup name current_map))
unfolding changes
changed_names-changes current_map stored_map [] name = refl
changed_names-changes current_map stored_map (n ∷ listed) name =
    changed_names-change_of n name (lookup n stored_map) (lookup n current_map)
      (changes current_map stored_map listed)
    ∙ ground (
      arith,
      changed_names-changes current_map stored_map listed name,
      string_eq.decides n name,
      ap (λ m. differs (lookup m stored_map) (lookup m current_map)) {x = n} {y = name},
    )

has_all :
    (schema : Schema) (name : String)
    → has (add_all [] schema) name ≡ contains (column_names schema) name
unfolding lookup
has_all schema name = has-add_all [] schema name ∙ ground arith

differs_has : (old new : Option String) → (is_some new && differs old new) ≡ differs old new
differs_has (some old) (some new) = refl
differs_has (some old) none = refl
differs_has none new = ground arith

-- A column is reported as added if it is in the current schema and not in the stored one, as removed
-- in the converse case, and as changed if it is in both and the last types given for it differ; in
-- no other case is it in one of the three lists.
pub drift_classifies :
    (current_schema stored_schema : Schema) (name : String)
    → (contains (column_names (detect_drift current_schema stored_schema).added) name ≡ (
        contains (column_names current_schema) name
        && not (contains (column_names stored_schema) name)))
      × (contains (column_names (detect_drift current_schema stored_schema).removed) name ≡ (
          contains (column_names stored_schema) name
          && not (contains (column_names current_schema) name)))
      × (contains (changed_names (detect_drift current_schema stored_schema).type_changed) name
          ≡ differs
              (lookup name (add_all [] stored_schema))
              (lookup name (add_all [] current_schema)))
unfolding detect_drift
drift_classifies current_schema stored_schema name = (
  column_names-missing (add_all [] stored_schema) current_schema name
      ∙ ap (λ b. contains (column_names current_schema) name && not b) (has_all stored_schema name),
  column_names-missing (add_all [] current_schema) stored_schema name
      ∙ ap (λ b. contains (column_names stored_schema) name && not b) (has_all current_schema name),
  changed_names-changes (add_all [] current_schema) (add_all [] stored_schema)
        (keys (add_all [] current_schema)) name
      ∙ ap
          (λ b.
            b
            && differs (lookup name (add_all [] stored_schema))
                (lookup name (add_all [] current_schema)))
          (sym (has-contains (add_all [] current_schema) name))
      ∙ differs_has (lookup name (add_all [] stored_schema))
          (lookup name (add_all [] current_schema)),
)
