-- ===== src/State/Merging.antt =====
-- What `set_override` stores.
use feather_flow.Common.{
  ℕ, ◌≡◌, Bool, false, true, Option, none, some, contains, if◌then◌else◌, or_default, String, ◌==◌,
  string_eq, ok, arith, Option-cases, inl, inr,
}
use feather_flow.Common.Dict.{lookup, lookup-insert}
use feather_flow.State.{ExtractOverride, Db}
use feather_flow.State.Overrides.{
  Fields, valid_window_strategies, get_override, merge_fields, bad_strategy, blank_override,
  set_override,
}

-- A strategy that the planner knows, or none.
abbrev pub valid_strategy : Option String → Bool
valid_strategy none = true
valid_strategy (some ws) = contains valid_window_strategies ws

abbrev pub strategy_of : Option ExtractOverride → Option String
strategy_of none = none
strategy_of (some o) = o.window_strategy

abbrev pub IsValidOverrides : Db → Type 0
IsValidOverrides db = (table : String) → valid_strategy (strategy_of (get_override db table)) ≡ true

-- What an accepted call leaves: the table's override with the given fields written over it, and
-- the other tables' overrides as they were.
pub get-set_override :
    (now : ℕ) (table other : String) (fields : Fields) (db : Db) {db' : Db}
    → set_override now table fields db ≡ ok db'
    → get_override db' other ≡ (
        if table == other
        then some
            (merge_fields fields (or_default (get_override db table) (blank_override now table)))
        else get_override db other)
unfolding set_override get_override
get-set_override now table other fields db h =
    let row =
      merge_fields fields (or_default (lookup table db.overrides) (blank_override now table)) in
    ground (arith, lookup-insert table other row db.overrides)

merged_valid :
    (fields : Fields) (o : ExtractOverride)
    → bad_strategy fields ≡ false
    → valid_strategy o.window_strategy ≡ true
    → valid_strategy (merge_fields fields o).window_strategy ≡ true
unfolding bad_strategy merge_fields
merged_valid fields o good old = ground arith

accepted_good :
    (now : ℕ) (table : String) (fields : Fields) (db : Db) {db' : Db}
    → set_override now table fields db ≡ ok db'
    → bad_strategy fields ≡ false
unfolding set_override
accepted_good now table fields db h = ground arith

existing_valid :
    (now : ℕ) (table : String) (db : Db)
    → IsValidOverrides db
    → valid_strategy (or_default (get_override db table) (blank_override now table)).window_strategy
      ≡ true
existing_valid now table db valid = elim (Option-cases (get_override db table)) [
  | inl missing ↦ ground (arith, missing)
  | inr (o, found) ↦ ground (arith, valid table)
]

-- If every stored strategy is one that the planner knows, an accepted `set_override` keeps it so,
-- whatever fields it is given.
pub set_override-IsValidOverrides :
    (now : ℕ) (table : String) (fields : Fields) (db : Db) {db' : Db}
    → IsValidOverrides db
    → set_override now table fields db ≡ ok db'
    → IsValidOverrides db'
set_override-IsValidOverrides now table fields db valid h other =
    let existing = or_default (get_override db table) (blank_override now table) in
    ground (
      arith,
      get-set_override now table other fields db h,
      merged_valid fields existing (accepted_good now table fields db h)
          (existing_valid now table db valid),
      valid other,
    )
