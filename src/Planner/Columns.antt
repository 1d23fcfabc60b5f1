-- ===== src/Planner/Columns.antt =====
-- The columns that the planner derives from a discovered schema.
use feather_flow.Common.{
  ℕ, ◌+◌, Bool, true, false, ◌&&◌, ◌||◌, Option, none, some, List, [], ◌∷◌, any, leb, if◌then◌else◌,
  contains, String, ◌==◌, string_eq, nat_eq,
}
use feather_flow.Common.Text.{codes}

-- What the planner reads of a `StreamSchema`.
pub record StreamSchema : Type 0 where
  pub columns : List (String × String)
  pub primary_key : Option (List String)

-- `str.lower` of an ASCII letter. (No other character's lower case adds or breaks one of the
-- words that are looked for.)
lower : ℕ → ℕ
lower c = if leb b'A' c && leb c b'Z' then c + 32 else c

is_prefix : List ℕ → List ℕ → Bool
is_prefix [] text = true
is_prefix (w ∷ ws) [] = false
is_prefix (w ∷ ws) (c ∷ cs) = w == lower c && is_prefix ws cs

-- `word in text.lower()`
unfoldable pub is_infix : List ℕ → List ℕ → Bool
unfolding is_prefix lower
is_infix word [] = is_prefix word []
is_infix word (c ∷ cs) = is_prefix word (c ∷ cs) || is_infix word cs

unfoldable pub is_timestamp_type : String → Bool
unfolding is_infix
is_timestamp_type type_str =
    any (λ word. is_infix (codes word) (codes type_str))
      ("datetime" ∷ "datetime2" ∷ "date" ∷ "timestamp" ∷ "timestamptz" ∷ [])

unfoldable pub is_int_type : String → Bool
unfolding is_infix
is_int_type type_str = is_infix (codes "int") (codes type_str)

-- The first column that passes the test.
unfoldable pub first_column : (String → String → Bool) → List (String × String) → Option String
first_column p [] = none
first_column p ((name, type) ∷ rest) = if p name type then some name else first_column p rest

unfoldable pub auto_derive_timestamp_column : StreamSchema → Option String
unfolding first_column is_timestamp_type
auto_derive_timestamp_column d = first_column (λ name type. is_timestamp_type type) d.columns

unfoldable pub auto_derive_int_pk_column : StreamSchema → Option String
unfolding first_column is_int_type
auto_derive_int_pk_column d = elim d.primary_key [
  | none ↦ none
  | some pk ↦ first_column (λ name type. contains pk name && is_int_type type) d.columns
]
