-- ===== src/Curation.antt =====
-- src/feather_flow/curation.py: which source owns a database, and the names of the bronze tables.
-- A source is read here by its name and its two database attributes.
pub mod Resolution
pub mod Tests
use feather_flow.Common.{
  ℕ, ◌+◌, ◌≡◌, Bool, true, false, ◌&&◌, ◌||◌, Option, none, some, List, [], ◌∷◌, ◌++◌, leb,
  if◌then◌else◌, select, contains, map, String, ◌==◌, string_eq, nat_eq, Result, ok, err,
}
use feather_flow.Common.Text.{◌<>◌, codes}

pub record SourceConfig : Type 0 where
  pub name : String
  pub type : String
  pub database : Option String
  pub databases : Option (List String)
  pub batch_size : Option ℕ
  pub explicit_name : Bool
  pub parent_name : Option String

-- `sep.join(texts)`
unfoldable pub join : String → List String → String
join sep [] = ""
join sep (t ∷ []) = t
join sep (t ∷ u ∷ rest) = t <> sep <> join sep (u ∷ rest)

abbrev is_database : String → Option String → Bool
is_database db none = false
is_database db (some d) = d == db

abbrev is_listed : String → Option (List String) → Bool
is_listed db none = false
is_listed db (some ds) = contains ds db

-- The three rules of the loop; each appends the source once.
unfoldable pub owns : String → SourceConfig → Bool
owns source_db src =
    is_database source_db src.database
    || (is_listed source_db src.databases || src.name == source_db)

-- `_bind_db`: the child of a source that lists databases and has none set.
unfoldable pub bind_db : SourceConfig → String → SourceConfig
bind_db src source_db = elim src.databases [
  | none ↦ src
  | some [] ↦ src
  | some (d ∷ ds) ↦ elim src.database [
    | some _ ↦ src
    | none ↦ record {
      name = src.name <> "__" <> source_db;
      type = src.type;
      database = some source_db;
      databases = none;
      batch_size = src.batch_size;
      explicit_name = src.explicit_name;
      parent_name = some src.name;
    }
  ]
]

abbrev names : List SourceConfig → List String
names = map (λ s. s.name)

-- The three cases of `len(matches)`; the text of the `ValueError` is the error.
unfoldable pub choose : String → List SourceConfig → List SourceConfig → Result String SourceConfig
unfolding bind_db join
choose source_db sources [] = err (
    "source_db '"
    <> source_db
    <> "' does not match any declared source. Available sources: "
    <> join ", " (names sources))
choose source_db sources (src ∷ []) = ok (bind_db src source_db)
choose source_db sources (src ∷ other ∷ rest) = err (
    "source_db '"
    <> source_db
    <> "' is ambiguous — matches multiple sources: "
    <> join ", " (names (src ∷ other ∷ rest)))

unfoldable pub resolve_source : String → List SourceConfig → Result String SourceConfig
unfolding choose
resolve_source source_db sources = choose source_db sources (select (owns source_db) sources)
