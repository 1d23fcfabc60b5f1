-- ===== src/Curation/Resolution.antt =====
-- `resolve_source`: one owner or an error.
use feather_flow.Common.{
  ◌≡◌, refl, ap, sym, ◌∙◌, Bool, true, List, [], ◌∷◌, select, length, String, string_eq, ==_refl,
  ok, arith, all,
}
use feather_flow.Curation.{SourceConfig, owns, bind_db, choose, resolve_source}

all-select : {A : Type 0} (p : A → Bool) (xs : List A) → all p (select p xs) ≡ true
all-select p [] = refl
all-select p (x ∷ xs) = ground (arith, all-select p xs)

bound_owns :
    (src : SourceConfig) (db : String) → owns db src ≡ true → owns db (bind_db src db) ≡ true
unfolding owns bind_db
bound_owns src db h = ground (arith, h, ==_refl db)

chosen :
    (source_db : String) (sources owners : List SourceConfig) (config : SourceConfig)
    → all (owns source_db) owners ≡ true
    → choose source_db sources owners ≡ ok config
    → (owns source_db config ≡ true) × (length owners ≡ 1)
unfolding choose
chosen source_db sources [] config o h = cc
chosen source_db sources (src ∷ []) config o h =
    let same : bind_db src source_db ≡ config = cc h in
    (ap (owns source_db) (sym same) ∙ bound_owns src source_db (ground (arith, o)), refl)
chosen source_db sources (src ∷ other ∷ rest) config o h = cc

-- A name that resolves has one owner among the sources, and the source that is given for it owns
-- it too, bound to it or as it is declared.
resolved_owner :
    (source_db : String) (sources : List SourceConfig) (config : SourceConfig)
    → resolve_source source_db sources ≡ ok config
    → (owns source_db config ≡ true) × (length (select (owns source_db) sources) ≡ 1)
unfolding resolve_source
resolved_owner source_db sources config h =
    chosen source_db sources (select (owns source_db) sources) config
      (all-select (owns source_db) sources) h
