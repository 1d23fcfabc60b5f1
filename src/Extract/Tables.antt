-- ===== src/Extract/Tables.antt =====
-- The loop over the tables, and what precedes it.
use feather_flow.Common.{
  Bool, true, false, is_some, not, ◌&&◌, or_default, some, List, [], ◌∷◌, map, if◌then◌else◌,
  length, ltb, String, ok, err,
}
use feather_flow.Common.Action.{Action, pure, gets, lift, modify, ◌>>=◌, ◌>>◌}
use feather_flow.Common.Text.{◌<>◌, str_nat}
use feather_flow.Curation.{SourceConfig, resolve_source, join}
use feather_flow.Destination.{World}
use feather_flow.State.{Db}
use feather_flow.State.Meta.{init_state}
use feather_flow.State.WindowLog.{clear_all_windows, get_all_window_table_names}
use feather_flow.Extract.{
  Source, TableConfig, ExtractResult, Options, Texts, source_db_of, failed, text_err, fail_table,
  extract_from,
}

-- `not names`
abbrev pub is_empty : List String → Bool
is_empty [] = true
is_empty (n ∷ ns) = false

-- The sample in the text of the check for a missing destination.
abbrev first_three : List String → List String
first_three (a ∷ b ∷ c ∷ rest) = a ∷ b ∷ c ∷ []
first_three names = names

abbrev pub orphan_text : List String → String
orphan_text orphans =
    "feather_data.duckdb does not exist but _extract_windows has "
    <> str_nat (length orphans)
    <> " table(s) with committed windows ("
    <> join ", " (first_three orphans)
    <> (if ltb 3 (length orphans) then "..." else "")
    <> "). State and destination are out of sync — rerun with --refresh-all to clear the commit log and re-extract from scratch."

module _ {Row : Type 0} (holds : String → Row → Bool) (texts : Texts)
    (open_source : SourceConfig → Source Row) where
  -- The body of the loop over the tables.
  unfoldable pub extract_table :
      Options → List SourceConfig → TableConfig → Action (World Row) String ExtractResult
  extract_table options sources table = elim (resolve_source (source_db_of table) sources) [
    | err e ↦ fail_table holds texts table e
    | ok config ↦ extract_from holds texts options table (open_source config)
  ]

  unfoldable pub extract_tables :
      Options
      → List SourceConfig
      → List TableConfig
      → Action (World Row) String (List ExtractResult)
  extract_tables options sources [] = pure []
  extract_tables options sources (table ∷ rest) = do
    result ← extract_table options sources table
    others ← extract_tables options sources rest
    pure (result ∷ others)

  abbrev begin : Options → Db → Db
  begin options db = if options.refresh_all then clear_all_windows db else db

  -- What follows the check for a missing destination.
  abbrev proceed :
      Options
      → List SourceConfig
      → List TableConfig
      → Action (World Row) String (List ExtractResult)
  proceed options sources tables = do
    modify (λ w. record w { bronze = some (or_default w.bronze []) })
    extract_tables options sources tables

  unfoldable pub run_extract :
      Options
      → List SourceConfig
      → List TableConfig
      → Action (World Row) String (List ExtractResult)
  run_extract options sources tables = do
    db ← gets (λ w. w.db)
    ready ← lift (text_err texts.meta_error (init_state db))
    modify (λ w. record w { db = begin options ready })
    missing ← gets (λ w. not (is_some w.bronze))
    orphans ← gets (λ w. get_all_window_table_names w.db)
    (if missing && (not (is_empty orphans) && not options.refresh_all)
        then pure (map (λ t. failed t (orphan_text orphans)) tables)
        else proceed options sources tables)
