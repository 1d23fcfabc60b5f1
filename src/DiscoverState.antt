-- ===== src/DiscoverState.antt =====
-- src/feather_flow/discover_state.py: what earlier runs of `feather discover` found of each source.
-- An entry is read by its status, fingerprint, count of attempts and paths; a time is a text that
-- the caller reads from the clock.
pub mod Decisions
pub mod Renames
mod Tests
use feather_flow.Common.{
  ℕ, ◌+◌, ◌≡◌, Bool, true, false, not, ◌&&◌, ◌||◌, Option, none, some, or_default, List, [], ◌∷◌,
  if◌then◌else◌, select, length, contains, String, ◌==◌, string_eq, nat_eq,
}
use feather_flow.Common.Dict.{Dict, lookup, insert, adjust, has, keys}

pub record Entry : Type 0 where
  pub type : String
  pub host : Option String
  pub database : Option String
  pub fingerprint : Option String
  -- `entry.get("status", "ok")`: absent in a file of an earlier version
  pub status : Option String
  pub discovered_at : Option String
  pub table_count : Option ℕ
  pub output_path : Option String
  pub attempted_at : Option String
  pub error : Option String
  pub attempt_count : Option ℕ
  pub removed_detected_at : Option String
  pub orphaned_detected_at : Option String
  pub note : Option String

abbrev pub Sources : Type 0
Sources = Dict String Entry

-- The arguments that `record_ok` and `record_failed` share.
pub record Found : Type 0 where
  pub type : String
  pub fingerprint : String
  pub host : Option String
  pub database : Option String

abbrev blank : Found → Entry
blank f = record {
  type = f.type;
  host = f.host;
  database = f.database;
  fingerprint = some f.fingerprint;
  status = none;
  discovered_at = none;
  table_count = none;
  output_path = none;
  attempted_at = none;
  error = none;
  attempt_count = none;
  removed_detected_at = none;
  orphaned_detected_at = none;
  note = none;
}

unfoldable pub record_ok : String → Found → ℕ → String → String → Sources → Sources
record_ok name found table_count output_path now sources =
    insert name
      (record (blank found) {
        status = some "ok";
        discovered_at = some now;
        table_count = some table_count;
        output_path = some output_path;
      })
      sources

abbrev attempts_of : Option Entry → ℕ
attempts_of none = 0
attempts_of (some e) = or_default e.attempt_count 0

unfoldable pub record_failed : String → Found → String → String → Sources → Sources
record_failed name found error now sources =
    insert name
      (record (blank found) {
        status = some "failed";
        attempted_at = some now;
        error = some error;
        attempt_count = some (attempts_of (lookup name sources) + 1);
      })
      sources

unfoldable pub record_removed : String → String → Sources → Sources
record_removed name now =
    adjust name (λ e. record e { status = some "removed"; removed_detected_at = some now })

abbrev noted : String → Entry → Entry
noted note e = if note == "" then e else record e { note = some note }

unfoldable pub record_orphaned : String → String → String → Sources → Sources
record_orphaned name note now =
    adjust name
      (λ e. noted note (record e { status = some "orphaned"; orphaned_detected_at = some now }))

-- The decision for a name of the configuration.
unfoldable pub decide : Option String → Option Entry → String
decide flag none = "new"
decide flag (some e) =
    let status = or_default e.status "ok" in
    elim flag [
      | some f ↦
          if f == "refresh"
          then "rerun"
          else if f == "retry-failed"
          then (if status == "failed" then "retry" else "skip")
          else if f == "prune"
          then "skip"
          else (if status == "ok"
              then "cached"
              else if status == "failed"
              then "retry"
              else "rerun")
      | none ↦ if status == "ok" then "cached" else if status == "failed" then "retry" else "rerun"
    ]

unfoldable pub decide_current :
    Option String → Sources → List String → Dict String String → Dict String String
decide_current flag sources [] decisions = decisions
decide_current flag sources (name ∷ names) decisions =
    decide_current flag sources names (insert name (decide flag (lookup name sources)) decisions)

-- `for name in state_names - set(current)`
unfoldable pub decide_removed : List String → List String → Dict String String → Dict String String
decide_removed current [] decisions = decisions
decide_removed current (name ∷ names) decisions =
    decide_removed current names
      (if contains current name then decisions else insert name "removed" decisions)

unfoldable pub classify : Sources → List String → Option String → Dict String String
unfolding decide_current decide_removed
classify sources current flag =
    decide_removed current (keys sources) (decide_current flag sources current [])

-- The names of `current`, a list of names with fingerprints.
abbrev pub current_names : List (String × String) → List String
current_names [] = []
current_names ((name, fingerprint) ∷ rest) = name ∷ current_names rest

abbrev has_status : Option String → Bool
has_status none = false
has_status (some s) = s == "ok" || (s == "removed" || s == "failed")

abbrev has_fingerprint : String → Option String → Bool
has_fingerprint fingerprint none = false
has_fingerprint fingerprint (some f) = f == fingerprint

-- The names of the eligible entries with the fingerprint.
unfoldable pub candidates : List String → String → Sources → List String
candidates current fingerprint [] = []
candidates current fingerprint ((name, entry) ∷ rest) =
    let others = candidates current fingerprint rest in
    if not (contains current name)
      && (has_status entry.status && has_fingerprint fingerprint entry.fingerprint)
    then name ∷ others
    else others

pub record RenameReport : Type 0 where
  -- old and new name
  pub proposals : List (String × String)
  pub ambiguous : List (String × List String)

-- One candidate, which is not used: the name that is proposed.
abbrev pub chosen_old : List String → List String → Option String
chosen_old (c ∷ []) (old ∷ []) = some old
chosen_old candidates available = none

abbrev pub add_used : Option String → List String → List String
add_used none used = used
add_used (some old) used = old ∷ used

abbrev pub add_rename : String → Option String → List String → RenameReport → RenameReport
add_rename new (some old) found later = record later { proposals = (old, new) ∷ later.proposals }
add_rename new none [] later = later
add_rename new none (c ∷ cs) later = record later { ambiguous = (new, c ∷ cs) ∷ later.ambiguous }

unfoldable pub rename_loop :
    Sources → List String → List (String × String) → List String → RenameReport
rename_loop sources current [] used = record { proposals = []; ambiguous = [] }
rename_loop sources current ((new, fingerprint) ∷ rest) used =
    let found = if has sources new then [] else candidates current fingerprint sources in
    let old = chosen_old found (select (λ name. not (contains used name)) found) in
    add_rename new old found (rename_loop sources current rest (add_used old used))

unfoldable pub detect_renames : Sources → List (String × String) → RenameReport
detect_renames sources current = rename_loop sources (current_names current) current []
