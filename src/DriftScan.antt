-- ===== src/DriftScan.antt =====
-- packages/feather-cdc-postgres/src/feather_cdc_postgres/drift.py: what the scan of a run does about
-- the drift of each relation. The signatures are those that the destination holds of the
-- registration; an event keeps its entity, its status, its unit and its action.
pub mod Untouched
pub mod Held
mod Tests
use feather_flow.Common.{
  ℕ, nat_eq, Bool, true, false, not, ◌&&◌, Option, none, some, List, [], ◌∷◌, ◌++◌, map, any,
  select, contains, String, ◌==◌, string_eq, pair_eq, if◌then◌else◌, or_default, Result, ok, err,
}
use feather_flow.Common.Action.{Action, pure, throw, gets, modify, ◌>>=◌, ◌>>◌}
use feather_flow.Common.Dict.{Dict, lookup, insert}
use feather_flow.Common.Sets.{sort, distinct}
use feather_flow.Common.Text.{◌<>◌}
use feather_flow.Selection.{SourceRelation, Relation, qualified}
use feather_flow.Lifecycle.{Lifecycle, LifecycleError, state_of, ensure}
use feather_flow.Publication.{Name}
use feather_flow.SchemaRegistry.{Signature, Drift, project_signature, classify_drift}

pub record ScanEvent : Type 0 where
  pub entity : String
  pub status : String
  pub unit : String
  pub action : String

-- The part of the configuration that names denied columns.
pub record Denials : Type 0 where
  pub deny_columns : Dict Name (List String)
  pub deny_attnums : Dict ℕ (List ℕ)

-- What the scan writes and what stays, however it ends: the destination's signatures, the states of
-- the relations and the events of the run.
pub record Lasting : Type 0 where
  pub signatures : Dict Name Signature
  pub lifecycle : Lifecycle
  pub events : List ScanEvent

pub record DriftOutcome : Type 0 where
  pub blocked : List Name
  pub review : List Name
  pub drifts : Dict Name (List Drift)

-- The state of the loop: what lasts and the fields of `out`, which is a local variable.
pub record Scan : Type 0 where
  pub signatures : Dict Name Signature
  pub lifecycle : Lifecycle
  pub events : List ScanEvent
  pub blocked : List Name
  pub review : List Name
  pub drifts : Dict Name (List Drift)

abbrev breaking_kinds : List String
breaking_kinds = "drop_column" ∷ "rename_column" ∷ "type_incompatible" ∷ []

abbrev new_column_kinds : List String
new_column_kinds = "add_nullable_column" ∷ "add_not_null_column" ∷ "rename_column" ∷ []

abbrev baseline_pending : List String
baseline_pending = "snapshotting" ∷ "retired" ∷ "discovered" ∷ []

abbrev pub relation_pair : Relation → Name
relation_pair rel = (rel.schema, rel.table)

abbrev denied_by_number : Denials → Option SourceRelation → List String
denied_by_number cfg none = []
denied_by_number cfg (some src) =
    let attnums = or_default (lookup src.oid cfg.deny_attnums) [] in
    map (λ c. c.name) (select (λ c. contains attnums c.attnum) src.columns)

-- `_denied`
unfoldable pub denied_of :
    (String → String → Bool) → Denials → Relation → Option SourceRelation → List String
denied_of before cfg rel src = sort before (
    distinct (
      rel.deny_columns
      ++ (or_default (lookup (relation_pair rel) cfg.deny_columns) [] ++ denied_by_number cfg src)))

abbrev is_pending : Option String → Bool
is_pending none = false
is_pending (some state) = contains baseline_pending state

abbrev pub baseline_due : Name → Scan → Bool
baseline_due pair s = is_pending (state_of pair s.lifecycle)

abbrev pub has_kind : String → List Drift → Bool
has_kind kind ds = contains (map (λ d. d.kind) ds) kind

abbrev any_kind : List String → List Drift → Bool
any_kind kinds ds = any (λ k. has_kind k ds) kinds

abbrev has_any : List String → Bool
has_any [] = false
has_any (x ∷ xs) = true

abbrev write_signature : Name → Signature → Scan → Scan
write_signature pair sig s = record s { signatures = insert pair sig s.signatures }

abbrev emit_event : Relation → String → String → String → Scan → Scan
emit_event rel status unit action s = record s {
  events =
      s.events
      ++ (record {
        entity = qualified rel.schema rel.table;
        status = status;
        unit = unit;
        action = action;
      }
          ∷ []);
}

abbrev add_review : Name → Scan → Scan
add_review pair s = record s { review = pair ∷ s.review }

abbrev pub block : Name → Scan → Scan
block pair s = record s { blocked = pair ∷ s.blocked }

abbrev note_drifts : Name → List Drift → Scan → Scan
note_drifts pair ds s = record s { drifts = insert pair ds s.drifts }

abbrev ensure_result : Result LifecycleError Lifecycle → Action Scan LifecycleError Unit
ensure_result (ok l) = modify (λ s. record s { lifecycle = l })
ensure_result (err e) = throw e

-- `lc.ensure`
abbrev pub ensure_state : Relation → String → String → Action Scan LifecycleError Unit
ensure_state rel state detail = do
  l ← gets (λ s. s.lifecycle)
  ensure_result (ensure (relation_pair rel) state (some detail) l)

-- A baseline is due: it rebuilds the copy in the new shape.
abbrev superseded : Relation → Signature → Action Scan LifecycleError Unit
superseded rel new = do
  modify (write_signature (relation_pair rel) new)
  modify (emit_event rel "ok" "schema_drift" "superseded_by_baseline")

-- The old signature stands.
abbrev pub block_key_change : Relation → Action Scan LifecycleError Unit
block_key_change rel = do
  modify (block (relation_pair rel))
  modify (emit_event rel "error" "schema_drift" "publication_removed")
  ensure_state rel "resnapshot_required" "key change"

-- The old signature stands here too.
abbrev withhold : Relation → Action Scan LifecycleError Unit
withhold rel = do
  modify (add_review (relation_pair rel))
  modify (emit_event rel "error" "deny_columns" "withheld_pending_review")
  ensure_state rel "drift_review" "new column on a denied table"

abbrev joined : List String → String
joined [] = ""
joined (k ∷ []) = k
joined (k ∷ l ∷ ks) = k <> ", " <> joined (l ∷ ks)

-- The kinds are listed in the order of their names.
abbrev breaking_of : List Drift → List String
breaking_of ds = select (λ k. has_kind k ds) breaking_kinds

abbrev review_breaking : Relation → List Drift → Action Scan LifecycleError Unit
review_breaking rel ds = do
  modify (add_review (relation_pair rel))
  modify (emit_event rel "error" "schema_drift" "kept_loading")
  ensure_state rel "drift_review" (joined (breaking_of ds))

abbrev evolve : Relation → Signature → List Drift → Action Scan LifecycleError Unit
evolve rel new ds = do
  modify (write_signature (relation_pair rel) new)
  if has_any (breaking_of ds)
      then review_breaking rel ds
      else modify (emit_event rel "ok" "schema_drift" "auto_evolved")

-- Whether a baseline is due, the key has changed, and a new column is to be withheld.
abbrev pub chosen_action :
    Bool → Bool → Bool → Relation → Signature → List Drift → Action Scan LifecycleError Unit
chosen_action true key_changed withheld rel new ds = superseded rel new
chosen_action false true withheld rel new ds = block_key_change rel
chosen_action false false true rel new ds = withhold rel
chosen_action false false false rel new ds = evolve rel new ds

abbrev pub is_withheld : List String → List Drift → Bool
is_withheld own ds = any_kind new_column_kinds ds && has_any own

-- What is done about the drifts of a relation; a write of an equal signature changes nothing.
unfoldable pub act_on :
    Relation → Signature → List String → List Drift → Action Scan LifecycleError Unit
act_on rel new own [] = modify (write_signature (relation_pair rel) new)
act_on rel new own (d ∷ ds) = do
  modify (note_drifts (relation_pair rel) (d ∷ ds))
  pending ← gets (baseline_due (relation_pair rel))
  chosen_action pending (has_kind "key_change" (d ∷ ds)) (is_withheld own (d ∷ ds)) rel new (d ∷ ds)

module _ (before : String → String → Bool) (cfg : Denials)
    (sources : Dict String SourceRelation) where
  abbrev pub own_denials : Relation → List String
  own_denials rel = denied_of before cfg rel (lookup (qualified rel.schema rel.table) sources)

  abbrev pub drifts_since : Option Signature → Signature → List String → List Drift
  drifts_since none new own = []
  drifts_since (some old) new own = classify_drift before (project_signature old own) new

  -- A round of the loop; `stored` are the signatures that were read before it.
  abbrev pub scan_found :
      Dict Name Signature → Relation → Option Signature → Action Scan LifecycleError Unit
  scan_found stored rel none = pure tt
  scan_found stored rel (some new) =
      let own = own_denials rel in
      act_on rel new own (drifts_since (lookup (relation_pair rel) stored) new own)

  unfoldable pub scan_loop :
      Dict Name Signature → Dict Name Signature → List Relation → Action Scan LifecycleError Unit
  scan_loop stored sigs [] = pure tt
  scan_loop stored sigs (rel ∷ rels) = do
    scan_found stored rel (lookup (relation_pair rel) sigs)
    scan_loop stored sigs rels

  abbrev pub scan_start : Lasting → Scan
  scan_start k = record {
    signatures = k.signatures;
    lifecycle = k.lifecycle;
    events = k.events;
    blocked = [];
    review = [];
    drifts = [];
  }

  abbrev pub lasting : Scan → Lasting
  lasting s = record { signatures = s.signatures; lifecycle = s.lifecycle; events = s.events }

  -- An exception loses the outcome.
  abbrev pub outcome_or :
      Result LifecycleError (Unit {0}) → Scan → Result LifecycleError DriftOutcome
  outcome_or (ok u) s = ok (record { blocked = s.blocked; review = s.review; drifts = s.drifts })
  outcome_or (err e) s = err e

  -- The loop of `scan` over its relations, whose fresh signatures are `sigs`.
  unfoldable pub scan_relations :
      Dict Name Signature → List Relation → Action Lasting LifecycleError DriftOutcome
  scan_relations sigs rels k =
      let (r, s) = scan_loop k.signatures sigs rels (scan_start k) in (outcome_or r s, lasting s)
