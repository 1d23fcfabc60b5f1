-- ===== src/DriftScan/Tests.antt =====
-- A relation whose merge key has changed.
use feather_flow.Common.{
  ◌≡◌, Result, ok, err, refl, Bool, true, false, none, some, List, [], ◌∷◌, String, string_eq,
  nat_eq, pair_eq, contains,
}
use feather_flow.Common.Dict.{Dict, lookup, insert}
use feather_flow.Common.Sets.{sort, distinct}
use feather_flow.Selection.{Relation}
use feather_flow.Publication.{Name}
use feather_flow.Lifecycle.{
  LifecycleError, key_error, Lifecycle, state_of, allowed, allowed_from, ensure, transition,
}
use feather_flow.SchemaRegistry.{drift, Signature, retyped, classify_drift}
use feather_flow.DriftScan.{
  Lasting, DriftOutcome, Denials, relation_pair, baseline_due, act_on, denied_of, scan_loop,
  scan_relations, scan_start,
}
use feather_flow.DriftScan.Held.{key_change_held}

abbrev unsorted : String → String → Bool
unsorted a b = true

abbrev orders : Relation
orders = record {
  schema = "erp";
  table = "orders";
  key = "id" ∷ [];
  key_policy = "primary_key";
  table_class = "";
  module_name = none;
  target_schema = "";
  key_index = none;
  description = none;
  origin = none;
  deny_columns = [];
}

abbrev signed : List String → Signature
signed key = record {
  schema = "erp";
  table = "orders";
  key = key;
  replica_identity = "d";
  oid = 16384;
  columns = [];
}

abbrev no_denials : Denials
no_denials = record { deny_columns = []; deny_attnums = [] }

abbrev streaming : Lifecycle
streaming = record {
  states = (("erp", "orders"), "streaming") ∷ [];
  stored = (("erp", "orders"), "streaming") ∷ [];
  events = [];
}

abbrev before_scan : Lasting
before_scan = record {
  signatures = (("erp", "orders"), signed ("id" ∷ [])) ∷ [];
  lifecycle = streaming;
  events = [];
}

abbrev items : Relation
items = record orders { table = "items" }

abbrev fresh : Dict Name Signature
fresh = (("erp", "orders"), signed ("code" ∷ [])) ∷ []

abbrev scanned : Result LifecycleError DriftOutcome × Lasting
scanned = scan_relations unsorted no_denials [] fresh (items ∷ orders ∷ []) before_scan

abbrev outcome : DriftOutcome
outcome = record {
  blocked = ("erp", "orders") ∷ [];
  review = [];
  drifts = (("erp", "orders"), drift "key_change" none "breaking" ∷ []) ∷ [];
}

returned : scanned ≡ (ok outcome, scanned.1)
unfolding scan_relations scan_loop act_on denied_of classify_drift retyped sort distinct lookup
    insert state_of allowed allowed_from ensure transition
returned = refl

stored : lookup (relation_pair orders) before_scan.signatures ≡ some (signed ("id" ∷ []))
unfolding lookup
stored = refl

found : lookup (relation_pair orders) fresh ≡ some (signed ("code" ∷ []))
unfolding lookup
found = refl

not_due :
    baseline_due (relation_pair orders) (scan_start unsorted no_denials [] before_scan) ≡ false
unfolding state_of lookup
not_due = refl

-- A move that the table of states refuses raises, and the outcome is lost.
refused :
    (scan_relations unsorted no_denials [] fresh (orders ∷ []) (record before_scan {
      lifecycle = record streaming { states = (("erp", "orders"), "unheard") ∷ [] };
    })).0
    ≡ err key_error
unfolding scan_relations scan_loop act_on denied_of classify_drift retyped sort distinct lookup
    insert state_of allowed allowed_from ensure transition
refused = refl

key_change_held_example :
    (contains outcome.blocked (relation_pair orders) ≡ true)
    × (lookup (relation_pair orders) scanned.1.signatures ≡ some (signed ("id" ∷ [])))
    × (state_of (relation_pair orders) scanned.1.lifecycle ≡ some "resnapshot_required")
key_change_held_example =
    key_change_held unsorted no_denials [] fresh (items ∷ []) [] orders (signed ("id" ∷ []))
      (signed ("code" ∷ [])) before_scan scanned.1 outcome stored found refl not_due (refl, tt) tt
      returned
