-- ===== src/Lifecycle.antt =====
-- packages/feather-cdc-postgres/src/feather_cdc_postgres/lifecycle.py: the state of each relation of
-- a registration. The destination's table of states and the events of the run are kept beside the
-- copy in memory; a run is always there.
pub mod Paths
mod Tests
use feather_flow.Common.{
  ◌≡◌, Bool, true, false, not, Option, none, some, List, [], ◌∷◌, ◌++◌, contains, if◌then◌else◌,
  String, ◌==◌, string_eq, pair_eq, Result, ok, err, ◌>>=◌, ◌>>◌, raise_if,
}
use feather_flow.Common.Dict.{Dict, lookup, insert}

abbrev pub known_states : List String
known_states =
    "discovered" ∷ "snapshotting" ∷ "catching_up" ∷ "streaming" ∷ "drift_review"
    ∷ "resnapshot_required" ∷ "retired" ∷ []

-- `ALLOWED`; a key that is not there is a KeyError.
unfoldable pub allowed_from : String → Option (List String)
allowed_from current =
    if current == "discovered"
    then some ("snapshotting" ∷ "catching_up" ∷ "retired" ∷ [])
    else if current == "snapshotting"
    then some ("catching_up" ∷ "streaming" ∷ "resnapshot_required" ∷ "retired" ∷ [])
    else if current == "catching_up"
    then some ("streaming" ∷ "drift_review" ∷ "resnapshot_required" ∷ "retired" ∷ [])
    else if current == "streaming"
    then some ("catching_up" ∷ "drift_review" ∷ "resnapshot_required" ∷ "retired" ∷ [])
    else if current == "drift_review"
    then some ("resnapshot_required" ∷ "retired" ∷ [])
    else if current == "resnapshot_required"
    then some ("snapshotting" ∷ "retired" ∷ [])
    else if current == "retired"
    then some ("discovered" ∷ [])
    else none

unfoldable pub allowed : Option String → Option (List String)
unfolding allowed_from
allowed none = some ("discovered" ∷ "snapshotting" ∷ "streaming" ∷ [])
allowed (some current) = allowed_from current

pub data LifecycleError : Type 0 where
  unknown_state illegal_transition key_error : LifecycleError

abbrev pub Relation : Type 0
Relation = String × String

pub record Event : Type 0 where
  pub entity : Relation
  pub previous : Option String
  pub next : String
  pub detail : Option String

pub record Lifecycle : Type 0 where
  -- `self._states`
  pub states : Dict Relation String
  -- the rows of the registration in the destination, without their times and details
  pub stored : Dict Relation String
  pub events : List Event

unfoldable pub state_of : Relation → Lifecycle → Option String
state_of relation l = lookup relation l.states

abbrev pub moved : Relation → String → Option String → Lifecycle → Lifecycle
moved relation new_state detail l = record {
  states = insert relation new_state l.states;
  stored = insert relation new_state l.stored;
  events =
      l.events
      ++ (record {
        entity = relation;
        previous = lookup relation l.states;
        next = new_state;
        detail = detail;
      }
          ∷ []);
}

abbrev pub checked_move :
    Option (List String)
    → Relation
    → String
    → Option String
    → Lifecycle
    → Result LifecycleError Lifecycle
checked_move none relation new_state detail l = err key_error
checked_move (some targets) relation new_state detail l = do
  raise_if (not (contains targets new_state)) illegal_transition
  ok (moved relation new_state detail l)

unfoldable pub transition :
    Relation → String → Option String → Lifecycle → Result LifecycleError Lifecycle
transition relation new_state detail l = do
  raise_if (not (contains known_states new_state)) unknown_state
  checked_move (allowed (state_of relation l)) relation new_state detail l

abbrev pub is_state : String → Option String → Bool
is_state s none = false
is_state s (some t) = t == s

unfoldable pub ensure :
    Relation → String → Option String → Lifecycle → Result LifecycleError Lifecycle
ensure relation new_state detail l =
    if is_state new_state (state_of relation l)
    then ok l
    else transition relation new_state detail l
