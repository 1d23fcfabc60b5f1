-- ===== src/Lifecycle/Paths.antt =====
-- Sequences of transitions.
use feather_flow.Common.{
  ◌≡◌, false, ap, sym, ◌∙◌, Bool, true, Option, some, List, [], ◌∷◌, contains, any, ◌&&◌, ◌||◌,
  if◌then◌else◌, String, ◌==◌, ==_refl, string_eq, pair_eq, Result, ok, ◌>>=◌, >>=-eq-ok, arith,
  none, Bool-cases, Option-cases, or_default, inl, inr,
}
use feather_flow.Common.Dict.{lookup, lookup-insert}
use feather_flow.Lifecycle.{
  Relation, Lifecycle, LifecycleError, allowed, allowed_from, state_of, moved, transition, ensure,
  is_state,
}

-- A successful transition is an edge of the table and changes the state of its relation alone, in
-- the memory's copy as in the destination.
transition-ok :
    (relation : Relation) (new_state : String) (detail : Option String) (l l' : Lifecycle)
    → transition relation new_state detail l ≡ ok l'
    → (targets : List String) × (allowed (state_of relation l) ≡ some targets)
      × (contains targets new_state ≡ true)
      × (l' ≡ moved relation new_state detail l)
unfolding transition
transition-ok relation new_state detail l l' h =
    elim (Option-cases (allowed (state_of relation l))) [
      | inl missing ↦ grind (arith, missing, h)
      | inr (targets, k) ↦ (targets, k, grind (arith, k, h), grind (arith, k, h))
    ]

moved_state :
    (other relation : Relation) (new_state : String) (detail : Option String) (l l' : Lifecycle)
    → l' ≡ moved other new_state detail l
    → state_of relation l' ≡ (if other == relation then some new_state else state_of relation l)
unfolding state_of
moved_state other relation new_state detail l l' e =
    ap (state_of relation) e ∙ lookup-insert other relation new_state l.states

-- After a successful transition the relation has the new state and every other relation its old
-- one, in the copy that is kept in memory; if the destination's rows agreed with that copy, they
-- agree with it still.
pub transition_mirrored :
    (relation other : Relation) (new_state : String) (detail : Option String) (l l' : Lifecycle)
    → transition relation new_state detail l ≡ ok l'
    → lookup other l.stored ≡ lookup other l.states
    → (state_of other l' ≡ (if relation == other then some new_state else state_of other l))
      × (lookup other l'.stored ≡ lookup other l'.states)
unfolding state_of
transition_mirrored relation other new_state detail l l' h same =
    let (_, _, _, e) = transition-ok relation new_state detail l l' h in
    (
      ap (state_of other) e ∙ lookup-insert relation other new_state l.states,
      ap (λ m. lookup other m.stored) e
          ∙ lookup-insert relation other new_state l.stored
          ∙ ap (λ s. if relation == other then some new_state else s) same
          ∙ sym (lookup-insert relation other new_state l.states)
          ∙ sym (ap (λ m. lookup other m.states) e),
    )

-- An accepted `ensure` can be repeated, with any detail: it changes nothing and adds no event.
pub ensure_again :
    (relation : Relation) (new_state : String) (detail again : Option String) (l l' : Lifecycle)
    → ensure relation new_state detail l ≡ ok l'
    → ensure relation new_state again l' ≡ ok l'
unfolding ensure
ensure_again relation new_state detail again l l' h =
    elim (Bool-cases (is_state new_state (state_of relation l))) [
      | inl there ↦ grind (arith, there, h)
      | inr moves ↦
          let made : transition relation new_state detail l ≡ ok l' =
            sym (ap (λ b. if b then ok l else transition relation new_state detail l) moves) ∙ h in
          let (_, _, _, e) = transition-ok relation new_state detail l l' made in
          let now_there = moved_state relation relation new_state detail l l' e in
          let there : state_of relation l' ≡ some new_state =
            now_there
            ∙ ap (λ b. if b then some new_state else state_of relation l) (==_refl relation) in
          ap (λ o. if is_state new_state o then ok l' else transition relation new_state again l')
            there
          ∙ ap (λ b. if b then ok l' else transition relation new_state again l')
              (==_refl new_state)
    ]

apart_states :
    {b : Bool} → ◌≡◌ {A = Option String} (some "drift_review") (some "streaming") → b ≡ true
apart_states h = cc h

own_state :
    (other relation : Relation) (l : Lifecycle) {s : Option String}
    → (other == relation) ≡ true
    → state_of relation l ≡ s
    → state_of other l ≡ s
own_state other relation l own h =
    ap (λ r. state_of r l) ((pair_eq.decides other relation).0 own) ∙ h

listed_exit :
    (s : String)
    → contains ("resnapshot_required" ∷ "retired" ∷ []) s ≡ true
    → (s == "resnapshot_required" || s == "retired") ≡ true
listed_exit s h = ground (
  arith,
  string_eq.decides "resnapshot_required" s,
  string_eq.decides s "resnapshot_required",
  string_eq.decides "retired" s,
  string_eq.decides s "retired",
)

-- The edges out of `drift_review`.
review_exits :
    (targets : List String) (s : String)
    → allowed (some "drift_review") ≡ some targets
    → contains targets s ≡ true
    → (s == "resnapshot_required" || s == "retired") ≡ true
unfolding allowed allowed_from
review_exits targets s h k = listed_exit s (ap (λ o. contains (or_default o []) s) h ∙ k)

abbrev pub Step : Type 0
Step = Relation × String × Option String

-- Transitions that all succeed.
unfoldable pub follow : List Step → Lifecycle → Result LifecycleError Lifecycle
follow [] l = ok l
follow ((relation, new_state, detail) ∷ steps) l = do
  moved_on ← transition relation new_state detail l
  follow steps moved_on

-- A step by which a relation leaves the review of its drift.
abbrev pub is_exit : Relation → Step → Bool
is_exit relation (other, new_state, detail) =
    other == relation && (new_state == "resnapshot_required" || new_state == "retired")

-- A relation under review of its drift streams again only after a transition of its own to
-- `resnapshot_required` or to `retired`, whatever transitions of it and of others are made.
pub drift_review_held :
    (relation : Relation) (steps : List Step) (l l' : Lifecycle)
    → follow steps l ≡ ok l'
    → state_of relation l ≡ some "drift_review"
    → state_of relation l' ≡ some "streaming"
    → any (is_exit relation) steps ≡ true
unfolding follow
drift_review_held relation [] l l' h review streaming =
    apart_states (sym review ∙ ap (state_of relation) (cc h) ∙ streaming)
drift_review_held relation ((other, new_state, detail) ∷ steps) l l' h review streaming =
    let (mid, k, rest) = >>=-eq-ok (transition other new_state detail l) (follow steps) h in
    let (targets, found, listed, e) = transition-ok other new_state detail l mid k in
    let later = moved_state other relation new_state detail l mid e in
    elim (Bool-cases (other == relation)) [
      | inl own ↦ ground (
        arith,
        own,
        review_exits targets new_state
            (sym (ap allowed (own_state other relation l own review)) ∙ found) listed,
      )
      | inr unlike ↦ ground (
        arith,
        drift_review_held relation steps mid l' rest (later ∙ ground (arith, unlike, review))
            streaming,
      )
    ]

is_state-equal : (s : String) (o : Option String) → is_state s o ≡ true → o ≡ some s
is_state-equal s none h = cc
is_state-equal s (some t) h = ap some ((string_eq.decides t s).0 h)

the_lifecycle : (a b : Lifecycle) → Path (Result LifecycleError Lifecycle) (ok a) (ok b) → a ≡ b
the_lifecycle a b h = cc

-- What is ensured is the state afterwards.
pub state_of-ensure :
    (relation : Relation) (new_state : String) (detail : Option String) (l l' : Lifecycle)
    → ensure relation new_state detail l ≡ ok l'
    → state_of relation l' ≡ some new_state
unfolding ensure
state_of-ensure relation new_state detail l l' h =
    let test = λ (b : Bool). if b then ok l else transition relation new_state detail l in
    elim (Bool-cases (is_state new_state (state_of relation l))) [
      | inl there ↦
          ap (state_of relation) (sym (the_lifecycle l l' (sym (ap test there) ∙ h)))
          ∙ is_state-equal new_state (state_of relation l) there
      | inr moves ↦
          let (_, _, _, e) =
            transition-ok relation new_state detail l l' (sym (ap test moves) ∙ h) in
          moved_state relation relation new_state detail l l' e
          ∙ ap (λ b. if b then some new_state else state_of relation l) (==_refl relation)
    ]

-- What is ensured of a relation leaves the states of the others.
pub state_of-other :
    (relation other : Relation) (new_state : String) (detail : Option String) (l l' : Lifecycle)
    → ensure relation new_state detail l ≡ ok l'
    → (relation == other) ≡ false
    → state_of other l' ≡ state_of other l
unfolding ensure
state_of-other relation other new_state detail l l' h apart =
    let test = λ (b : Bool). if b then ok l else transition relation new_state detail l in
    elim (Bool-cases (is_state new_state (state_of relation l))) [
      | inl there ↦ ap (state_of other) (sym (the_lifecycle l l' (sym (ap test there) ∙ h)))
      | inr moves ↦
          let (_, _, _, e) =
            transition-ok relation new_state detail l l' (sym (ap test moves) ∙ h) in
          moved_state relation other new_state detail l l' e
          ∙ ap (λ b. if b then some new_state else state_of other l) apart
    ]
