-- ===== src/Lifecycle/Tests.antt =====
-- Transitions of one relation.
use feather_flow.Common.{
  ◌≡◌, refl, true, none, some, List, [], ◌∷◌, any, string_eq, pair_eq, ok, err,
}
use feather_flow.Common.Dict.{lookup, insert}
use feather_flow.Lifecycle.{
  Relation, Lifecycle, allowed, allowed_from, state_of, moved, illegal_transition, transition,
  ensure,
}
use feather_flow.Lifecycle.Paths.{Step, follow, is_exit, drift_review_held}

abbrev orders : Relation
orders = ("public", "orders")

abbrev in_review : Lifecycle
in_review = record {
  states = (orders, "drift_review") ∷ [];
  stored = (orders, "drift_review") ∷ [];
  events = [];
}

abbrev again_required : Lifecycle
again_required = moved orders "resnapshot_required" none in_review

required : transition orders "resnapshot_required" none in_review ≡ ok again_required
unfolding transition state_of allowed allowed_from lookup insert
required = refl

-- No edge goes back to the stream.
refused : transition orders "streaming" none in_review ≡ err illegal_transition
unfolding transition state_of allowed allowed_from lookup
refused = refl

ensured : ensure orders "resnapshot_required" none in_review ≡ ok again_required
unfolding ensure transition state_of allowed allowed_from lookup insert
ensured = refl

abbrev back : List Step
back =
    (orders, "resnapshot_required", none)
    ∷ (orders, "snapshotting", none)
    ∷ (orders, "streaming", none)
    ∷ []

abbrev streaming_again : Lifecycle
streaming_again = moved orders "streaming" none (moved orders "snapshotting" none again_required)

followed : follow back in_review ≡ ok streaming_again
unfolding follow transition state_of allowed allowed_from lookup insert
followed = refl

end_states :
    (state_of orders in_review ≡ some "drift_review")
    × (state_of orders streaming_again ≡ some "streaming")
unfolding state_of lookup insert
end_states = (refl, refl)

drift_review_held_example : any (is_exit orders) back ≡ true
drift_review_held_example =
    drift_review_held orders back in_review streaming_again followed end_states.0 end_states.1
