-- ===== src/DiscoverState/Decisions.antt =====
-- The decision for each name.
use feather_flow.Common.{
  ◌≡◌, refl, ap, ◌∙◌, Bool, true, false, not, ◌&&◌, Option, none, some, List, [], ◌∷◌,
  if◌then◌else◌, contains, String, ◌==◌, string_eq, arith, or_default, Bool-cases, inl, inr,
}
use feather_flow.Common.Dict.{Dict, lookup, insert, has, keys, lookup-insert, has-contains}
use feather_flow.DiscoverState.{Entry, Sources, decide, decide_current, decide_removed, classify}

lookup-decide_current :
    (flag : Option String) (sources : Sources) (names : List String) (d : Dict String String)
    (name : String)
    → lookup name (decide_current flag sources names d)
      ≡ (if contains names name then some (decide flag (lookup name sources)) else lookup name d)
unfolding decide_current
lookup-decide_current flag sources [] d name = refl
lookup-decide_current flag sources (n ∷ names) d name =
    lookup-decide_current flag sources names (insert n (decide flag (lookup n sources)) d) name
    ∙ ap (λ o. if contains names name then some (decide flag (lookup name sources)) else o)
        (lookup-insert n name (decide flag (lookup n sources)) d)
    ∙ ground (
      arith,
      string_eq.decides n name,
      ap (λ m. decide flag (lookup m sources)) {x = n} {y = name},
    )

lookup_if :
    (b : Bool) (n name : String) (d : Dict String String)
    → lookup name (if b then d else insert n "removed" d)
      ≡ (if not b && n == name then some "removed" else lookup name d)
lookup_if true n name d = refl
lookup_if false n name d = lookup-insert n name "removed" d

lookup_empty : (name : String) → lookup {V = String} name [] ≡ none
unfolding lookup
lookup_empty name = refl

lookup-decide_removed :
    (current names : List String) (d : Dict String String) (name : String)
    → lookup name (decide_removed current names d) ≡ (
        if contains names name && not (contains current name)
        then some "removed"
        else lookup name d)
unfolding decide_removed
lookup-decide_removed current [] d name = refl
lookup-decide_removed current (n ∷ names) d name =
    lookup-decide_removed current names (if contains current n then d else insert n "removed" d)
      name
    ∙ ground (
      arith,
      lookup-insert n name "removed" d,
      lookup_if (contains current n) n name d,
      string_eq.decides n name,
      ap (contains current) {x = n} {y = name},
    )

-- A column of the table of decisions, by the status of the entry.
abbrev pub by_status : (ok failed other : String) → String → String
by_status ok failed other status =
    if status == "ok" then ok else if status == "failed" then failed else other

abbrev by_flag : Option String → String → String
by_flag none status = by_status "cached" "retry" "rerun" status
by_flag (some f) status =
    if f == "refresh"
    then "rerun"
    else if f == "retry-failed"
    then by_status "skip" "retry" "skip" status
    else if f == "prune"
    then by_status "skip" "skip" "skip" status
    else by_status "cached" "retry" "rerun" status

-- The table of decisions: new where there is no entry, and else by the flag and the status, which
-- is ok where the entry has none.
abbrev pub expected : Option String → Option Entry → String
expected flag none = "new"
expected flag (some e) = by_flag flag (or_default e.status "ok")

apart : (s : String) → ((s == "ok") && (s == "failed")) ≡ false
apart s = elim (Bool-cases (s == "ok")) [
  | inl e ↦ ap (λ x. (x == "ok") && (x == "failed")) ((string_eq.decides s "ok").0 e)
  | inr e ↦ ap (λ b. b && (s == "failed")) e
]

abbrev by_bits : String → String → String → Bool → Bool → String
by_bits a b c ok failed = if ok then a else if failed then b else c

abbrev decision : Bool → Bool → Bool → String → String → String → String
decision refresh retry prune tried pruned other =
    if refresh then "rerun" else if retry then tried else if prune then pruned else other

retried :
    (refresh retry prune ok failed : Bool)
    → (ok && failed) ≡ false
    → decision refresh retry prune
        (if failed then "retry" else "skip")
        "skip"
        (if ok then "cached" else if failed then "retry" else "rerun")
      ≡ decision refresh retry prune
          (by_bits "skip" "retry" "skip" ok failed)
          (by_bits "skip" "skip" "skip" ok failed)
          (by_bits "cached" "retry" "rerun" ok failed)
retried true retry prune ok failed h = refl
retried false true prune true true h = cc
retried false true prune true false h = refl
retried false true prune false failed h = refl
retried false false true true failed h = refl
retried false false true false true h = refl
retried false false true false false h = refl
retried false false false ok failed h = refl

decided : (flag : Option String) (o : Option Entry) → decide flag o ≡ expected flag o
unfolding decide
decided none none = refl
decided (some f) none = refl
decided none (some e) = refl
decided (some f) (some e) =
    let status = or_default e.status "ok" in
    retried (f == "refresh") (f == "retry-failed") (f == "prune") (status == "ok")
      (status == "failed") (apart status)

-- A name of the configuration gets the decision of the table for its entry, whatever else is
-- configured: `new` without an entry; with the flag `refresh` always `rerun`, with `retry-failed`
-- `retry` for a failed one and else `skip`, with `prune` always `skip`, and otherwise `cached`,
-- `retry` or `rerun` for the statuses ok, failed and any other. A name that has an entry and is not
-- in the configuration is `removed`; no other name gets a decision.
pub classify_decides :
    (sources : Sources) (current : List String) (flag : Option String) (name : String)
    → lookup name (classify sources current flag) ≡ (
        if contains current name
        then some (expected flag (lookup name sources))
        else if has sources name
        then some "removed"
        else none)
unfolding classify
classify_decides sources current flag name =
    lookup-decide_removed current (keys sources) (decide_current flag sources current []) name
    ∙ ground (
      arith,
      lookup-decide_current flag sources current [] name,
      has-contains sources name,
      lookup_empty name,
      decided flag (lookup name sources),
    )
