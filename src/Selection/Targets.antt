-- ===== src/Selection/Targets.antt =====
-- selectors.py: a compiled plan without errors denies nothing and maps no two relations to one
-- table.
use feather_flow.Common.{
  ◌≡◌, refl, ap, ◌∙◌, Bool, true, false, not, ◌&&◌, ◌||◌, Option, is_some, List, [], ◌∷◌, ◌++◌, map,
  any, select, contains, String, ◌==◌, ==_refl, string_eq, if◌then◌else◌, arith,
}
use feather_flow.Common.Dict.{Dict, insert, has, lookup-insert}
use feather_flow.Selection.{
  Problem, SourceRelation, AdapterRelation, Manifest, Relation, target, qualified, qualified_of,
}
use feather_flow.Selection.Keys.{problem}
use feather_flow.Selection.Compile.{
  Python, collisions, compile, adapters, phantoms, by_qualified, verdict, is_denied_hit,
  is_parent_skipped, is_candidate, sort_relations, compile_relations,
}

unfoldable pub has_errors : List Problem → Bool
has_errors = any (λ p. p.severity == "error")

-- No text comes twice.
unfoldable pub are_distinct : List String → Bool
are_distinct [] = true
are_distinct (x ∷ xs) = not (contains xs x) && are_distinct xs

errors-append : (ps qs : List Problem) → has_errors (ps ++ qs) ≡ (has_errors ps || has_errors qs)
unfolding has_errors
errors-append [] qs = refl
errors-append (p ∷ ps) qs = ground (arith, errors-append ps qs)

errors-right : (ps qs : List Problem) → has_errors (ps ++ qs) ≡ false → has_errors qs ≡ false
errors-right ps qs h = ground (arith, h, errors-append ps qs)

errors-left : (ps qs : List Problem) → has_errors (ps ++ qs) ≡ false → has_errors ps ≡ false
errors-left ps qs h = ground (arith, h, errors-append ps qs)

none_named :
    (code : String) (names : List String)
    → has_errors (map (problem code "error") names) ≡ false
    → names ≡ []
unfolding has_errors
none_named code [] h = refl
none_named code (n ∷ ns) h = cc

has-insert :
    (seen : Dict String String) (t v k : String) → has (insert t v seen) k ≡ (t == k || has seen k)
has-insert seen t v k = ap is_some (lookup-insert t k v seen) ∙ ground arith

module _ (py : Python) (m : Manifest) where
  abbrev IsUnseen : Dict String String → List String → Type 0
  IsUnseen seen ts =
      (are_distinct ts ≡ true) × ((k : String) → has seen k ≡ true → contains ts k ≡ false)

  fresh_step :
      (seen : Dict String String) (t : String) (ts : List String) (v : String)
      → has seen t ≡ false
      → IsUnseen (insert t v seen) ts
      → IsUnseen seen (t ∷ ts)
  unfolding are_distinct
  fresh_step seen t ts v new (separate, unseen) =
      let here = unseen t (has-insert seen t v t ∙ ground (arith, ==_refl t)) in
      (
        ground (arith, here, separate),
        λ k s. ground (
          arith,
          unseen k (has-insert seen t v k ∙ ground (arith, s)),
          string_eq.decides t k,
          new,
          s,
          ap (has seen) {x = t} {y = k},
        ),
      )

  clear-if :
      (b : Bool) (subject : String) (ps : List Problem)
      → has_errors (if b then problem "target_collision" "error" subject ∷ ps else ps) ≡ false
      → (b ≡ false) × (has_errors ps ≡ false)
  unfolding has_errors
  clear-if true subject ps h = (cc, cc)
  clear-if false subject ps h = (refl, h)

  no_collision :
      (seen : Dict String String) (rs : List Relation)
      → has_errors (collisions py m seen rs) ≡ false
      → IsUnseen seen (map target rs)
  unfolding collisions are_distinct
  no_collision seen [] h = (refl, λ k s. refl)
  no_collision seen (r ∷ rs) h =
      let v = qualified r.schema r.table in
      let (new, rest) =
        clear-if (has seen (target r)) (target r) (collisions py m (insert (target r) v seen) rs)
          h in
      fresh_step seen (target r) (map target rs) v new
        (no_collision (insert (target r) v seen) rs rest)

  -- A plan without an error denies no relation that was selected, and its relations go to tables
  -- that are distinct.
  pub plan_without_errors :
      (discovered : List SourceRelation) (found : List AdapterRelation)
      (published : Option (List (String × String)))
      → has_errors (compile py m discovered found published).problems ≡ false
      → ((compile py m discovered found published).denied_hits ≡ [])
        × (are_distinct (map target (compile py m discovered found published).relations) ≡ true)
  unfolding compile
  plan_without_errors discovered found published h =
      let meta = adapters py m found in
      let ordered = sort_relations py m discovered in
      let denied =
        map qualified_of (select (λ r. is_denied_hit py m (verdict py m meta r)) ordered) in
      let skipped =
        map qualified_of (select (λ r. is_parent_skipped py m (verdict py m meta r)) ordered) in
      let compiled =
        compile_relations py m meta
          (select (λ r. is_candidate py m (verdict py m meta r)) ordered) in
      let d = map (problem "deny_hit" "error") denied in
      let c = collisions py m [] compiled.0 in
      let s = map (problem "partitioned_parent_skipped" "warning") skipped in
      let first =
        errors-right (phantoms py m meta (by_qualified [] discovered))
          (s ++ (d ++ (compiled.1 ++ c))) h in
      let second = errors-right s (d ++ (compiled.1 ++ c)) first in
      (
        none_named "deny_hit" denied (errors-left d (compiled.1 ++ c) second),
        (no_collision [] compiled.0
            (errors-right compiled.1 c (errors-right d (compiled.1 ++ c) second))).0,
      )
