-- ===== src/Selection/Selected.antt =====
-- selectors.py: what is true of every relation that is compiled, and that a denied one is an error.
use feather_flow.Common.{
  ◌≡◌, refl, Bool, true, false, not, ◌&&◌, Option, none, some, List, [], ◌∷◌, ◌++◌, any, select,
  contains, String, ◌==◌, string_eq, if◌then◌else◌, All, inl, inr, arith, Bool-cases,
}
use feather_flow.Common.Dict.{Dict}
use feather_flow.Selection.{
  Problem, SourceRelation, AdapterRelation, Manifest, Relation, qualified, qualified_of, matches,
  included,
}
use feather_flow.Selection.Keys.{
  KeyChoice, key_for, check_denied, deny_columns_for, denied_columns, names_of_columns,
}
use feather_flow.Selection.Compile.{
  Python, passed_over, parent_skipped, denied_hit, candidate, is_allowed, verdict, is_candidate,
  meta_of, with_columns, compile_relation, compile_relations, compile, adapters, sort_relations,
}

All-append : {A : Type 0} (P : A → Type 0) (xs ys : List A) → All P xs → All P ys → All P (xs ++ ys)
All-append P [] ys h k = k
All-append P (x ∷ xs) ys (h, hs) k = (h, All-append P xs ys hs k)

chosen-if :
    {A : Type 0} (p : A → Bool) (x : A) (xs : List A) (b : Bool)
    → p x ≡ b
    → All (λ y. p y ≡ true) xs
    → All (λ y. p y ≡ true) (if b then x ∷ xs else xs)
chosen-if p x xs true h hs = (h, hs)
chosen-if p x xs false h hs = hs

All-chosen : {A : Type 0} (p : A → Bool) (xs : List A) → All (λ x. p x ≡ true) (select p xs)
All-chosen p [] = tt
All-chosen p (x ∷ xs) = chosen-if p x (select p xs) (p x) refl (All-chosen p xs)

module _ (py : Python) (m : Manifest) where
  -- The relation is included, neither excluded nor denied, and none of its denied columns is of
  -- its key.
  unfoldable pub IsSelected : Relation → Type 0
  IsSelected r =
      (included py.fnmatch (qualified r.schema r.table) r.schema m.include ≡ true)
      × (matches py.fnmatch (qualified r.schema r.table) r.schema m.exclude ≡ false)
      × (matches py.fnmatch (qualified r.schema r.table) r.schema m.deny ≡ false)
      × (any (contains r.key) r.deny_columns ≡ false)

  abbrev IsAdmitted : SourceRelation → Type 0
  IsAdmitted r =
      (included py.fnmatch (qualified_of r) r.schema m.include ≡ true)
      × (matches py.fnmatch (qualified_of r) r.schema m.exclude ≡ false)
      × (matches py.fnmatch (qualified_of r) r.schema m.deny ≡ false)

  admitted-if :
      (i x a p d : Bool)
      → is_candidate py m (
          if not (i && (not x && a))
          then passed_over
          else if p
          then parent_skipped
          else if d
          then denied_hit
          else candidate)
        ≡ true
      → (i ≡ true) × (x ≡ false) × (d ≡ false)
  admitted-if true false true false false h = (refl, refl, refl)
  admitted-if true false true false true h = cc
  admitted-if true false true true d h = cc
  admitted-if true false false p d h = cc
  admitted-if true true a p d h = cc
  admitted-if false x a p d h = cc

  candidate-IsAdmitted :
      (meta : Option (Dict String AdapterRelation)) (r : SourceRelation)
      → is_candidate py m (verdict py m meta r) ≡ true
      → IsAdmitted r
  unfolding verdict
  candidate-IsAdmitted meta r h =
      admitted-if (included py.fnmatch (qualified_of r) r.schema m.include)
        (matches py.fnmatch (qualified_of r) r.schema m.exclude)
        (is_allowed py m meta (qualified_of r)) (r.kind == "p")
        (matches py.fnmatch (qualified_of r) r.schema m.deny) h

  unhit :
      (name : String) (key present cols : List String)
      → (check_denied py.text_before py.is_secret name key present cols).0 ≡ false
      → any (contains key) cols ≡ false
  unfolding check_denied
  unhit name key present [] h = refl
  unhit name key present (c ∷ cs) h = elim (Bool-cases (contains key c)) [
    | inl k ↦ grind (arith, h, k)
    | inr k ↦ grind (arith, h, k, unhit name key present cs)
  ]

  withheld-if :
      (hit : Bool) (denied : List String) (key : List String) (rel : SourceRelation)
      (meta : Option AdapterRelation) (k : KeyChoice) (ps qs : List Problem)
      → IsAdmitted rel
      → (hit ≡ false → any (contains k.key) denied ≡ false)
      → All IsSelected
          (with_columns py m rel meta k (if hit then (none, ps) else (some denied, qs))).0
  unfolding IsSelected
  withheld-if true denied key rel meta k ps qs h free = tt
  withheld-if false denied key rel meta k ps qs (i, x, d) free = ((i, x, d, free refl), tt)

  one-IsSelected :
      (rel : SourceRelation) (meta : Option AdapterRelation)
      → IsAdmitted rel
      → All IsSelected (compile_relation py m rel meta).0
  unfolding compile_relation deny_columns_for
  one-IsSelected rel meta h = kept-if k.keep
    where
      k : KeyChoice
      k = key_for m rel

      denied : List String
      denied = denied_columns py.text_before py.is_secret m rel

      kept-if :
          (b : Bool)
          → All IsSelected
              (if b
                then with_columns py m rel meta k
                    (deny_columns_for py.text_before py.is_secret m rel k.key)
                else ([], k.problems)).0
      kept-if false = tt
      kept-if true =
          withheld-if
            (check_denied py.text_before py.is_secret (qualified_of rel) k.key
              (names_of_columns py.text_before py.is_secret rel.columns) denied).0
            denied k.key rel meta k
            (check_denied py.text_before py.is_secret (qualified_of rel) k.key
              (names_of_columns py.text_before py.is_secret rel.columns) denied).1
            _ h
            (unhit (qualified_of rel) k.key
              (names_of_columns py.text_before py.is_secret rel.columns) denied)

  each-IsSelected :
      (meta : Option (Dict String AdapterRelation)) (rels : List SourceRelation)
      → All (λ r. is_candidate py m (verdict py m meta r) ≡ true) rels
      → All IsSelected (compile_relations py m meta rels).0
  unfolding compile_relations
  each-IsSelected meta [] h = tt
  each-IsSelected meta (rel ∷ rels) (h, hs) =
      All-append IsSelected (compile_relation py m rel (meta_of py m meta (qualified_of rel))).0
        (compile_relations py m meta rels).0
        (one-IsSelected rel (meta_of py m meta (qualified_of rel))
          (candidate-IsAdmitted meta rel h))
        (each-IsSelected meta rels hs)

  -- Every relation that is compiled matches the include patterns and neither an exclude nor a deny
  -- pattern, whatever the adapter offers, and no column of its key is withheld.
  pub compile-IsSelected :
      (discovered : List SourceRelation) (found : List AdapterRelation)
      (published : Option (List (String × String)))
      → All IsSelected (compile py m discovered found published).relations
  unfolding compile
  compile-IsSelected discovered found published =
      let meta = adapters py m found in
      each-IsSelected meta
        (select (λ r. is_candidate py m (verdict py m meta r)) (sort_relations py m discovered))
        (All-chosen (λ r. is_candidate py m (verdict py m meta r)) (sort_relations py m discovered))
