-- ===== src/SchemaRegistry/Denied.antt =====
-- schema_registry.py: denied columns, in signatures and in the drift between them.
use feather_flow.Common.{
  ◌≡◌, refl, ap, ◌∙◌, ℕ, ◌+◌, nat_eq, Bool, true, false, not, Option, none, some, List, [], ◌∷◌,
  map, select, contains, String, ==_refl, string_eq, if◌then◌else◌, arith,
}
use feather_flow.Common.Dict.{Dict, lookup, insert, keys}
use feather_flow.Common.Int.{ℤ, pos_part, neg_part}
use feather_flow.Common.Sets.{sort, minus}
use feather_flow.Selection.{SourceColumn, SourceRelation}
use feather_flow.SchemaRegistry.{
  DltType, CompiledColumn, Shape, Signature, Drift, project_signature, kept_shapes, shape_of,
  shapes, compiled_column, signature, same_type, same_names, retyped_column, retyped, only_in,
  classify_drift,
}

same_names_refl : (xs : List String) → same_names xs xs ≡ true
same_names_refl [] = refl
same_names_refl (x ∷ xs) = ground (arith, ==_refl x, same_names_refl xs)

same_type_refl : (s : Shape) → same_type s s ≡ true
same_type_refl s =
    ground (arith, ==_refl s.type_oid, ==_refl (pos_part s.typmod + neg_part s.typmod))

retyped_column-same :
    (name : String) (o : Option Shape) (rest : List Drift) → retyped_column name o o rest ≡ rest
retyped_column-same name none rest = refl
retyped_column-same name (some s) rest = ground (arith, same_type_refl s)

retyped-same : (d : Dict String Shape) (names : List String) → retyped d d names ≡ []
unfolding retyped
retyped-same d [] = refl
retyped-same d (n ∷ ns) = retyped_column-same n (lookup n d) (retyped d d ns) ∙ retyped-same d ns

none_missing :
    (ys xs : List String)
    → ((k : String) → contains xs k ≡ true → contains ys k ≡ true)
    → minus xs ys ≡ []
none_missing ys [] h = refl
none_missing ys (x ∷ xs) h =
    let here = h x (ground (arith, ==_refl x)) in
    let rest = none_missing ys xs (λ k e. h k (ground (arith, e))) in ground (arith, here, rest)

minus_self : (xs : List String) → minus xs xs ≡ []
minus_self xs = none_missing xs xs (λ k e. e)

only_in_self : (before : String → String → Bool) (d : Dict String Shape) → only_in before d d ≡ []
unfolding sort
only_in_self before d = ap (sort before) (minus_self (keys d))

-- A signature has not drifted from itself.
classify_drift-same :
    (before : String → String → Bool) (s : Signature) → classify_drift before s s ≡ []
unfolding classify_drift
classify_drift-same before s = simp (only_in_self, retyped-same, same_names_refl, ==_refl)

kept_shapes-insert :
    (exclude : List String) (k : String) (v : Shape) (d : Dict String Shape)
    → kept_shapes exclude (insert k v d)
      ≡ (if contains exclude k then kept_shapes exclude d else insert k v (kept_shapes exclude d))
unfolding insert
kept_shapes-insert exclude k v [] = ground arith
kept_shapes-insert exclude k v ((j, w) ∷ d) = ground (
  arith,
  kept_shapes-insert exclude k v d,
  string_eq.decides j k,
  ap (contains exclude) {x = j} {y = k},
)

module _ (dlt_type : ℕ → ℤ → DltType) (key exclude : List String) where
  abbrev is_kept : SourceColumn → Bool
  is_kept c = not (contains exclude c.name)

  abbrev kept_compiled : List SourceColumn → List CompiledColumn
  kept_compiled cs = map (compiled_column dlt_type key) cs

  kept-or-not :
      (b : Bool) (c : SourceColumn) (cs : List SourceColumn) (d : Dict String Shape)
      → shapes
          (if b then d else insert c.name (shape_of (compiled_column dlt_type key c)) d)
          (kept_compiled cs)
        ≡ shapes d (kept_compiled (if not b then c ∷ cs else cs))
  unfolding shapes
  kept-or-not true c cs d = refl
  kept-or-not false c cs d = refl

  -- The shapes of the columns that are kept are what is kept of the shapes.
  shapes-select :
      (cs : List SourceColumn) (d : Dict String Shape)
      → kept_shapes exclude (shapes d (kept_compiled cs))
        ≡ shapes (kept_shapes exclude d) (kept_compiled (select is_kept cs))
  unfolding shapes
  shapes-select [] d = refl
  shapes-select (c ∷ cs) d =
      let v = shape_of (compiled_column dlt_type key c) in
      shapes-select cs (insert c.name v d)
      ∙ ap (λ x. shapes x (kept_compiled (select is_kept cs)))
          (kept_shapes-insert exclude c.name v d)
      ∙ kept-or-not (contains exclude c.name) c (select is_kept cs) (kept_shapes exclude d)

projected :
    (dlt_type : ℕ → ℤ → DltType) (relation : SourceRelation) (key exclude : List String)
    → project_signature (signature dlt_type relation key []) exclude
      ≡ signature dlt_type relation key exclude
unfolding signature
projected dlt_type relation key [] = refl
projected dlt_type relation key (e ∷ es) =
    ap (λ x. record (signature dlt_type relation key []) { columns = x })
      (shapes-select dlt_type key (e ∷ es) relation.columns [])

-- A signature that was stored before columns were denied, with these columns taken out of it, is
-- the signature that the relation has with the columns denied, and no drift is found between
-- them: a denied column is not reported as dropped.
pub deny_is_no_drift :
    (dlt_type : ℕ → ℤ → DltType) (before : String → String → Bool) (relation : SourceRelation)
    (key exclude : List String)
    → (project_signature (signature dlt_type relation key []) exclude
        ≡ signature dlt_type relation key exclude)
      × (classify_drift before
            (project_signature (signature dlt_type relation key []) exclude)
            (signature dlt_type relation key exclude)
          ≡ [])
deny_is_no_drift dlt_type before relation key exclude =
    let same = projected dlt_type relation key exclude in
    (
      same,
      ap (λ x. classify_drift before x (signature dlt_type relation key exclude)) same
          ∙ classify_drift-same before (signature dlt_type relation key exclude),
    )
