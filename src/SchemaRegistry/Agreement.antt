-- ===== src/SchemaRegistry/Agreement.antt =====
-- schema_registry.py: what two signatures without drift have in common.
use feather_flow.Common.{
  ◌≡◌, refl, ℕ, sym, ap, subst, ◌∙◌, ◌+◌, nat_eq, Bool, true, false, not, ◌&&◌, Option, none, some,
  List, [], ◌∷◌, ◌++◌, select, contains, String, ◌==◌, string_eq, if◌then◌else◌, arith, is_some,
  Bool-cases, inl, inr,
}
use feather_flow.Common.Dict.{Dict, lookup, has, keys, has-contains}
use feather_flow.Common.Int.{ℤ, pos_part, neg_part, eq_of_parts}
use feather_flow.Common.Sets.{minus, contains-sort, contains-select}
use feather_flow.SchemaRegistry.{
  Shape, Signature, Drift, drift, drift_unless, one_sided, same_type, same_names, is_widen,
  retyped_column, retyped, renamed_to, only_in, in_both, classify_drift,
}

no_front : {A : Type 0} (xs ys : List A) → xs ++ ys ≡ [] → (xs ≡ []) × (ys ≡ [])
no_front [] ys h = (refl, h)
no_front (x ∷ xs) ys h = cc

both : (a b : Bool) → (a && b) ≡ true → (a ≡ true) × (b ≡ true)
both true true h = (refl, refl)
both true false h = cc
both false b h = cc

the_shape : (a b : Shape) → Path (Option Shape) (some a) (some b) → a ≡ b
the_shape a b h = cc

same_names-equal : (xs ys : List String) → same_names xs ys ≡ true → xs ≡ ys
same_names-equal [] [] h = refl
same_names-equal [] (y ∷ ys) h = cc
same_names-equal (x ∷ xs) [] h = cc
same_names-equal (x ∷ xs) (y ∷ ys) h =
    let (here, rest) = both (x == y) (same_names xs ys) h in
    ap (λ z. z ∷ xs) ((string_eq.decides x y).0 here)
    ∙ ap (λ zs. y ∷ zs) (same_names-equal xs ys rest)

same_type-equal :
    (o n : Shape) → same_type o n ≡ true → (o.type_oid ≡ n.type_oid) × (o.typmod ≡ n.typmod)
same_type-equal o n h =
    let (oids, mods) =
      both (o.type_oid == n.type_oid)
        (pos_part o.typmod + neg_part n.typmod == pos_part n.typmod + neg_part o.typmod) h in
    (
      (nat_eq.decides o.type_oid n.type_oid).0 oids,
      eq_of_parts o.typmod n.typmod (
          (nat_eq.decides (pos_part o.typmod + neg_part n.typmod)
              (pos_part n.typmod + neg_part o.typmod)).0
            mods),
    )

undrifted_unless : (b : Bool) (d : Drift) → drift_unless b d ≡ [] → b ≡ true
undrifted_unless true d h = refl
undrifted_unless false d h = cc

no_sides :
    (new : Dict String Shape) (r : Option String) (dropped added : List String)
    → one_sided new r dropped added ≡ []
    → (dropped ≡ []) × (added ≡ [])
no_sides new none [] [] h = (refl, refl)
no_sides new none (d ∷ ds) [] h = cc
no_sides new none dropped (a ∷ as') h = cc
no_sides new (some n) dropped added h = cc

missing_none :
    (before : String → String → Bool) (a b : Dict String Shape) (k : String)
    → only_in before a b ≡ []
    → has a k ≡ true
    → has b k ≡ true
missing_none before a b k h e =
    let members =
      contains-sort before (minus (keys a) (keys b)) k
      ∙ contains-select (λ x. not (contains (keys b) x)) (keys a) k in
    let none_left = ap (λ xs. contains xs k) h in
    ground (arith, members, none_left, has-contains a k, has-contains b k, e)

either_drift :
    (b w : Bool) (c d : Drift) (rest : List Drift)
    → (if b then rest else (if w then c ∷ rest else d ∷ rest)) ≡ []
    → (b ≡ true) × (rest ≡ [])
either_drift true w c d rest h = (refl, h)
either_drift false true c d rest h = cc
either_drift false false c d rest h = cc

settled :
    (name : String) (old new : Option Shape) (rest : List Drift)
    → retyped_column name old new rest ≡ []
    → (rest ≡ []) × ((o n : Shape) → old ≡ some o → new ≡ some n → same_type o n ≡ true)
settled name none new rest h = (h, λ o n eo en. cc)
settled name (some a) none rest h = (h, λ o n eo en. cc)
settled name (some a) (some b) rest h =
    let (same, none_left) =
      either_drift (same_type a b) (is_widen a b) (drift "type_widen" (some name) "additive")
        (drift "type_incompatible" (some name) "breaking") rest h in
    (
      none_left,
      λ o n eo en.
          subst (λ x. same_type x n ≡ true) (the_shape a o eo)
            (subst (λ y. same_type a y ≡ true) (the_shape b n en) same),
    )

unretyped :
    (old new : Dict String Shape) (names : List String) (k : String) (o n : Shape)
    → retyped old new names ≡ []
    → contains names k ≡ true
    → lookup k old ≡ some o
    → lookup k new ≡ some n
    → same_type o n ≡ true
unfolding retyped
unretyped old new [] k o n h m eo en = cc
unretyped old new (x ∷ xs) k o n h m eo en =
    let (rest, here) = settled x (lookup x old) (lookup x new) (retyped old new xs) h in
    elim (Bool-cases (x == k)) [
      | inl e ↦
          let same = (string_eq.decides x k).0 e in
          here o n (ap (λ y. lookup y old) same ∙ eo) (ap (λ y. lookup y new) same ∙ en)
      | inr e ↦ unretyped old new xs k o n rest (ground (arith, e, m)) eo en
    ]

-- The type and the modifier of a column.
abbrev pub type_of : Option Shape → Option (ℕ × ℤ)
type_of none = none
type_of (some s) = some (s.type_oid, s.typmod)

types_agree :
    (o n : Option Shape)
    → is_some o ≡ is_some n
    → ((a b : Shape) → o ≡ some a → n ≡ some b → (a.type_oid ≡ b.type_oid) × (a.typmod ≡ b.typmod))
    → type_of o ≡ type_of n
types_agree none none h same = refl
types_agree none (some b) h same = cc
types_agree (some a) none h same = cc
types_agree (some a) (some b) h same =
    let (oids, mods) = same a b refl refl in
    ap (λ x. some (x, a.typmod)) oids ∙ ap (λ y. some (b.type_oid, y)) mods

same_truth : (a b : Bool) → (a ≡ true → b ≡ true) → (b ≡ true → a ≡ true) → a ≡ b
same_truth true b f g = sym (f refl)
same_truth false true f g = g refl
same_truth false false f g = refl

common :
    (before : String → String → Bool) (a b : Dict String Shape) (k : String) (o n : Shape)
    → lookup k a ≡ some o
    → lookup k b ≡ some n
    → contains (in_both before a b) k ≡ true
common before a b k o n eo en =
    let members =
      contains-sort before (select (contains (keys b)) (keys a)) k
      ∙ contains-select (contains (keys b)) (keys a) k in
    let in_a = sym (has-contains a k) ∙ ap is_some eo in
    let in_b = sym (has-contains b k) ∙ ap is_some en in ground (arith, members, in_a, in_b)

-- Where no drift is classified between two signatures, they have the same columns, each with the
-- same type and modifier, the same merge key and the same replica identity.
pub undrifted_agree :
    (before : String → String → Bool) (old new : Signature) (k : String)
    → classify_drift before old new ≡ []
    → (type_of (lookup k old.columns) ≡ type_of (lookup k new.columns))
      × (old.key ≡ new.key)
      × (old.replica_identity ≡ new.replica_identity)
unfolding classify_drift
undrifted_agree before old new k h =
    let a = old.columns in
    let b = new.columns in
    let dropped = only_in before a b in
    let added = only_in before b a in
    let sides = one_sided b (renamed_to a b dropped added) dropped added in
    let types = retyped a b (in_both before a b) in
    let keyed = drift_unless (same_names old.key new.key) (drift "key_change" none "breaking") in
    let identity =
      drift_unless (old.replica_identity == new.replica_identity)
        (drift "replica_identity_change" none "info") in
    let (no_side, h1) = no_front sides (types ++ (keyed ++ identity)) h in
    let (no_type, h2) = no_front types (keyed ++ identity) h1 in
    let (no_key, no_identity) = no_front keyed identity h2 in
    let (no_drop, no_add) = no_sides b (renamed_to a b dropped added) dropped added no_side in
    (
      types_agree (lookup k a) (lookup k b)
          (same_truth (has a k) (has b k) (missing_none before a b k no_drop)
            (missing_none before b a k no_add))
          (λ o n eo en. same_type-equal o n (
            unretyped a b (in_both before a b) k o n no_type (common before a b k o n eo en) eo
              en)),
      same_names-equal old.key new.key (
          undrifted_unless (same_names old.key new.key) (drift "key_change" none "breaking")
            no_key),
      (string_eq.decides old.replica_identity new.replica_identity).0 (
          undrifted_unless (old.replica_identity == new.replica_identity)
            (drift "replica_identity_change" none "info") no_identity),
    )
