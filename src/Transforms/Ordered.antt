-- ===== src/Transforms/Ordered.antt =====
-- transforms.py: every transform comes behind those that it depends on.
use feather_flow.Common.{
  ◌≡◌, refl, sym, ap, subst, ◌∙◌, Bool, true, false, ◌&&◌, Option, none, some, List, [], ◌∷◌, all,
  contains, String, ◌==◌, string_eq, if◌then◌else◌, Result, ok, ◌>>=◌, traverse, >>=-eq-ok, arith,
  Bool-cases, inl, inr, or_default,
}
use feather_flow.Common.Dict.{Dict, lookup, insert, lookup-insert}
use feather_flow.Transforms.{
  TransformMeta, qualified_name, OrderError, by_name, layer_deps, build_graph, check_all,
  found_transform, in_order, build_execution_order,
}

-- Each name comes behind its predecessors.
unfoldable pub respects : (String → List String) → List String → List String → Bool
respects deps seen [] = true
respects deps seen (n ∷ ns) = all (contains seen) (deps n) && respects deps (n ∷ seen) ns

-- Each transform comes behind the transforms that it depends on.
unfoldable pub is_ordered : List String → List TransformMeta → Bool
is_ordered seen [] = true
is_ordered seen (t ∷ ts) =
    all (contains seen) (layer_deps t) && is_ordered (qualified_name t ∷ seen) ts

abbrev pub predecessors : Dict String (List String) → String → List String
predecessors g n = or_default (lookup n g) []

Fits : Dict String TransformMeta → Dict String (List String) → Type 0
Fits known g =
    (n : String) (t : TransformMeta)
    → lookup n known ≡ some t
    → (qualified_name t ≡ n) × (predecessors g n ≡ layer_deps t)

the_some : (a b : TransformMeta) → Path (Option TransformMeta) (some a) (some b) → a ≡ b
the_some a b h = cc

the_list :
    (xs ys : List TransformMeta)
    → Path (Result OrderError (List TransformMeta)) (ok xs) (ok ys)
    → xs ≡ ys
the_list xs ys h = cc

insert-Fits :
    (known : Dict String TransformMeta) (g : Dict String (List String)) (u : TransformMeta)
    → Fits known g
    → Fits (insert (qualified_name u) u known) (insert (qualified_name u) (layer_deps u) g)
unfolding Fits
insert-Fits known g u h n t found = elim (Bool-cases (qualified_name u == n)) [
  | inl e ↦
      let here =
        lookup-insert (qualified_name u) n u known
        ∙ ap (λ b. if b then some u else lookup n known) e in
      let same = the_some u t (sym here ∙ found) in
      (
        ap qualified_name (sym same) ∙ (string_eq.decides (qualified_name u) n).0 e,
        ap (λ o. or_default o [])
              (lookup-insert (qualified_name u) n (layer_deps u) g
                ∙ ap (λ b. if b then some (layer_deps u) else lookup n g) e)
            ∙ ap layer_deps same,
      )
  | inr e ↦
      let there =
        lookup-insert (qualified_name u) n u known
        ∙ ap (λ b. if b then some u else lookup n known) e in
      let (named, deps) = h n t (sym there ∙ found) in
      (
        named,
        ap (λ o. or_default o [])
              (lookup-insert (qualified_name u) n (layer_deps u) g
                ∙ ap (λ b. if b then some (layer_deps u) else lookup n g) e)
            ∙ deps,
      )
]

build-Fits :
    (ts : List TransformMeta) (known : Dict String TransformMeta) (g : Dict String (List String))
    → Fits known g
    → Fits (by_name known ts) (build_graph g ts)
unfolding by_name build_graph
build-Fits [] known g h = h
build-Fits (u ∷ ts) known g h =
    build-Fits ts (insert (qualified_name u) u known) (insert (qualified_name u) (layer_deps u) g)
      (insert-Fits known g u h)

empty-Fits : Fits [] []
unfolding Fits lookup
empty-Fits n t h = cc

found-some :
    (n : String) (o : Option TransformMeta) (t : TransformMeta)
    → found_transform n o ≡ ok t
    → o ≡ some t
found-some n (some u) t h = cc
found-some n none t h = cc

both : (a b : Bool) → (a && b) ≡ true → (a ≡ true) × (b ≡ true)
both true true h = (refl, refl)
both true false h = cc
both false b h = cc

ordered :
    (known : Dict String TransformMeta) (g : Dict String (List String)) (names seen : List String)
    (ts : List TransformMeta)
    → Fits known g
    → traverse (λ n. found_transform n (lookup n known)) names ≡ ok ts
    → respects (predecessors g) seen names ≡ true
    → is_ordered seen ts ≡ true
unfolding respects is_ordered Fits
ordered known g [] seen ts fits h r = subst (λ x. is_ordered seen x ≡ true) (the_list [] ts h) refl
ordered known g (n ∷ ns) seen ts fits h r =
    let finding = λ (x : String). found_transform x (lookup x known) in
    let (t, first, h') = >>=-eq-ok (finding n) (λ y. do ys ← traverse finding ns; ok (y ∷ ys)) h in
    let (us, others, same) = >>=-eq-ok (traverse finding ns) (λ ys. ok (t ∷ ys)) h' in
    let (named, deps) = fits n t (found-some n (lookup n known) t first) in
    let (now, later) =
      both (all (contains seen) (predecessors g n)) (respects (predecessors g) (n ∷ seen) ns) r in
    let rest = ordered known g ns (n ∷ seen) us fits others later in
    let here = ap (all (contains seen)) (sym deps) ∙ now in
    let behind = ap (λ x. is_ordered (x ∷ seen) us) named ∙ rest in
    subst (λ x. is_ordered seen x ≡ true) (the_list (t ∷ us) ts same) (ground (arith, here, behind))

in_order-ordered :
    (known : Dict String TransformMeta) (g : Dict String (List String)) (o : Option (List String))
    (order : List TransformMeta)
    → ((names : List String) → o ≡ some names → respects (predecessors g) [] names ≡ true)
    → Fits known g
    → in_order known o ≡ ok order
    → is_ordered [] order ≡ true
in_order-ordered known g none order sorted fits h = cc
in_order-ordered known g (some names) order sorted fits h =
    ordered known g names [] order fits h (sorted names refl)

-- Where the order of `graphlib` puts each name behind its predecessors, the execution order puts
-- each transform behind all the silver and gold transforms that it depends on.
pub build_execution_order-ordered :
    (static_order : Dict String (List String) → Option (List String))
    (ts order : List TransformMeta)
    → ((g : Dict String (List String)) (names : List String)
        → static_order g ≡ some names
        → respects (predecessors g) [] names ≡ true)
    → build_execution_order static_order ts ≡ ok order
    → is_ordered [] order ≡ true
unfolding build_execution_order
build_execution_order-ordered static_order ts order sorted h =
    let known = by_name [] ts in
    let g = build_graph [] ts in
    let (u, checked, h') =
      >>=-eq-ok (check_all known ts) (λ u. in_order known (static_order g)) h in
    in_order-ordered known g (static_order g) order refl-order (build-Fits ts [] [] empty-Fits) h'
  where
    refl-order :
        (names : List String)
        → static_order (build_graph [] ts) ≡ some names
        → respects (predecessors (build_graph [] ts)) [] names ≡ true
    refl-order names e = sorted (build_graph [] ts) names e
