-- ===== src/Common/Sets.antt =====
-- Python's sets of keys as lists, and `sorted`, with the order of the keys as an argument.
use mathlib.Core.Path.{◌≡◌, refl, ap, ◌∙◌}
use mathlib.Core.Bool.{Bool, not, ◌||◌, ◌&&◌}
use mathlib.Core.List.{List, [], ◌∷◌}
use native.Mathlib.Omega.{arith}
use feather_flow.Common.Tests.{if◌then◌else◌}
use feather_flow.Common.Equality.{Eq, ◌==◌}
use feather_flow.Common.Lists.{contains, select}

module _ {A : Type 0} where
  abbrev pub insert_sorted : (A → A → Bool) → A → List A → List A
  insert_sorted before a [] = a ∷ []
  insert_sorted before a (x ∷ xs) =
      let rest = insert_sorted before a xs in if before a x then a ∷ x ∷ xs else x ∷ rest

  -- `sorted(xs)`
  unfoldable pub sort : (A → A → Bool) → List A → List A
  sort before [] = []
  sort before (x ∷ xs) = insert_sorted before x (sort before xs)

module _ {A : Type 0} ⦃e : Eq A⦄ where
  -- `set(xs)`
  unfoldable pub distinct : List A → List A
  distinct [] = []
  distinct (x ∷ xs) = let rest = distinct xs in if contains xs x then rest else x ∷ rest

  -- `xs - ys`
  abbrev pub minus : List A → List A → List A
  minus xs ys = select (λ x. not (contains ys x)) xs

  contains-insert_sorted :
      (before : A → A → Bool) (a : A) (xs : List A) (k : A)
      → contains (insert_sorted before a xs) k ≡ (a == k || contains xs k)
  contains-insert_sorted before a [] k = refl
  contains-insert_sorted before a (x ∷ xs) k = ground (arith, contains-insert_sorted before a xs k)

  pub contains-sort :
      (before : A → A → Bool) (xs : List A) (k : A) → contains (sort before xs) k ≡ contains xs k
  unfolding sort
  contains-sort before [] k = refl
  contains-sort before (x ∷ xs) k =
      contains-insert_sorted before x (sort before xs) k
      ∙ ap (λ b. x == k || b) (contains-sort before xs k)

  pub contains-distinct : (xs : List A) (k : A) → contains (distinct xs) k ≡ contains xs k
  unfolding distinct
  contains-distinct [] k = refl
  contains-distinct (x ∷ xs) k =
      ground (arith, contains-distinct xs k, e.decides x k, ap (contains xs) {x = x} {y = k})

  pub contains-select :
      (p : A → Bool) (xs : List A) (k : A) → contains (select p xs) k ≡ (p k && contains xs k)
  contains-select p [] k = ground arith
  contains-select p (x ∷ xs) k =
      ground (arith, contains-select p xs k, e.decides x k, ap p {x = x} {y = k})
