-- ===== src/Common/Dict.antt =====
-- Python's `dict`: a list of entries in the order of insertion; a write to a key that is there
-- keeps its place.
use mathlib.Core.Path.{◌≡◌, refl}
use mathlib.Core.Bool.{Bool}
use mathlib.Core.Option.{Option, none, some}
use mathlib.Core.List.{List, [], ◌∷◌}
use native.Mathlib.Omega.{arith}
use feather_flow.Common.Tests.{if◌then◌else◌, is_some}
use feather_flow.Common.Equality.{Eq, ◌==◌}
use feather_flow.Common.Lists.{contains}

abbrev pub Dict {ℓ κ} : Type κ → Type ℓ → Type (ℓ ⊔ κ)
Dict K V = List (K × V)

abbrev pub apply {ℓ} : {V : Type ℓ} → (V → V) → Option V → Option V
apply f none = none
apply f (some v) = some (f v)

module _ {ℓ κ} {K : Type κ} {V : Type ℓ} ⦃e : Eq K⦄ where
  -- `d.get(k)`
  unfoldable pub lookup : K → Dict K V → Option V
  lookup k [] = none
  lookup k ((j, v) ∷ d) = if j == k then some v else lookup k d

  -- `d[k] = v`
  unfoldable pub insert : K → V → Dict K V → Dict K V
  insert k v [] = (k, v) ∷ []
  insert k v ((j, w) ∷ d) = if j == k then (j, v) ∷ d else (j, w) ∷ insert k v d

  -- `del d[k]`, `d.pop(k, None)`, and a DELETE by the key
  unfoldable pub remove : K → Dict K V → Dict K V
  remove k [] = []
  remove k ((j, v) ∷ d) = let rest = remove k d in if j == k then rest else (j, v) ∷ rest

  -- An UPDATE of the rows with the key.
  unfoldable pub adjust : K → (V → V) → Dict K V → Dict K V
  adjust k f [] = []
  adjust k f ((j, v) ∷ d) =
      let rest = adjust k f d in if j == k then (j, f v) ∷ rest else (j, v) ∷ rest

  -- `k in d`
  abbrev pub has : Dict K V → K → Bool
  has d k = is_some (lookup k d)

  pub lookup-insert :
      (k j : K) (v : V) (d : Dict K V)
      → lookup j (insert k v d) ≡ (if k == j then some v else lookup j d)
  unfolding lookup insert
  lookup-insert k j v [] = refl
  lookup-insert k j v ((i, w) ∷ d) =
      ground (arith, e.decides k j, e.decides i k, e.decides i j, lookup-insert k j v d)

  pub lookup-remove :
      (k j : K) (d : Dict K V) → lookup j (remove k d) ≡ (if k == j then none else lookup j d)
  unfolding lookup remove
  lookup-remove k j [] = ground arith
  lookup-remove k j ((i, w) ∷ d) =
      ground (arith, e.decides k j, e.decides i k, e.decides i j, lookup-remove k j d)

  pub lookup-adjust :
      (k j : K) (f : V → V) (d : Dict K V)
      → lookup j (adjust k f d) ≡ (if k == j then apply f (lookup j d) else lookup j d)
  unfolding lookup adjust
  lookup-adjust k j f [] = ground arith
  lookup-adjust k j f ((i, w) ∷ d) =
      ground (arith, e.decides k j, e.decides i k, e.decides i j, lookup-adjust k j f d)

  abbrev pub keys : Dict K V → List K
  keys [] = []
  keys ((k, v) ∷ d) = k ∷ keys d

  pub has-contains : (d : Dict K V) (k : K) → has d k ≡ contains (keys d) k
  unfolding lookup
  has-contains [] k = refl
  has-contains ((j, v) ∷ d) k = ground (arith, has-contains d k)

pub ruleset dict_laws = (lookup-insert, lookup-remove, lookup-adjust)
