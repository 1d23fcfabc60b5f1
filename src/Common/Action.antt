-- ===== src/Common/Action.antt =====
-- Statements that change a state and may raise: what was written before a raise stays written.
use mathlib.Core.Path.{◌≡◌, refl}
use mathlib.Core.Bool.{Bool, true, false}
use feather_flow.Common.Results.{Result, ok, err}

abbrev pub Action : Type 0 → Type 0 → Type 0 → Type 0
Action S E A = S → Result E A × S

module _ {S E A : Type 0} where
  abbrev pub pure : A → Action S E A
  pure a s = (ok a, s)

  abbrev pub throw : E → Action S E A
  throw e s = (err e, s)

  abbrev pub gets : (S → A) → Action S E A
  gets f s = (ok (f s), s)

  abbrev pub lift : Result E A → Action S E A
  lift r s = (r, s)

abbrev pub modify : {S E : Type 0} → (S → S) → Action S E Unit
modify f s = (ok tt, f s)

module _ {S E A B : Type 0} where
  abbrev pub and_then : Result E A → (A → Action S E B) → Action S E B
  and_then (ok a) f s = f a s
  and_then (err e) f s = (err e, s)

  infixl 5 ◌>>=◌ ◌>>◌
  abbrev pub ◌>>=◌ : Action S E A → (A → Action S E B) → Action S E B
  ◌>>=◌ m f s = let (r, s') = m s in and_then r f s'

  abbrev pub ◌>>◌ : Action S E A → Action S E B → Action S E B
  m >> k = m >>= λ _. k

module _ {S E A : Type 0} where
  abbrev pub handle : Result E A → (E → Action S E A) → Action S E A
  handle (ok a) f s = (ok a, s)
  handle (err e) f s = f e s

  -- `try: m` / `except Exception as e: f(e)`
  abbrev pub try_except : Action S E A → (E → Action S E A) → Action S E A
  try_except m f s = let (r, s') = m s in handle r f s'

-- `if b: m`
abbrev pub when : {S E : Type 0} → Bool → Action S E Unit → Action S E Unit
when true m = m
when false m = pure tt

-- What a statement and all that may follow it keep.
pub and_then-keeps :
    {S E A B : Type 0} (P : S → Type 0) (r : Result E A) (f : A → Action S E B) (s : S)
    → P s
    → ((a : A) → P (f a s).1)
    → P (and_then r f s).1
and_then-keeps P (ok a) f s h k = k a
and_then-keeps P (err e) f s h k = h

pub and_then-ok :
    {S E A B : Type 0} (r : Result E A) (f : A → Action S E B) (s s' : S) (b : B)
    → and_then r f s ≡ (ok b, s')
    → (a : A) × (r ≡ ok a) × (f a s ≡ (ok b, s'))
and_then-ok (ok a) f s s' b h = (a, refl, h)
and_then-ok (err e) f s s' b h = cc
