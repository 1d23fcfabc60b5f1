-- ===== src/Windows/Tiling.antt =====
-- Half-open intervals of integers that follow one another, and how often they hold a number.
use feather_flow.Common.{ℕ, ◌≡◌, Bool, ◌&&◌, List, [], ◌∷◌, arith, length, select, refl}
use feather_flow.Common.Int.{ℤ, ◌≤ℤ◌, ◌<ℤ◌, leb_ℤ, ltb_ℤ}

-- From `lo` on, without a gap or an overlap, past `top`.
abbrev pub Tiles : ℤ → ℤ → List (ℤ × ℤ) → Type 0
Tiles lo top [] = top <ℤ lo
Tiles lo top ((a, b) ∷ rest) = (a ≡ lo) × (lo ≤ℤ top) × (lo <ℤ b) × Tiles b top rest

abbrev pub inside : ℤ → ℤ × ℤ → Bool
inside x (a, b) = leb_ℤ a x && ltb_ℤ x b

-- The number of intervals that hold `x`.
abbrev pub times : ℤ → List (ℤ × ℤ) → ℕ
times x bounds = length (select (inside x) bounds)

pub times_before :
    (x lo top : ℤ) (bounds : List (ℤ × ℤ)) → Tiles lo top bounds → x <ℤ lo → times x bounds ≡ 0
times_before x lo top [] t h = refl
times_before x lo top ((a, b) ∷ rest) t h = ground (arith, times_before x b top rest)

-- Intervals that tile a range hold each of its numbers once.
pub times_inside :
    (x lo top : ℤ) (bounds : List (ℤ × ℤ))
    → Tiles lo top bounds
    → lo ≤ℤ x
    → x ≤ℤ top
    → times x bounds ≡ 1
times_inside x lo top [] t h k = absurd (omega arith)
times_inside x lo top ((a, b) ∷ rest) t h k =
    ground (arith, times_before x b top rest, times_inside x b top rest)
