-- ===== src/Windows/PkRange.antt =====
-- `_plan_pk_range_windows`: the chunks of an integer key.
use feather_flow.Common.{
  ℕ, zero, suc, ◌-◌, ◌≤◌, ◌<◌, ◌≡◌, refl, ◌∙◌, ◌&&◌, inl, inr, List, [], ◌∷◌, arith, length,
  if◌then◌else◌, Bool-cases, traverse, String,
}
use feather_flow.Common.Int.{
  ℤ, pos, ◌+ℤ◌, ◌-ℤ◌, pos_part, ◌≤ℤ◌, ltb_ℤ, leb_ℤ, int_laws, +ℤ_parts, -ℤ_parts,
}
use feather_flow.Windows.{Runtime, chunk_count, int_window, pk_loop, plan_pk_range_windows}
use feather_flow.Windows.Tiling.{Tiles, times, times_inside}

-- The bounds of the windows that the loop makes.
pk_bounds : ℕ → ℤ → ℕ → ℤ → List (ℤ × ℤ)
pk_bounds chunk top zero lo = (lo, top +ℤ pos 1) ∷ []
pk_bounds chunk top (suc left) lo =
    let rest = pk_bounds chunk top left (lo +ℤ pos chunk) in
    if ltb_ℤ top (lo +ℤ pos chunk) then (lo, lo +ℤ pos chunk) ∷ [] else (lo, lo +ℤ pos chunk) ∷ rest

pk_bounds-Tiles :
    (chunk : ℕ) (top : ℤ) (left : ℕ) (lo : ℤ)
    → 0 < chunk
    → lo ≤ℤ top
    → Tiles lo top (pk_bounds chunk top left lo)
unfolding pk_bounds
pk_bounds-Tiles chunk top zero lo c h = (refl, h, omega int_laws, omega int_laws)
pk_bounds-Tiles chunk top (suc left) lo c h = elim (Bool-cases (ltb_ℤ top (lo +ℤ pos chunk))) [
  | inl last ↦ rw last (refl, h, omega int_laws, ground arith)
  | inr more ↦
      rw more
        (refl, h, omega int_laws, pk_bounds-Tiles chunk top left (lo +ℤ pos chunk) c (ground arith))
]

length-pk_bounds-le :
    (chunk : ℕ) (top : ℤ) (left : ℕ) (lo : ℤ) → length (pk_bounds chunk top left lo) ≤ suc left
unfolding pk_bounds
length-pk_bounds-le chunk top zero lo = omega arith
length-pk_bounds-le chunk top (suc left) lo =
    ground (arith, length-pk_bounds-le chunk top left (lo +ℤ pos chunk))

chunk_count_bounds : (total : ℕ) → 0 < total → (0 < chunk_count total) × (chunk_count total ≤ 64)
unfolding chunk_count
chunk_count_bounds total h = ground arith

module _ (py : Runtime) where
  pk_loop-traverse :
      (column dialect : String) (chunk : ℕ) (top : ℤ) (left : ℕ) (lo : ℤ)
      → pk_loop py column dialect chunk top left lo
        ≡ traverse (λ (a, b). int_window py column dialect a b) (pk_bounds chunk top left lo)
  unfolding pk_loop pk_bounds
  pk_loop-traverse column dialect chunk top zero lo = refl
  pk_loop-traverse column dialect chunk top (suc left) lo =
      elim (Bool-cases (ltb_ℤ top (lo +ℤ pos chunk))) [
        | inl last ↦ simp last
        | inr more ↦ simp (more, pk_loop-traverse column dialect chunk top left (lo +ℤ pos chunk))
      ]

-- What the plan computes of a range that is not empty.
plan-pk_loop :
    (py : Runtime) (column dialect : String) (min_int max_int : ℤ)
    → min_int ≤ℤ max_int
    → (total : ℕ) × (0 < total)
      × (plan_pk_range_windows py column min_int max_int dialect
          ≡ pk_loop py column dialect
              (py.ceil_div total (chunk_count total))
              max_int
              (chunk_count total - 1)
              min_int)
unfolding plan_pk_range_windows
plan-pk_loop py column dialect min_int max_int h =
    let gap : ℤ = max_int -ℤ min_int +ℤ pos 1 in
    (
      pos_part gap,
      ground (arith, +ℤ_parts (max_int -ℤ min_int) (pos 1), -ℤ_parts max_int min_int),
      ground (arith, +ℤ_parts (max_int -ℤ min_int) (pos 1), -ℤ_parts max_int min_int),
    )

once :
    (x lo top : ℤ) (bounds : List (ℤ × ℤ))
    → Tiles lo top bounds
    → (if leb_ℤ lo x && leb_ℤ x top then times x bounds else 1) ≡ 1
once x lo top bounds t = ground (arith, times_inside x lo top bounds t)

-- The plan of an integer range that is not empty is made of at most 64 windows, each the
-- `int_window` of its bounds (or it raises the first error that one of these raises), and the
-- bounds hold each integer of the range exactly once; of the rounded quotient of floats this
-- takes only that it is positive.
pub pk_range_partition :
    (py : Runtime) (column dialect : String) (min_int max_int : ℤ)
    → ((total n : ℕ) → 0 < total → 0 < n → 0 < py.ceil_div total n)
    → min_int ≤ℤ max_int
    → (bounds : List (ℤ × ℤ)) × (plan_pk_range_windows py column min_int max_int dialect
        ≡ traverse (λ (a, b). int_window py column dialect a b) bounds)
      × (length bounds ≤ 64)
      × ((x : ℤ) → (if leb_ℤ min_int x && leb_ℤ x max_int then times x bounds else 1) ≡ 1)
pk_range_partition py column dialect min_int max_int positive h =
    let (total, filled, planned) = plan-pk_loop py column dialect min_int max_int h in
    let (n_pos, n_le) = chunk_count_bounds total filled in
    let chunk = py.ceil_div total (chunk_count total) in
    let left = chunk_count total - 1 in
    (
      pk_bounds chunk max_int left min_int,
      planned ∙ pk_loop-traverse py column dialect chunk max_int left min_int,
      omega (arith, length-pk_bounds-le chunk max_int left min_int),
      λ x. once x min_int max_int (pk_bounds chunk max_int left min_int) (
          pk_bounds-Tiles chunk max_int left min_int
            (positive total (chunk_count total) filled n_pos) h),
    )
