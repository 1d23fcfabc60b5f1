-- ===== src/DiscoverState/Renames.antt =====
-- The renames that are proposed.
use feather_flow.Common.{
  ℕ, ◌+◌, ◌≤◌, ◌≡◌, refl, ap, subst, sym, false, not, Option, none, some, List, [], ◌∷◌,
  if◌then◌else◌, select, length, contains, String, ◌==◌, string_eq, arith,
}
use feather_flow.Common.Dict.{has}
use feather_flow.DiscoverState.{
  Sources, RenameReport, current_names, candidates, chosen_old, add_used, add_rename, rename_loop,
  detect_renames,
}

-- How often an old name is proposed.
abbrev pub times_proposed : String → List (String × String) → ℕ
times_proposed old proposals = length (select (λ (o, new). o == old) proposals)

chosen_free :
    (found used : List String) (old : String)
    → chosen_old found (select (λ name. not (contains used name)) found) ≡ some old
    → contains used old ≡ false
chosen_free [] used old h = cc
chosen_free (c ∷ []) used old h = ground (arith, h)
chosen_free (c ∷ d ∷ rest) used old h = cc

times-add_rename :
    (new : String) (o : Option String) (found : List String) (later : RenameReport) (old : String)
    → times_proposed old (add_rename new o found later).proposals
      ≡ (if contains (add_used o []) old then 1 else 0) + times_proposed old later.proposals
times-add_rename new (some c) found later old = ground arith
times-add_rename new none [] later old = omega arith
times-add_rename new none (c ∷ cs) later old = omega arith

once_more :
    (o : Option String) (used : List String) (old : String) (n : ℕ)
    → ((c : String) → o ≡ some c → contains used c ≡ false)
    → n ≤ (if contains (add_used o used) old then 0 else 1)
    → (if contains (add_used o []) old then 1 else 0) + n ≤ (if contains used old then 0 else 1)
once_more none used old n free h = ground (arith, h)
once_more (some c) used old n free h =
    ground (arith, h, free c refl, string_eq.decides c old, ap (contains used) {x = c} {y = old})

used_or_once :
    (sources : Sources) (current : List String) (pairs : List (String × String))
    (used : List String) (old : String)
    → times_proposed old (rename_loop sources current pairs used).proposals
      ≤ (if contains used old then 0 else 1)
unfolding rename_loop
used_or_once sources current [] used old = ground arith
used_or_once sources current ((new, fingerprint) ∷ rest) used old =
    let found = if has sources new then [] else candidates current fingerprint sources in
    let o = chosen_old found (select (λ name. not (contains used name)) found) in
    let later = rename_loop sources current rest (add_used o used) in
    subst (λ n. n ≤ (if contains used old then 0 else 1))
      (sym (times-add_rename new o found later old))
      (once_more o used old (times_proposed old later.proposals) (λ c e. chosen_free found used c e)
        (used_or_once sources current rest (add_used o used) old))

-- No old name is proposed for two new names.
pub proposed_once :
    (sources : Sources) (current : List (String × String)) (old : String)
    → times_proposed old (detect_renames sources current).proposals ≤ 1
unfolding detect_renames
proposed_once sources current old = used_or_once sources (current_names current) current [] old
