-- ===== src/Destination/Incremental.antt =====
-- `load_incremental`: the rows from the least timestamp of the batch on are replaced by the batch.
-- The value of a timestamp column in a row is a parameter, `stamp`, with `none` for a NULL.
use feather_flow.Common.{
  ℕ, ◌≡◌, refl, ap, ◌∙◌, Bool, false, not, Option, none, some, List, [], ◌∷◌, ◌++◌, map, min, leb,
  if◌then◌else◌, length, select, String, ==_refl, string_eq, Result, ok, err, Option-cases,
  Bool-cases, inl, inr, arith,
}
use feather_flow.Common.Dict.{lookup-insert}
use feather_flow.Common.Action.{Action, pure, throw, gets, lift, modify, ◌>>=◌, ◌>>◌}
use feather_flow.Common.Text.{◌<>◌}
use feather_flow.Destination.{Loaded, World, is_qualified, stamp_rows, commit_table, table_of}
use feather_flow.Destination.Replacing.{plain, row_list, plain-append, plain-stamp}

-- `pc.min`, which passes over NULLs.
abbrev least : Option ℕ → Option ℕ → Option ℕ
least none b = b
least (some a) none = some a
least (some a) (some b) = some (min a b)

unfoldable pub min_of : List (Option ℕ) → Option ℕ
min_of [] = none
min_of (t ∷ ts) = least t (min_of ts)

-- `ts >= min` in SQL: a comparison with a NULL holds of no row.
abbrev pub from_on : Option ℕ → Option ℕ → Bool
from_on none t = false
from_on (some m) none = false
from_on (some m) (some t) = leb m t

module _ {Row : Type 0} (stamp : Row → Option ℕ) (catalog_error : String → String) where
  -- The transaction: DELETE of the rows from the minimum on, and INSERT of the batch.
  unfoldable pub replace_from :
      String → String → List Row → Option (List (Loaded Row)) → Result String (List (Loaded Row))
  replace_from table run_id batch none = err (catalog_error table)
  replace_from table run_id batch (some ls) = ok (
      select (λ l. not (from_on (min_of (map stamp batch)) (stamp l.row))) ls
      ++ stamp_rows run_id batch)

  unfoldable pub load_rows : String → List Row → String → Action (World Row) String ℕ
  load_rows table batch run_id =
      if is_qualified table
      then (do
        current ← gets (table_of table)
        ls ← lift (replace_from table run_id batch current)
        modify (commit_table table ls)
        pure (length batch))
      else throw ("load_incremental expects schema.table, got: " <> table)

  unfoldable pub load_incremental : String → List Row → String → Action (World Row) String ℕ
  load_incremental table [] run_id = pure 0
  load_incremental table (r ∷ rs) run_id = load_rows table (r ∷ rs) run_id

  plain-kept :
      (p : Row → Bool) (ls : List (Loaded Row))
      → plain (select (λ l. p l.row) ls) ≡ select p (plain ls)
  plain-kept p [] = refl
  plain-kept p (l ∷ ls) = ground (arith, plain-kept p ls)

  committed_rows :
      (table : String) (ls : List (Loaded Row)) (w : World Row)
      → row_list table (commit_table table ls w) ≡ plain ls
  committed_rows table ls w = simp (lookup-insert, ==_refl)

  -- A load of a batch that is not empty, if it returns, keeps the rows before the least timestamp
  -- of the batch and the rows whose timestamp is NULL, in their order, puts the batch after them,
  -- and returns the size of the batch.
  pub incremental_replaces :
      (table run_id : String) (r : Row) (rs : List Row) (n : ℕ) (w w' : World Row)
      → load_incremental table (r ∷ rs) run_id w ≡ (ok n, w')
      → (row_list table w'
          ≡ select (λ x. not (from_on (min_of (map stamp (r ∷ rs))) (stamp x))) (row_list table w)
            ++ (r ∷ rs))
        × (n ≡ length (r ∷ rs))
  unfolding load_incremental load_rows replace_from
  incremental_replaces table run_id r rs n w w' h = elim (Bool-cases (is_qualified table)) [
    | inl q ↦ elim (Option-cases (table_of table w)) [
      | inl missing ↦ grind (arith, q, missing, h)
      | inr (ls, there) ↦
          let batch = r ∷ rs in
          let kept = select (λ l. not (from_on (min_of (map stamp batch)) (stamp l.row))) ls in
          let made : w' ≡ commit_table table (kept ++ stamp_rows run_id batch) w =
            grind (arith, q, there, h) in
          (
            ap (row_list table) made
                ∙ committed_rows table (kept ++ stamp_rows run_id batch) w
                ∙ plain-append kept (stamp_rows run_id batch)
                ∙ cc (
                  plain-stamp run_id batch,
                  plain-kept (λ x. not (from_on (min_of (map stamp batch)) (stamp x))) ls,
                  there,
                ),
            grind (arith, q, there, h),
          )
    ]
    | inr q ↦ grind (arith, q, h)
  ]
