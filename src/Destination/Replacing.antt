-- ===== src/Destination/Replacing.antt =====
-- The batched append: it replaces the rows of its window, and does so at once or not at all.
use feather_flow.Common.{
  ℕ, ◌+◌, ◌≡◌, refl, ap, sym, ◌∙◌, Bool, true, false, not, Option, none, some, or_default, List, [],
  ◌∷◌, ◌++◌, map, length, length-append, select, String, string_eq, nat_eq, ok, Option-cases, arith,
  all, inl, inr,
}
use feather_flow.Destination.{
  Loaded, World, Stream, close_transaction, delete_where, stamp_rows, write_batches,
  window_transaction, table_of,
}

append_nil : {A : Type 0} (xs : List A) → xs ++ [] ≡ xs
append_nil [] = refl
append_nil (x ∷ xs) = ap (λ zs. x ∷ zs) (append_nil xs)

append_assoc : {A : Type 0} (xs ys zs : List A) → (xs ++ ys) ++ zs ≡ xs ++ (ys ++ zs)
append_assoc [] ys zs = refl
append_assoc (x ∷ xs) ys zs = ap (λ ws. x ∷ ws) (append_assoc xs ys zs)

module _ {Row : Type 0} where
  -- All rows of the batches.
  abbrev pub rows_of : List (List Row) → List Row
  rows_of [] = []
  rows_of (batch ∷ rest) = batch ++ rows_of rest

  abbrev pub plain : List (Loaded Row) → List Row
  plain = map (λ l. l.row)

  abbrev pub row_list : String → World Row → List Row
  row_list table w = plain (or_default (table_of table w) [])

  pub select-append :
      (p : Row → Bool) (xs ys : List Row) → select p (xs ++ ys) ≡ select p xs ++ select p ys
  select-append p [] ys = refl
  select-append p (x ∷ xs) ys = ground (arith, select-append p xs ys)

  -- Rows that a predicate all satisfies are dropped by its negation; what it dropped stays dropped.
  pub drop_again :
      (p : Row → Bool) (xs ys : List Row)
      → all p ys ≡ true
      → select (λ r. not (p r)) (select (λ r. not (p r)) xs ++ ys) ≡ select (λ r. not (p r)) xs
  drop_again p [] [] h = refl
  drop_again p [] (y ∷ ys) h = ground (arith, drop_again p [] ys)
  drop_again p (x ∷ xs) ys h = ground (arith, drop_again p xs ys)

  -- Replacing twice by the same rows is replacing once.
  pub replaced_twice :
      (p : Row → Bool) (old once twice rows : List Row)
      → once ≡ select (λ r. not (p r)) old ++ rows
      → twice ≡ select (λ r. not (p r)) once ++ rows
      → all p rows ≡ true
      → twice ≡ once
  replaced_twice p old once twice rows h k a =
      k
      ∙ ap (λ rs. select (λ r. not (p r)) rs ++ rows) h
      ∙ ap (λ rs. rs ++ rows) (drop_again p old rows a)
      ∙ sym h

  pub plain-append : (xs ys : List (Loaded Row)) → plain (xs ++ ys) ≡ plain xs ++ plain ys
  plain-append [] ys = refl
  plain-append (x ∷ xs) ys = ap (λ zs. x.row ∷ zs) (plain-append xs ys)

  pub plain-stamp : (run_id : String) (rows : List Row) → plain (stamp_rows run_id rows) ≡ rows
  plain-stamp run_id [] = refl
  plain-stamp run_id (r ∷ rs) = ap (λ zs. r ∷ zs) (plain-stamp run_id rs)

  stamp-append :
      (run_id : String) (xs ys : List Row)
      → stamp_rows run_id (xs ++ ys) ≡ stamp_rows run_id xs ++ stamp_rows run_id ys
  stamp-append run_id [] ys = refl
  stamp-append run_id (x ∷ xs) ys =
      ap (λ zs. record { row = x; run_id = run_id } ∷ zs) (stamp-append run_id xs ys)

  stamp-twice :
      (run_id : String) (ls : List (Loaded Row)) (xs ys : List Row)
      → (ls ++ stamp_rows run_id xs) ++ stamp_rows run_id ys ≡ ls ++ stamp_rows run_id (xs ++ ys)
  stamp-twice run_id ls xs ys =
      append_assoc ls (stamp_rows run_id xs) (stamp_rows run_id ys)
      ∙ ap (λ zs. ls ++ zs) (sym (stamp-append run_id xs ys))

  same_end :
      {a b : List (Loaded Row)} {m n : ℕ}
      → a ≡ b
      → m ≡ n
      → ◌≡◌ {A = Bool × Option (List (Loaded Row)) × ℕ} (true, some a, m) (true, some b, n)
  same_end p q = cc

  module _ (holds : String → Row → Bool) where
    -- Once the table is there, the batches are appended.
    write_batches-started :
        (predicate run_id : String) (ls : List (Loaded Row)) (n : ℕ) (batches : List (List Row))
        → write_batches holds predicate run_id true (some ls) n batches
          ≡ (true, some (ls ++ stamp_rows run_id (rows_of batches)), n + length (rows_of batches))
    unfolding write_batches
    write_batches-started predicate run_id ls n [] = simp (append_nil) (ground arith)
    write_batches-started predicate run_id ls n (batch ∷ rest) =
        simp
          (
            write_batches-started predicate run_id (ls ++ stamp_rows run_id batch)
                (n + length batch) rest,
            stamp-append,
            append_assoc,
            length-append,
          )
          (ground arith)

    -- The whole loop, from its first batch on.
    write_batches-first :
        (predicate run_id : String) (table : Option (List (Loaded Row))) (batch : List Row)
        (rest : List (List Row))
        → write_batches holds predicate run_id false table 0 (batch ∷ rest) ≡ (
          true,
          some (
              delete_where holds predicate (or_default table [])
              ++ stamp_rows run_id (rows_of (batch ∷ rest))),
          length (rows_of (batch ∷ rest)),
        )
    unfolding write_batches
    write_batches-first predicate run_id table batch rest =
        write_batches-started predicate run_id
          (delete_where holds predicate (or_default table []) ++ stamp_rows run_id batch)
          (0 + length batch) rest
        ∙ same_end
            (stamp-twice run_id (delete_where holds predicate (or_default table [])) batch
              (rows_of rest))
            (omega (arith, length-append batch (rows_of rest)))

    plain-delete_where :
        (predicate : String) (ls : List (Loaded Row))
        → plain (delete_where holds predicate ls) ≡ select (λ r. not (holds predicate r)) (plain ls)
    plain-delete_where predicate [] = refl
    plain-delete_where predicate (l ∷ ls) = ground (arith, plain-delete_where predicate ls)

    ended-rows :
        (predicate run_id : String) (table : Option (List (Loaded Row))) (batches : List (List Row))
        (ls : List (Loaded Row)) (n : ℕ)
        → close_transaction holds predicate
            (write_batches holds predicate run_id false table 0 batches)
          ≡ ok (ls, n)
        → (plain ls
            ≡ select (λ r. not (holds predicate r)) (plain (or_default table []))
              ++ rows_of batches)
          × (n ≡ length (rows_of batches))
    unfolding write_batches
    ended-rows predicate run_id none [] ls n h = cc
    ended-rows predicate run_id (some old) [] ls n h = (
      cc (
        h,
        append_nil (select (λ r. not (holds predicate r)) (plain old)),
        plain-delete_where predicate old,
      ),
      cc h,
    )
    ended-rows predicate run_id table (batch ∷ rest) ls n h = (
      cc (
        h,
        write_batches-first predicate run_id table batch rest,
        plain-append (delete_where holds predicate (or_default table []))
            (stamp_rows run_id (rows_of (batch ∷ rest))),
        plain-stamp run_id (rows_of (batch ∷ rest)),
        plain-delete_where predicate (or_default table []),
      ),
      cc (h, write_batches-first predicate run_id table batch rest),
    )

    -- The rows of the table after a transaction that ends well.
    pub transaction-rows :
        (predicate run_id : String) (table : Option (List (Loaded Row))) (stream : Stream Row)
        (ls : List (Loaded Row)) (n : ℕ)
        → window_transaction holds predicate run_id table stream ≡ ok (ls, n)
        → (plain ls
            ≡ select (λ r. not (holds predicate r)) (plain (or_default table []))
              ++ rows_of stream.batches)
          × (n ≡ length (rows_of stream.batches))
    unfolding window_transaction
    transaction-rows predicate run_id table stream ls n h =
        ground (arith, ended-rows predicate run_id table stream.batches ls n)

    ended-again :
        (predicate run_id again : String) (table : Option (List (Loaded Row)))
        (old : List (Loaded Row)) (batches : List (List Row)) (ls : List (Loaded Row)) (n : ℕ)
        → close_transaction holds predicate
            (write_batches holds predicate run_id false table 0 batches)
          ≡ ok (ls, n)
        → (fresh : List (Loaded Row)) × (close_transaction holds predicate
              (write_batches holds predicate again false (some old) 0 batches)
            ≡ ok (fresh, n))
    unfolding write_batches
    ended-again predicate run_id again none old [] ls n h = cc
    ended-again predicate run_id again (some t) old [] ls n h =
        (delete_where holds predicate old, cc h)
    ended-again predicate run_id again table old (batch ∷ rest) ls n h = (
      delete_where holds predicate old ++ stamp_rows again (rows_of (batch ∷ rest)),
      cc (
        h,
        write_batches-first predicate run_id table batch rest,
        write_batches-first predicate again (some old) batch rest,
      ),
    )

    -- A transaction that ended well does so again on the table that it left.
    pub transaction-again :
        (predicate run_id again : String) (table : Option (List (Loaded Row)))
        (old : List (Loaded Row)) (stream : Stream Row) (ls : List (Loaded Row)) (n : ℕ)
        → window_transaction holds predicate run_id table stream ≡ ok (ls, n)
        → (fresh : List (Loaded Row)) × (window_transaction holds predicate again (some old) stream
            ≡ ok (fresh, n))
    unfolding window_transaction
    transaction-again predicate run_id again table old stream ls n h =
        elim (Option-cases stream.failure) [
          | inl ended ↦
              let (fresh, again_ok) =
                ended-again predicate run_id again table old stream.batches ls n (cc (h, ended)) in
              (fresh, cc (again_ok, ended))
          | inr (f, k) ↦ grind (arith, k, h)
        ]
