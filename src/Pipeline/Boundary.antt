-- ===== src/Pipeline/Boundary.antt =====
-- Boundary rows over two runs: what the filter drops, and what the load then leaves of them.
use feather_flow.Common.{
  ℕ, ◌+◌, ◌≤◌, ◌≡◌, refl, ap, sym, ◌∙◌, Bool, true, not, ◌&&◌, List, [], ◌∷◌, Option, none, some,
  map, select, length, contains, String, ◌==◌, string_eq, ==_refl, ok, arith,
}
use feather_flow.Destination.{World}
use feather_flow.Destination.Replacing.{row_list, select-append}
use feather_flow.Destination.Incremental.{min_of, from_on, load_incremental, incremental_replaces}
use feather_flow.Pipeline.{pk_hash, compute_pk_hashes, is_loaded, filter_loop, filter_boundary_rows}

kept-filter_loop :
    {Row : Type 0} (p : Row → Bool) (rows : List Row)
    → ((filter_loop p rows).0 ≡ select (λ r. not (p r)) rows)
      × ((filter_loop p rows).1 + length (filter_loop p rows).0 ≡ length rows)
unfolding filter_loop
kept-filter_loop p [] = (refl, refl)
kept-filter_loop p (row ∷ rows) = ground (arith, kept-filter_loop p rows)

-- If `q` holds where `p` does, dropping what satisfies `q` drops what satisfies `p`.
covered :
    {Row : Type 0} (p q : Row → Bool) (xs : List Row)
    → ((x : Row) → p x ≡ true → q x ≡ true)
    → select p (select (λ x. not (q x)) xs) ≡ []
covered p q [] h = refl
covered p q (x ∷ xs) h = ground (arith, covered p q xs h, h x)

is_recent : (m t : ℕ) (o : Option ℕ) → m ≤ t → o ≡ some t → from_on (some m) o ≡ true
is_recent m t none early h = cc
is_recent m t (some u) early h = ground (arith, early, h)

left_of : (a b : Bool) → (a && b) ≡ true → a ≡ true
left_of a b h = ground (arith, h)

module _ {Row : Type 0} (cell : String → Row → String) (sha256 : String → String) where
  -- The rows at a watermark.
  abbrev pub is_at : String → String → Row → Bool
  is_at ts_column watermark row = cell ts_column row == watermark

  none_left :
      (rows : List Row) (primary_key : List String) (ts_column watermark : String)
      (hashes : List String)
      → ((h : String)
          → contains (compute_pk_hashes cell sha256 rows primary_key ts_column watermark) h ≡ true
          → contains hashes h ≡ true)
      → select
          (is_at ts_column watermark)
          (select (λ r. not (is_loaded cell sha256 primary_key ts_column watermark hashes r)) rows)
        ≡ []
  unfolding compute_pk_hashes
  none_left [] primary_key ts_column watermark hashes stored = refl
  none_left (row ∷ rows) primary_key ts_column watermark hashes stored = ground (
    arith,
    none_left rows primary_key ts_column watermark hashes (λ h k. stored h (ground (arith, k))),
    stored (pk_hash cell sha256 primary_key row),
    ==_refl (pk_hash cell sha256 primary_key row),
  )

  unhashed :
      (rows : List Row) (primary_key : List String) (ts_column watermark : String)
      → compute_pk_hashes cell sha256 rows primary_key ts_column watermark ≡ []
      → select (is_at ts_column watermark) rows ≡ []
  unfolding compute_pk_hashes
  unhashed [] primary_key ts_column watermark h = refl
  unhashed (row ∷ rows) primary_key ts_column watermark h =
      ground (arith, unhashed rows primary_key ts_column watermark)

  filtered-some :
      (rows : List Row) (k : String) (ks : List String) (ts_column watermark : String)
      (hashes : List String)
      → ((h : String)
          → contains (compute_pk_hashes cell sha256 rows (k ∷ ks) ts_column watermark) h ≡ true
          → contains hashes h ≡ true)
      → compute_pk_hashes cell sha256 rows (k ∷ ks) ts_column watermark ≡ hashes
      → select
          (is_at ts_column watermark)
          (filter_boundary_rows cell sha256 rows (some (k ∷ ks)) ts_column watermark hashes).0
        ≡ []
  unfolding filter_boundary_rows
  filtered-some rows k ks ts_column watermark [] stored e =
      unhashed rows (k ∷ ks) ts_column watermark e
  filtered-some rows k ks ts_column watermark (h ∷ hs) stored e =
      ap (select (is_at ts_column watermark))
        (kept-filter_loop (is_loaded cell sha256 (k ∷ ks) ts_column watermark (h ∷ hs)) rows).0
      ∙ none_left rows (k ∷ ks) ts_column watermark (h ∷ hs) stored

  counted :
      (rows : List Row) (k : String) (ks : List String) (ts_column watermark : String)
      (hashes : List String)
      → (filter_boundary_rows cell sha256 rows (some (k ∷ ks)) ts_column watermark hashes).1
          + length
              (filter_boundary_rows cell sha256 rows (some (k ∷ ks)) ts_column watermark hashes).0
        ≡ length rows
  unfolding filter_boundary_rows
  counted rows k ks ts_column watermark [] = omega arith
  counted rows k ks ts_column watermark (h ∷ hs) =
      (kept-filter_loop (is_loaded cell sha256 (k ∷ ks) ts_column watermark (h ∷ hs)) rows).1

  -- For a table with a key, the filter with the hashes that a batch left behind lets no row of that
  -- batch at the watermark through, and what it keeps and what it counts as skipped make up the
  -- batch.
  pub same_batch_filtered :
      (rows : List Row) (k : String) (ks : List String) (ts_column watermark : String)
      → (select
            (is_at ts_column watermark)
            (filter_boundary_rows cell sha256 rows
              (some (k ∷ ks))
              ts_column
              watermark
              (compute_pk_hashes cell sha256 rows (k ∷ ks) ts_column watermark)).0
          ≡ [])
        × ((filter_boundary_rows cell sha256 rows
                (some (k ∷ ks))
                ts_column
                watermark
                (compute_pk_hashes cell sha256 rows (k ∷ ks) ts_column watermark)).1
              + length
                  (filter_boundary_rows cell sha256 rows
                    (some (k ∷ ks))
                    ts_column
                    watermark
                    (compute_pk_hashes cell sha256 rows (k ∷ ks) ts_column watermark)).0
            ≡ length rows)
  same_batch_filtered rows k ks ts_column watermark = (
    filtered-some rows k ks ts_column watermark
        (compute_pk_hashes cell sha256 rows (k ∷ ks) ts_column watermark) (λ h c. c) refl,
    counted rows k ks ts_column watermark
        (compute_pk_hashes cell sha256 rows (k ∷ ks) ts_column watermark),
  )

  module _ (stamp : Row → Option ℕ) (catalog_error : String → String) where
    -- A second incremental run loses boundary rows. The batch of the run, filtered by the stored
    -- hashes, is not empty, and its least timestamp `m` is not after the timestamp `t` of every
    -- row whose text is the watermark, which happens when the overlap brings back a row before the
    -- watermark. If the load returns, no row at the watermark with a stored hash is left in the
    -- table: the DELETE takes those that were there, and the filter those of the batch.
    pub boundary_rows_lost :
        (table run_id : String) (rows : List Row) (k : String) (ks : List String)
        (ts_column watermark h : String) (hs : List String) (r : Row) (rs : List Row) (m t n : ℕ)
        (w w' : World Row)
        → (filter_boundary_rows cell sha256 rows (some (k ∷ ks)) ts_column watermark (h ∷ hs)).0
          ≡ r ∷ rs
        → min_of (map stamp (r ∷ rs)) ≡ some m
        → m ≤ t
        → ((x : Row) → is_at ts_column watermark x ≡ true → stamp x ≡ some t)
        → load_incremental stamp catalog_error table (r ∷ rs) run_id w ≡ (ok n, w')
        → select (is_loaded cell sha256 (k ∷ ks) ts_column watermark (h ∷ hs)) (row_list table w')
          ≡ []
    boundary_rows_lost table run_id rows k ks ts_column watermark h hs r rs m t n w w' filtered
          least early at load =
        let loaded = is_loaded cell sha256 (k ∷ ks) ts_column watermark (h ∷ hs) in
        let recent = λ (x : Row). from_on (some m) (stamp x) in
        let (after, _) = incremental_replaces stamp catalog_error table run_id r rs n w w' load in
        let kept =
          select (λ x. not (from_on (min_of (map stamp (r ∷ rs))) (stamp x))) (row_list table w) in
        let batch : r ∷ rs ≡ select (λ x. not (loaded x)) rows =
          sym filtered ∙ (unfold filter_boundary_rows in (kept-filter_loop loaded rows).0) in
        ap (select loaded) after
        ∙ select-append loaded kept (r ∷ rs)
        ∙ cc (
          ap (λ o. select loaded (select (λ x. not (from_on o (stamp x))) (row_list table w)))
              least,
          covered loaded recent (row_list table w)
              (λ x l. is_recent m t (stamp x) early (at x (left_of _ _ l))),
          ap (select loaded) batch,
          covered loaded loaded rows (λ x l. l),
        )
