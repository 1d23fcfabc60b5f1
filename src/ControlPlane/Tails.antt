-- ===== src/ControlPlane/Tails.antt =====
-- control_plane/wal.py: what is read of a log to which complete records were appended, and of a
-- line that is torn.
use feather_flow.Common.{
  ◌≡◌, refl, sym, ap, ◌∙◌, ℕ, zero, suc, ◌+◌, ◌-◌, ◌≤◌, Bool, true, false, not, ◌&&◌, List, [], ◌∷◌,
  ◌++◌, some, ◌==◌, nat_eq, length, length-append, all, if◌then◌else◌, All, Result, ok, ◌>>=◌,
  >>=-eq-ok, arith,
}
use mathlib.Core.List.{append_assoc}
use feather_flow.ControlPlane.{Record}
use feather_flow.ControlPlane.Wal.{
  newline, carriage_return, attach, splitlines, ends_newline, is_blank_byte, bytes_from, parse_line,
  take_line, read_lines, read_new,
}

-- The bytes break no line.
abbrev pub is_plain : List ℕ → Bool
is_plain = all (λ b. not (b == newline) && not (b == carriage_return))

splitlines-line :
    (line more : List ℕ)
    → is_plain line ≡ true
    → splitlines (line ++ newline ∷ more) ≡ (line ++ newline ∷ []) ∷ splitlines more
unfolding splitlines
splitlines-line [] more h = refl
splitlines-line (b ∷ line) more h = ground (arith, splitlines-line line more)

splitlines-plain :
    (b : ℕ) (tail : List ℕ) → is_plain (b ∷ tail) ≡ true → splitlines (b ∷ tail) ≡ (b ∷ tail) ∷ []
unfolding splitlines
splitlines-plain b [] h = ground arith
splitlines-plain b (c ∷ tail) h = ground (arith, splitlines-plain c tail)

ends_newline-plain :
    (b : ℕ) (tail : List ℕ) → is_plain (b ∷ tail) ≡ true → ends_newline (b ∷ tail) ≡ false
ends_newline-plain b [] h = ground arith
ends_newline-plain b (c ∷ tail) h = ground (arith, ends_newline-plain c tail)

ends_newline-line : (line : List ℕ) → ends_newline (line ++ newline ∷ []) ≡ true
ends_newline-line [] = refl
ends_newline-line (b ∷ []) = refl
ends_newline-line (b ∷ c ∷ line) = ends_newline-line (c ∷ line)

not_blank-line :
    (line rest : List ℕ) → all is_blank_byte line ≡ false → all is_blank_byte (line ++ rest) ≡ false
not_blank-line [] rest h = cc
not_blank-line (b ∷ line) rest h = ground (arith, not_blank-line line rest)

bytes_from-length : (before rest : List ℕ) → bytes_from (length before) (before ++ rest) ≡ rest
unfolding bytes_from
bytes_from-length [] rest = refl
bytes_from-length (b ∷ before) rest = bytes_from-length before rest

module _ {E : Type 0} (loads : List ℕ → Result E Record) where
  torn_unread :
      (tail : List ℕ) → is_plain tail ≡ true → read_lines loads (splitlines tail) ≡ ok ([], 0)
  unfolding splitlines read_lines
  torn_unread [] h = refl
  torn_unread (b ∷ tail) h =
      ap (read_lines loads) (splitlines-plain b tail h)
      ∙ ap (λ x. if x then take_line loads (b ∷ tail) (ok ([], 0)) else ok ([], 0))
          (ends_newline-plain b tail h)

module _ {E : Type 0} (dumps : Record → List ℕ) (loads : List ℕ → Result E Record) where
  -- What `json` does with a record: its text has no line break and is not blank, and it is read
  -- back from the line.
  unfoldable pub IsLogged : Record → Type 0
  IsLogged r =
      (is_plain (dumps r) ≡ true)
      × (all is_blank_byte (dumps r) ≡ false)
      × (loads (dumps r ++ newline ∷ []) ≡ ok r)

  -- The log after the records were appended to an empty one.
  abbrev pub encode : List Record → List ℕ
  encode [] = []
  encode (r ∷ rs) = (dumps r ++ newline ∷ []) ++ encode rs

  parse_line-logged :
      (r : Record) → IsLogged r → parse_line loads (dumps r ++ newline ∷ []) ≡ ok (r ∷ [])
  unfolding IsLogged
  parse_line-logged r (plain, solid, back) =
      ap (λ b. if b then ok [] else loads (dumps r ++ newline ∷ []) >>= λ x. ok (x ∷ []))
        (not_blank-line (dumps r) (newline ∷ []) solid)
      ∙ ap (λ x. x >>= λ y. ok (y ∷ [])) back

  splitlines-record :
      (r : Record) (more : List ℕ)
      → IsLogged r
      → splitlines ((dumps r ++ newline ∷ []) ++ more) ≡ (dumps r ++ newline ∷ []) ∷ splitlines more
  unfolding IsLogged
  splitlines-record r more (plain, solid, back) =
      ap splitlines (append_assoc (dumps r) (newline ∷ []) more)
      ∙ splitlines-line (dumps r) more plain

  read_lines-encode :
      (rs : List Record) (tail : List ℕ)
      → All IsLogged rs
      → is_plain tail ≡ true
      → read_lines loads (splitlines (encode rs ++ tail)) ≡ ok (rs, length (encode rs))
  unfolding read_lines
  read_lines-encode [] tail h plain = torn_unread loads tail plain
  read_lines-encode (r ∷ rs) tail (h, hs) plain =
      ap (λ x. read_lines loads (splitlines x))
        (append_assoc (dumps r ++ newline ∷ []) (encode rs) tail)
      ∙ ap (read_lines loads) (splitlines-record r (encode rs ++ tail) h)
      ∙ ap
          (λ b.
            if b
            then take_line loads (dumps r ++ newline ∷ [])
                (read_lines loads (splitlines (encode rs ++ tail)))
            else ok ([], 0))
          (ends_newline-line (dumps r))
      ∙ ap (take_line loads (dumps r ++ newline ∷ [])) (read_lines-encode rs tail hs plain)
      ∙ ap (λ x. do xs ← x; ok (xs ++ rs, length (dumps r ++ newline ∷ []) + length (encode rs)))
          (parse_line-logged r h)
      ∙ ap (λ n. ok (r ∷ rs, n)) (sym (length-append (dumps r ++ newline ∷ []) (encode rs)))

  -- A log that holds `before` and to which the records and then a part of a line were written is
  -- read from the end of `before`: the result is the records, in their order, and the offset
  -- behind the last of them, so that the torn line is not consumed. The text of each record has no
  -- line break, is not blank and is read back by the parser, and the part has no line break.
  pub read_new-encode :
      (before tail : List ℕ) (rs : List Record)
      → All IsLogged rs
      → is_plain tail ≡ true
      → read_new loads (some (before ++ (encode rs ++ tail))) (length before)
        ≡ ok (rs, length before + length (encode rs))
  unfolding read_new
  read_new-encode before tail rs h plain =
      ap
        (λ bs. do
          (xs, consumed) ← read_lines loads (splitlines bs)
          ok (xs, length before + consumed))
        (bytes_from-length before (encode rs ++ tail))
      ∙ ap (λ x. do (xs, consumed) ← x; ok (xs, length before + consumed))
          (read_lines-encode rs tail h plain)

-- Bytes are neither lost nor made by the lines.
total : List (List ℕ) → ℕ
total [] = 0
total (l ∷ ls) = length l + total ls

total-attach : (b : ℕ) (ls : List (List ℕ)) → total (attach b ls) ≡ suc (total ls)
unfolding total
total-attach b [] = refl
total-attach b (l ∷ ls) = omega arith

total-splitlines : (bs : List ℕ) → total (splitlines bs) ≡ length bs
unfolding splitlines total
total-splitlines [] = refl
total-splitlines (b ∷ bs) = ground (arith, total-splitlines bs, total-attach b (splitlines bs))

length-bytes_from : (n : ℕ) (bs : List ℕ) → length (bytes_from n bs) ≡ length bs - n
unfolding bytes_from
length-bytes_from zero bs = omega arith
length-bytes_from (suc n) [] = omega arith
length-bytes_from (suc n) (b ∷ bs) = omega (arith, length-bytes_from n bs)

module _ {E : Type 0} (loads : List ℕ → Result E Record) where
  nothing_read :
      (rs : List Record) (n : ℕ)
      → Path (Result E (List Record × ℕ)) (ok ([], 0)) (ok (rs, n))
      → n ≡ 0
  nothing_read rs n h = cc

  taken :
      (line : List ℕ) (rest : Result E (List Record × ℕ)) (rs : List Record) (n : ℕ)
      → take_line loads line rest ≡ ok (rs, n)
      → (more : List Record) × (m : ℕ) × (rest ≡ ok (more, m)) × (n ≡ length line + m)
  taken line rest rs n h =
      let (xs, parsed, h') =
        >>=-eq-ok (parse_line loads line)
          (λ ys. do (more, m) ← rest; ok (ys ++ more, length line + m)) h in
      let (p, read, done) =
        >>=-eq-ok rest (λ p. let (more, m) = p in ok (xs ++ more, length line + m)) h' in
      (p.0, p.1, read, cc)

  line_bound :
      (b : Bool) (l : List ℕ) (rest : Result E (List Record × ℕ)) (rs : List Record) (n k : ℕ)
      → ((more : List Record) (m : ℕ) → rest ≡ ok (more, m) → m ≤ k)
      → (if b then take_line loads l rest else ok ([], 0)) ≡ ok (rs, n)
      → n ≤ length l + k
  line_bound true l rest rs n k h taking =
      let (more, m, read, e) = taken l rest rs n taking in omega (arith, h more m read, e)
  line_bound false l rest rs n k h e = omega (arith, nothing_read rs n e)

  read_lines-bound :
      (ls : List (List ℕ)) (rs : List Record) (n : ℕ)
      → read_lines loads ls ≡ ok (rs, n)
      → n ≤ total ls
  unfolding read_lines total
  read_lines-bound [] rs n h = omega (arith, nothing_read rs n h)
  read_lines-bound (l ∷ ls) rs n h =
      line_bound (ends_newline l) l (read_lines loads ls) rs n (total ls) (read_lines-bound ls) h

  consumed_at :
      (xs rs : List Record) (start n off : ℕ)
      → Path (Result E (List Record × ℕ)) (ok (xs, start + n)) (ok (rs, off))
      → off ≡ start + n
  consumed_at xs rs start n off h = cc

  -- The offset that a reading of a file returns stays within the file, whatever its bytes are,
  -- and does not go back, when the reading starts within the file.
  pub read_new-bounds :
      (file : List ℕ) (start off : ℕ) (rs : List Record)
      → start ≤ length file
      → read_new loads (some file) start ≡ ok (rs, off)
      → (start ≤ off) × (off ≤ length file)
  unfolding read_new
  read_new-bounds file start off rs h reading =
      let ((xs, n), lines, e) =
        >>=-eq-ok (read_lines loads (splitlines (bytes_from start file)))
          (λ p. let (ys, m) = p in ok (ys, start + m)) reading in
      let e' = consumed_at xs rs start n off e in
      let b = read_lines-bound (splitlines (bytes_from start file)) xs n lines in
      (
        omega (arith, e'),
        omega (
          arith,
          e',
          b,
          h,
          total-splitlines (bytes_from start file),
          length-bytes_from start file,
        ),
      )
