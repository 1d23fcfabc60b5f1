-- ===== src/Windows/Quoting.antt =====
-- `_quote_for_dialect`: what an accepted column name cannot hold.
use feather_flow.Common.{
  ℕ, ◌≡◌, refl, Bool, true, false, ◌||◌, List, [], ◌∷◌, some, arith, any, all, Option-cases, inl,
  inr, ok, String, ◌==◌, nat_eq, string_eq,
}
use feather_flow.Common.Text.{◌<>◌, codes}
use feather_flow.Windows.{Runtime, identifier_codes, quotes, quote_for_dialect}

-- The characters that end a quoted identifier or a text, and the end of a statement.
abbrev pub is_special : ℕ → Bool
is_special c = c == b'"' || (c == b'[' || (c == b']' || (c == b'`' || (c == b'\'' || c == b';'))))

module _ (py : Runtime)
    (plain : (c : ℕ) → is_special c ≡ true → (py.is_word c || py.is_space c) ≡ false) where
  tail_plain :
      (cs : List ℕ) → all (λ d. py.is_word d || py.is_space d) cs ≡ true → any is_special cs ≡ false
  tail_plain [] h = refl
  tail_plain (c ∷ cs) h = ground (arith, plain c, tail_plain cs)

  identifier_plain : (cs : List ℕ) → identifier_codes py cs ≡ true → any is_special cs ≡ false
  unfolding identifier_codes
  identifier_plain [] h = refl
  identifier_plain (c ∷ cs) h = ground (arith, tail_plain cs)

  -- Where `\w` and `\s` match none of the special characters, a quoted name is the column between
  -- the dialect's quotes, and the column holds no quote of any dialect, no apostrophe and no
  -- semicolon.
  pub quoted_plain :
      (column dialect : String) {text : String}
      → quote_for_dialect py column dialect ≡ ok text
      → (marks : String × String) × (quotes dialect ≡ some marks)
        × (text ≡ marks.0 <> column <> marks.1)
        × (any is_special (codes column) ≡ false)
  unfolding quote_for_dialect
  quoted_plain column dialect h = elim (Option-cases (quotes dialect)) [
    | inl missing ↦ absurd (ground (arith, missing))
    | inr (marks, found) ↦
        (marks, found, ground (arith, found), identifier_plain (codes column) (ground arith))
  ]
