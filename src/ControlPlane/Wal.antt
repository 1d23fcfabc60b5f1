-- ===== src/ControlPlane/Wal.antt =====
-- control_plane/wal.py: the append-only log of one run, as the bytes of its file. What
-- `json.dumps` and `json.loads` make of a record are parameters.
use feather_flow.Common.{
  ℕ, zero, suc, ◌+◌, Bool, false, not, ◌&&◌, ◌||◌, List, [], ◌∷◌, ◌++◌, Option, none, some, ◌==◌,
  nat_eq, length, all, if◌then◌else◌, Result, ok, ◌>>=◌,
}
use feather_flow.ControlPlane.{Record}

abbrev pub newline : ℕ
newline = 10

abbrev pub carriage_return : ℕ
carriage_return = 13

abbrev pub starts_newline : List ℕ → Bool
starts_newline [] = false
starts_newline (b ∷ bs) = b == newline

-- The byte ends a line: a newline, or a carriage return that no newline follows.
abbrev pub ends_line : ℕ → List ℕ → Bool
ends_line b bs = b == newline || (b == carriage_return && not (starts_newline bs))

abbrev pub attach : ℕ → List (List ℕ) → List (List ℕ)
attach b [] = (b ∷ []) ∷ []
attach b (l ∷ ls) = (b ∷ l) ∷ ls

-- `data.splitlines(keepends=True)`
unfoldable pub splitlines : List ℕ → List (List ℕ)
splitlines [] = []
splitlines (b ∷ bs) =
    let rest = splitlines bs in if ends_line b bs then (b ∷ []) ∷ rest else attach b rest

-- `line.endswith(b"\n")`
abbrev pub ends_newline : List ℕ → Bool
ends_newline [] = false
ends_newline (b ∷ []) = b == newline
ends_newline (b ∷ c ∷ bs) = ends_newline (c ∷ bs)

-- The white space that `bytes.strip` removes.
abbrev pub is_blank_byte : ℕ → Bool
is_blank_byte b = b == 32 || b == 9 || b == newline || b == carriage_return || b == 11 || b == 12

-- `f.seek(n); f.read()`
unfoldable pub bytes_from : ℕ → List ℕ → List ℕ
bytes_from zero bs = bs
bytes_from (suc n) [] = []
bytes_from (suc n) (b ∷ bs) = bytes_from n bs

-- `os.write` to a descriptor opened with O_CREAT and O_APPEND
abbrev pub append_bytes : List ℕ → Option (List ℕ) → Option (List ℕ)
append_bytes bs none = some bs
append_bytes bs (some file) = some (file ++ bs)

-- `Wal.append`
unfoldable pub append : (Record → List ℕ) → Record → Option (List ℕ) → Option (List ℕ)
append dumps r file = append_bytes (dumps r ++ newline ∷ []) file

module _ {E : Type 0} (loads : List ℕ → Result E Record) where
  -- `if line.strip(): records.append(json.loads(...))`; `loads` reads past the white space around
  -- a document.
  abbrev pub parse_line : List ℕ → Result E (List Record)
  parse_line line = if all is_blank_byte line then ok [] else loads line >>= λ r. ok (r ∷ [])

  -- One line that is complete, and the lines behind it.
  abbrev pub take_line : List ℕ → Result E (List Record × ℕ) → Result E (List Record × ℕ)
  take_line line rest = do
    rs ← parse_line line
    (more, consumed) ← rest
    ok (rs ++ more, length line + consumed)

  -- The loop over the lines: the records, and the bytes that are consumed.
  unfoldable pub read_lines : List (List ℕ) → Result E (List Record × ℕ)
  read_lines [] = ok ([], 0)
  read_lines (line ∷ lines) =
      let rest = read_lines lines in if ends_newline line then take_line line rest else ok ([], 0)

  -- `read_new`
  unfoldable pub read_new : Option (List ℕ) → ℕ → Result E (List Record × ℕ)
  read_new none start = ok ([], start)
  read_new (some file) start = do
    (rs, consumed) ← read_lines (splitlines (bytes_from start file))
    ok (rs, start + consumed)
