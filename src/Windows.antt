-- ===== src/Windows.antt =====
-- src/feather_flow/extract_windows.py: the windows of a table's extract. A `ValueError`, and the
-- other exceptions that a bad argument raises, are values of `WindowError`; SQL text is text.
-- `re` and the division of floats enter by `Runtime`.
pub mod Tiling
pub mod PkRange
pub mod Dates
pub mod Quoting
pub mod Tests
use Prim.Native.String.{String}
use feather_flow.Common.{
  ℕ, zero, suc, ◌+◌, ◌-◌, ◌/◌, ◌<◌, ◌≡◌, Bool, true, false, ◌&&◌, ◌||◌, Option, none, some, List,
  [], ◌∷◌, min, max, ltb, leb, if◌then◌else◌, ◌==◌, all, Result, ok, err, ◌>>=◌, ◌>>◌, raise_if,
  string_eq, nat_eq,
}
use feather_flow.Common.Int.{ℤ, pos, ◌+ℤ◌, ◌-ℤ◌, pos_part, ltb_ℤ, leb_ℤ}
use feather_flow.Common.Text.{◌<>◌, codes, str_int, Datetime, last_day, iso_date, iso_midnight}

pub data WindowError : Type 0 where
  unsafe_column unknown_dialect unsupported_grain empty_range column_required range_required
        grain_required unknown_strategy :
      WindowError
  -- `datetime + timedelta` past 9999-12-31 is an OverflowError.
  date_overflow : WindowError
  -- A range of the wrong type is an AttributeError or a TypeError.
  wrong_range_type : WindowError
  fuel_exhausted : WindowError

-- What the module uses of Python's `re` and of the division of floats.
pub record Runtime : Type 0 where
  -- `\w` and `\s`, on the code point of a character
  pub is_word : ℕ → Bool
  pub is_space : ℕ → Bool
  -- `math.ceil(total / n)`
  pub ceil_div : ℕ → ℕ → ℕ

pub record WindowSpec : Type 0 where
  pub window_key : String
  pub window_predicate : String
  pub window_start : Option Datetime
  pub window_end : Option Datetime
  pub source_filter : Option String

-- The `(min, max)` tuple.
pub data Range : Type 0 where
  dates : Datetime → Datetime → Range
  ints : ℤ → ℤ → Range

abbrev pub single_window : WindowSpec
single_window = record {
  window_key = "all";
  window_predicate = "1=1";
  window_start = none;
  window_end = none;
  source_filter = none;
}

abbrev pub is_start : ℕ → Bool
is_start c = (leb b'A' c && leb c b'Z') || ((leb b'a' c && leb c b'z') || c == b'_')

unfoldable pub quotes : String → Option (String × String)
quotes dialect =
    if dialect == "destination"
    then some ("\"", "\"")
    else if dialect == "postgres"
    then some ("\"", "\"")
    else if dialect == "sqlserver"
    then some ("[", "]")
    else if dialect == "mysql"
    then some ("`", "`")
    else none

-- The number of chunks of `total` values.
unfoldable pub chunk_count : ℕ → ℕ
chunk_count total = let n = min 64 (max 8 (total / 100000)) in if ltb total n then total else n

-- The texts that the two predicates make of a quoted column.
abbrev pub date_text : String → ℕ → ℕ → String
date_text quoted start end =
    quoted
    <> " >= '"
    <> iso_midnight start
    <> "' AND "
    <> quoted
    <> " < '"
    <> iso_midnight end
    <> "'"

abbrev pub int_text : String → ℤ → ℤ → String
int_text quoted lo hi_exclusive =
    quoted <> " >= " <> str_int lo <> " AND " <> quoted <> " < " <> str_int hi_exclusive

module _ (py : Runtime) where
  -- `_IDENTIFIER_RE.match`, for the pattern `^[A-Za-z_][\w\s]*$`
  unfoldable pub identifier_codes : List ℕ → Bool
  identifier_codes [] = false
  identifier_codes (c ∷ cs) = is_start c && all (λ d. py.is_word d || py.is_space d) cs

  abbrev pub is_identifier : String → Bool
  is_identifier column = identifier_codes (codes column)

  unfoldable pub quote_for_dialect : String → String → Result WindowError String
  unfolding quotes
  quote_for_dialect column dialect =
      if is_identifier column
      then elim (quotes dialect) [
        | none ↦ err unknown_dialect
        | some (open_q, close_q) ↦ ok (open_q <> column <> close_q)
      ]
      else err unsafe_column

  unfoldable pub date_predicate : String → ℕ → ℕ → String → Result WindowError String
  date_predicate column start end dialect = do
    quoted ← quote_for_dialect column dialect
    ok (date_text quoted start end)

  unfoldable pub int_predicate : String → ℤ → ℤ → String → Result WindowError String
  int_predicate column lo hi_exclusive dialect = do
    quoted ← quote_for_dialect column dialect
    ok (int_text quoted lo hi_exclusive)

  -- The body of the loop of `_plan_date_windows`, for the day that begins at `start`.
  unfoldable pub date_window : String → String → ℕ → Result WindowError WindowSpec
  date_window column dialect start = do
    let end = start + 1
    raise_if (ltb last_day end) date_overflow
    dest_pred ← date_predicate column start end "destination"
    src_filter ← date_predicate column start end dialect
    ok (record {
      window_key = iso_date start;
      window_predicate = dest_pred;
      window_start = some (record { day = start; micros = 0 });
      window_end = some (record { day = end; micros = 0 });
      source_filter = some src_filter;
    })

  -- `while start <= max_dt`: `start` is a midnight, so the test is one of the days.
  unfoldable pub date_loop : String → String → ℕ → ℕ → ℕ → Result WindowError (List WindowSpec)
  date_loop column dialect max_day zero start = err fuel_exhausted
  date_loop column dialect max_day (suc fuel) start =
      let more = do
        w ← date_window column dialect start
        rest ← date_loop column dialect max_day fuel (start + 1)
        ok (w ∷ rest)
      in if leb start max_day then more else ok []

  unfoldable pub plan_date_windows :
      String → String → Datetime → Datetime → String → Result WindowError (List WindowSpec)
  plan_date_windows column grain min_dt max_dt dialect =
      if grain == "1d"
      then date_loop column dialect max_dt.day (suc (max_dt.day + 1 - min_dt.day)) min_dt.day
      else err unsupported_grain

  unfoldable pub int_window : String → String → ℤ → ℤ → Result WindowError WindowSpec
  int_window column dialect lo hi_exclusive = do
    dest_pred ← int_predicate column lo hi_exclusive "destination"
    src_filter ← int_predicate column lo hi_exclusive dialect
    ok (record {
      window_key = str_int lo <> "-" <> str_int (hi_exclusive -ℤ pos 1);
      window_predicate = dest_pred;
      window_start = none;
      window_end = none;
      source_filter = some src_filter;
    })

  -- `for i in range(n)`, with `left = n - 1 - i` rounds after this one.
  unfoldable pub pk_loop : String → String → ℕ → ℤ → ℕ → ℤ → Result WindowError (List WindowSpec)
  pk_loop column dialect chunk max_int zero lo = do
    w ← int_window column dialect lo (max_int +ℤ pos 1)
    ok (w ∷ [])
  pk_loop column dialect chunk max_int (suc left) lo = do
    let hi_exclusive = lo +ℤ pos chunk
    w ← int_window column dialect lo hi_exclusive
    let more = pk_loop column dialect chunk max_int left hi_exclusive
    if ltb_ℤ max_int hi_exclusive then ok (w ∷ []) else (do rest ← more; ok (w ∷ rest))

  unfoldable pub plan_pk_range_windows :
      String → ℤ → ℤ → String → Result WindowError (List WindowSpec)
  plan_pk_range_windows column min_int max_int dialect =
      let total = pos_part (max_int -ℤ min_int +ℤ pos 1) in
      let n = chunk_count total in
      if leb_ℤ (max_int -ℤ min_int +ℤ pos 1) (pos 0)
      then err empty_range
      else pk_loop column dialect (py.ceil_div total n) max_int (n - 1) min_int

  -- The two strategies that need a range, behind the validation of `plan_windows`.
  unfoldable pub plan_ranged :
      String → String → Option String → Range → String → Result WindowError (List WindowSpec)
  plan_ranged strategy column grain (dates min_dt max_dt) dialect =
      if strategy == "date"
      then elim grain [
        | none ↦ err grain_required
        | some g ↦ plan_date_windows column g min_dt max_dt dialect
      ]
      else if strategy == "pk_range"
      then err wrong_range_type
      else err unknown_strategy
  plan_ranged strategy column grain (ints min_int max_int) dialect =
      if strategy == "date"
      then elim grain [
        | none ↦ err grain_required
        | some g ↦ if g == "1d" then err wrong_range_type else err unsupported_grain
      ]
      else if strategy == "pk_range"
      then plan_pk_range_windows column min_int max_int dialect
      else err unknown_strategy

  unfoldable pub plan_windows :
      String
      → Option String
      → Option String
      → Option Range
      → String
      → Result WindowError (List WindowSpec)
  plan_windows strategy column grain range_ dialect =
      if strategy == "single" then ok (single_window ∷ []) else elim column [
        | none ↦ err column_required
        | some col ↦ elim range_ [
          | none ↦ err range_required
          | some r ↦ do
            quote_for_dialect col "destination"
            plan_ranged strategy col grain r dialect
        ]
      ]
