-- ===== src/Common/Text.antt =====
-- Text: the code points of a string, Python's `str` of an integer and the ISO text of a date.
-- A date is the number of days since 0001-01-01, a naive datetime a date and the microseconds
-- since midnight.
use Prim.Native.Char.{code}
use Prim.Native.String.{String, ◌++◌}
use Prim.Native.Nat.{ℕ, zero, suc, ◌+◌, ◌-◌, ◌*◌, ◌/◌, ◌%◌}
use mathlib.Core.Bool.{Bool, ◌||◌, ◌&&◌, not}
use mathlib.Core.List.{List, [], ◌∷◌}
use feather_flow.Common.Tests.{ltb, nat_beq, if◌then◌else◌}
use feather_flow.Common.Int.{ℤ, pos, negsuc}

-- Concatenation of texts, beside that of lists.
infixr 65 ◌<>◌
abbrev pub ◌<>◌ : String → String → String
s <> t = s ++ t

abbrev pub codes : String → List ℕ
codes String.[] = []
codes (String.◌∷◌ c s) = code c ∷ codes s

digit : ℕ → String
digit n =
    if nat_beq n 0
    then "0"
    else if nat_beq n 1
    then "1"
    else if nat_beq n 2
    then "2"
    else if nat_beq n 3
    then "3"
    else if nat_beq n 4
    then "4"
    else if nat_beq n 5
    then "5"
    else if nat_beq n 6
    then "6"
    else if nat_beq n 7
    then "7"
    else if nat_beq n 8
    then "8"
    else "9"

-- Decimal digits; `n` has at most `n + 1` of them, so the fuel of `str_nat` is enough.
decimal : ℕ → ℕ → String
decimal zero n = digit n
decimal (suc fuel) n =
    let more = decimal fuel (n / 10) <> digit (n % 10) in if ltb n 10 then digit n else more

unfoldable pub str_nat : ℕ → String
unfolding decimal digit
str_nat n = decimal n n

-- `str(n)`
unfoldable pub str_int : ℤ → String
unfolding str_nat
str_int (pos n) = str_nat n
str_int (negsuc n) = "-" <> str_nat (suc n)

pad3 : ℕ → String
pad3 n =
    if ltb n 10 then "00" <> decimal n n else if ltb n 100 then "0" <> decimal n n else decimal n n

grouped : ℕ → ℕ → String
grouped zero n = decimal n n
grouped (suc fuel) n =
    let more = grouped fuel (n / 1000) <> "," <> pad3 (n % 1000) in
    if ltb n 1000 then decimal n n else more

-- `f"{n:,}"`: a number has fewer groups of digits than its value.
unfoldable pub str_grouped : ℕ → String
unfolding grouped pad3 decimal digit
str_grouped n = grouped n n

pub record Datetime : Type 0 where
  pub day : ℕ
  pub micros : ℕ

-- 9999-12-31, the last date that `datetime` represents.
abbrev pub last_day : ℕ
last_day = 3652058

is_leap : ℕ → Bool
is_leap y = nat_beq (y % 4) 0 && (not (nat_beq (y % 100) 0) || nat_beq (y % 400) 0)

month_lengths : Bool → List ℕ
month_lengths leap =
    31 ∷ (if leap then 29 else 28) ∷ 31 ∷ 30 ∷ 31 ∷ 30 ∷ 31 ∷ 31 ∷ 30 ∷ 31 ∷ 30 ∷ 31 ∷ []

-- The month and the day of the month, from the day of the year counted from 0.
month_day : List ℕ → ℕ → ℕ → ℕ × ℕ
month_day [] month n = (month, n + 1)
month_day (len ∷ rest) month n =
    let later = month_day rest (month + 1) (n - len) in if ltb n len then (month, n + 1) else later

-- Year, month and day of a date.
unfoldable pub civil : ℕ → ℕ × ℕ × ℕ
unfolding is_leap month_lengths month_day
civil n =
    let n400 = n / 146097 in
    let r400 = n % 146097 in
    let n100 = r400 / 36524 in
    let r100 = r400 % 36524 in
    let n4 = r100 / 1461 in
    let r4 = r100 % 1461 in
    let n1 = r4 / 365 in
    let year = n400 * 400 + n100 * 100 + n4 * 4 + n1 + 1 in
    let (m, d) = month_day (month_lengths (is_leap year)) 1 (r4 % 365) in
    if nat_beq n1 4 || nat_beq n100 4 then (year - 1, 12, 31) else (year, m, d)

pad2 : ℕ → String
pad2 n = if ltb n 10 then "0" <> str_nat n else str_nat n

pad4 : ℕ → String
pad4 n =
    if ltb n 10
    then "000" <> str_nat n
    else if ltb n 100
    then "00" <> str_nat n
    else if ltb n 1000
    then "0" <> str_nat n
    else str_nat n

-- `date.isoformat()`
unfoldable pub iso_date : ℕ → String
unfolding civil pad2 pad4 str_nat
iso_date n = let (y, m, d) = civil n in pad4 y <> "-" <> pad2 m <> "-" <> pad2 d

-- `datetime.isoformat()` of a midnight
unfoldable pub iso_midnight : ℕ → String
unfolding iso_date
iso_midnight n = iso_date n <> "T00:00:00"
