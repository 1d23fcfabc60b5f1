-- ===== src/Windows/Tests.antt =====
-- Window plans on small inputs.
use feather_flow.Common.{
  ◌+◌, ◌-◌, ◌/◌, ◌≡◌, refl, ◌&&◌, ◌||◌, some, [], ◌∷◌, map, leb, ok, err, Result, List, String,
}
use native.Mathlib.Nat.{add-div_left}
use feather_flow.Common.{
  ◌==◌, nat_eq, none, ℕ, true, false, ◌≤◌, ◌<◌, traverse, length, if◌then◌else◌, arith, map,
}
use feather_flow.Common.Int.{ℤ, leb_ℤ}
use feather_flow.Common.Text.{Datetime, last_day}
use feather_flow.Windows.{quotes}
use feather_flow.Windows.Tiling.{times}
use feather_flow.Windows.PkRange.{pk_range_partition}
use feather_flow.Windows.Dates.{date_partition, day_times}
use feather_flow.Windows.Quoting.{is_special}
use feather_flow.Common.Int.{pos, ◌+ℤ◌, ◌-ℤ◌}
use feather_flow.Common.Text.{str_int, iso_midnight}
use feather_flow.Windows.{
  Runtime, WindowSpec, WindowError, ints, dates, plan_windows, plan_ranged, plan_pk_range_windows,
  plan_date_windows, pk_loop, int_window, int_predicate, quote_for_dialect, identifier_codes,
  chunk_count, date_loop, date_window, date_predicate,
}

-- ASCII texts, and a division without rounding.
abbrev pub ascii : Runtime
ascii = record {
  is_word = λ c.
      (leb b'A' c && leb c b'Z')
      || ((leb b'a' c && leb c b'z') || ((leb b'0' c && leb c b'9') || c == b'_'));
  is_space = λ c. c == 32 || (leb 9 c && leb c 13);
  ceil_div = λ a b. (b + (a - 1)) / b;
}

abbrev keys : Result WindowError (List WindowSpec) → List String
keys (ok ws) = map (λ w. w.window_key) ws
keys (err e) = []

abbrev filters : Result WindowError (List WindowSpec) → List String
filters (ok ws) = map (λ w. w.window_predicate) ws
filters (err e) = []

nine :
    keys (plan_windows ascii "pk_range" (some "id") none (some (ints (pos 0) (pos 8))) "mysql")
    ≡ "0-1" ∷ "2-3" ∷ "4-5" ∷ "6-7" ∷ "8-9" ∷ []
unfolding plan_windows plan_ranged plan_pk_range_windows pk_loop int_window int_predicate
    quote_for_dialect identifier_codes chunk_count str_int ◌+ℤ◌ ◌-ℤ◌
nine = refl

two_days :
    filters (
      plan_windows ascii "date"
        (some "ts")
        (some "1d")
        (some (dates (record { day = 719162; micros = 5 }) (record { day = 719163; micros = 0 })))
        "mysql")
    ≡ "\"ts\" >= '1970-01-01T00:00:00' AND \"ts\" < '1970-01-02T00:00:00'"
      ∷ "\"ts\" >= '1970-01-02T00:00:00' AND \"ts\" < '1970-01-03T00:00:00'" ∷ []
unfolding plan_windows plan_ranged plan_date_windows date_loop date_window date_predicate
    quote_for_dialect identifier_codes iso_midnight
two_days = refl

ceil_div_positive : (total n : ℕ) → 0 < total → 0 < n → 0 < ascii.ceil_div total n
ceil_div_positive total n h k = omega (arith, add-div_left (total - 1) k)

pk_range_partition_example :
    (bounds : List (ℤ × ℤ)) × (plan_pk_range_windows ascii "id" (pos 0) (pos 8) "mysql"
      ≡ traverse (λ (a, b). int_window ascii "id" "mysql" a b) bounds)
    × (length bounds ≤ 64)
    × ((x : ℤ) → (if leb_ℤ (pos 0) x && leb_ℤ x (pos 8) then times x bounds else 1) ≡ 1)
pk_range_partition_example =
    pk_range_partition ascii "id" "mysql" (pos 0) (pos 8) ceil_div_positive (omega arith)

abbrev first_day : Datetime
first_day = record { day = 719162; micros = 5 }

abbrev next_day : Datetime
next_day = record { day = 719163; micros = 0 }

abbrev last_midnight : Datetime
last_midnight = record { day = last_day; micros = 0 }

date_partition_example :
    (days : List ℕ) × (plan_date_windows ascii "ts" "1d" first_day next_day "mysql"
      ≡ traverse (date_window ascii "ts" "mysql") days)
    × ((d : ℕ) → day_times d days ≡ (if leb 719162 d && leb d 719163 then 1 else 0))
date_partition_example = date_partition ascii "ts" "mysql" first_day next_day

quoted_ts :
    (quote_for_dialect ascii "ts" "destination" ≡ ok "\"ts\"")
    × (quote_for_dialect ascii "ts" "mysql" ≡ ok "`ts`")
unfolding quote_for_dialect identifier_codes quotes
quoted_ts = (refl, refl)

plain_ascii : (c : ℕ) → is_special c ≡ true → (ascii.is_word c || ascii.is_space c) ≡ false
plain_ascii c h = ground arith
