-- ===== src/Common/TextTests.antt =====
-- Texts of numbers and dates, on inputs that Python's own answers are known for.
use mathlib.Core.Path.{◌≡◌, refl}
use feather_flow.Common.Int.{pos, negsuc}
use feather_flow.Common.Text.{str_int, iso_date, iso_midnight}

str_int_tests :
    (str_int (pos 0) ≡ "0") × (str_int (pos 907) ≡ "907") × (str_int (negsuc 11) ≡ "-12")
unfolding str_int
str_int_tests = (refl, refl, refl)

-- 719162 is `date(1970, 1, 1).toordinal() - 1`.
iso_date_tests :
    (iso_date 719162 ≡ "1970-01-01")
    × (iso_date 0 ≡ "0001-01-01")
    × (iso_date 730178 ≡ "2000-02-29")
    × (iso_date 730484 ≡ "2000-12-31")
    × (iso_date 3652058 ≡ "9999-12-31")
unfolding iso_date
iso_date_tests = (refl, refl, refl, refl, refl)

iso_midnight_test : iso_midnight 719163 ≡ "1970-01-02T00:00:00"
unfolding iso_midnight
iso_midnight_test = refl
