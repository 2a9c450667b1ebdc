-- ===== src/Util/Time.antt =====
-- chat/util/time_util.cc: a time as a text. The clock is a parameter, and `gmtime` is gmtime_r of the C
-- library, by the Gregorian calendar.
pub mod Calendar
pub mod Digits
pub mod Reading
pub mod RoundTrip
use Prim.Native.String.{◌++◌}
use flz_chat.Common.{
  ℕ, zero, suc, ◌+◌, ◌-◌, ◌*◌, ◌/◌, ◌%◌, ◌≡◌, refl, Bool, true, false, not, ◌&&◌, ◌||◌, String,
  List, [], ◌∷◌, ℤ, pos, negsuc, ◌+ℤ◌, ◌*ℤ◌, quot_ℤ, rem_ℤ, leb_ℤ, ltb, ◌==◌, nat_eq, size,
  to_decimal, if◌then◌else◌,
}

-- `struct tm`, but for the days of the week and of the year.
pub record Tm : Type 0 where
  pub tm_year : ℤ
  pub tm_mon : ℕ
  pub tm_mday : ℕ
  pub tm_hour : ℕ
  pub tm_min : ℕ
  pub tm_sec : ℕ

-- The quotient that is rounded down, and what is left.
unfoldable pub floor_div : ℤ → ℕ → ℤ
floor_div (pos n) d = pos (n / d)
floor_div (negsuc n) d = negsuc (n / d)

unfoldable pub floor_mod : ℤ → ℕ → ℕ
floor_mod (pos n) d = n % d
floor_mod (negsuc n) d = d - 1 - n % d

abbrev pub is_leap : ℕ → Bool
is_leap y = y % 4 == 0 && (not (y % 100 == 0) || y % 400 == 0)

abbrev pub year_days : ℕ → ℕ
year_days y = if is_leap y then 366 else 365

abbrev pub month_days : ℕ → List ℕ
month_days y =
    31 ∷ (if is_leap y then 29 else 28) ∷ 31 ∷ 30 ∷ 31 ∷ 30 ∷ 31 ∷ 31 ∷ 30 ∷ 31 ∷ 30 ∷ 31 ∷ []

-- The year of a day that is counted from the first of January, and the day of that year.
unfoldable pub year_from : ℕ → ℕ → ℕ → ℕ × ℕ
year_from zero y d = (y, d)
year_from (suc f) y d =
    let later = year_from f (suc y) (d - year_days y) in
    if ltb d (year_days y) then (y, d) else later

-- The month of a day of a year, and the day of that month.
unfoldable pub month_from : List ℕ → ℕ → ℕ → ℕ × ℕ
month_from [] m d = (m, d)
month_from (l ∷ ls) m d =
    let later = month_from ls (suc m) (d - l) in if ltb d l then (m, d) else later

-- Four hundred years have 146097 days.
unfoldable pub gmtime : ℤ → Tm
unfolding floor_div floor_mod
gmtime s =
    let days = floor_div s 86400 in
    let (year, day) = year_from 400 1970 (floor_mod days 146097) in
    let (month, rest) = month_from (month_days year) 0 day in
    let second = floor_mod s 86400 in
    record {
      tm_year = pos 400 *ℤ floor_div days 146097 +ℤ pos (year - 1900);
      tm_mon = month;
      tm_mday = rest + 1;
      tm_hour = second / 3600;
      tm_min = second / 60 % 60;
      tm_sec = second % 60;
    }

-- A number in a stream, with its sign.
unfoldable pub to_text : ℤ → String
unfolding to_decimal
to_text (pos n) = to_decimal n
to_text (negsuc n) = "-" ++ to_decimal (suc n)

unfoldable pub fill : ℕ → String
fill zero = ""
fill (suc n) = "0" ++ fill n

-- `std::setfill('0') << std::setw(w) << n`
unfoldable pub put : ℕ → ℤ → String
unfolding to_text fill size
put w n = let text = to_text n in fill (w - size text) ++ text

-- `std::abs`
unfoldable pub abs : ℤ → ℤ
abs (pos n) = pos n
abs (negsuc n) = pos (suc n)

unfoldable pub iso8601_from_ms : ℤ → ℤ → String
iso8601_from_ms ts_ms timezone_offset_minutes =
    let tm = gmtime (quot_ℤ ts_ms 1000 +ℤ timezone_offset_minutes *ℤ pos 60) in
    let tz_hour = quot_ℤ timezone_offset_minutes 60 in
    let tz_min = abs (rem_ℤ timezone_offset_minutes 60) in
    put 4 (tm.tm_year +ℤ pos 1900)
    ++ ("-"
        ++ (put 2 (pos (tm.tm_mon + 1))
            ++ ("-"
                ++ (put 2 (pos tm.tm_mday)
                    ++ ("T"
                        ++ (put 2 (pos tm.tm_hour)
                            ++ (":"
                                ++ (put 2 (pos tm.tm_min)
                                    ++ (":"
                                        ++ (put 2 (pos tm.tm_sec)
                                            ++ ((if leb_ℤ (pos 0) timezone_offset_minutes
                                                  then "+"
                                                  else "-")
                                                ++ (put 2 (abs tz_hour)
                                                    ++ (":" ++ put 2 tz_min)))))))))))))

-- `Iso8601Now` at a time of the clock.
unfoldable pub iso8601_now : ℤ → String
iso8601_now now_ms = iso8601_from_ms now_ms (pos 8 *ℤ pos 60)

epoch_test : iso8601_from_ms (pos 951827696000) (negsuc 29) ≡ "2000-02-29T12:04:56-00:30"
unfolding iso8601_now iso8601_from_ms gmtime year_from month_from put abs ◌+ℤ◌ ◌*ℤ◌
epoch_test = refl

now_test : iso8601_now (pos 1700000000123) ≡ "2023-11-15T06:13:20+08:00"
unfolding iso8601_now iso8601_from_ms gmtime year_from month_from put abs ◌+ℤ◌ ◌*ℤ◌
now_test = refl

early_test : iso8601_from_ms (negsuc 86400999) (pos 0) ≡ "1969-12-30T23:59:59+00:00"
unfolding iso8601_now iso8601_from_ms gmtime year_from month_from put abs ◌+ℤ◌ ◌*ℤ◌
early_test = refl
