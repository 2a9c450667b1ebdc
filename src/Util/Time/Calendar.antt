-- ===== src/Util/Time/Calendar.antt =====
-- gmtime_r, as chat/util/time_util.cc uses it, against the count of days.
use flz_chat.Common.{
  ℕ, zero, suc, ◌+◌, ◌-◌, ◌*◌, ◌/◌, ◌%◌, ◌<◌, ◌≤◌, ◌≡◌, refl, ◌∙◌, ap, sym, subst, Bool, List, [],
  ◌∷◌, pos, pos_part, ◌+ℤ◌, ◌*ℤ◌, ltb, nat_eq, length, Bool-cases, inl, inr, arith, if◌then◌else◌,
}
use flz_chat.Util.Time.{
  Tm, floor_div, floor_mod, is_leap, year_days, month_days, year_from, month_from, gmtime,
}

-- The days from the first of January of the year 1 to that of a year.
unfoldable pub days_before_year : ℕ → ℕ
days_before_year y = let p = y - 1 in 365 * p + p / 4 + p / 400 - p / 100

-- The days of so many months, and of the one after them.
unfoldable pub days_of : ℕ → List ℕ → ℕ
days_of k [] = 0
days_of zero (l ∷ ls) = 0
days_of (suc k) (l ∷ ls) = l + days_of k ls

unfoldable pub days_at : ℕ → List ℕ → ℕ
days_at k [] = 0
days_at zero (l ∷ ls) = l
days_at (suc k) (l ∷ ls) = days_at k ls

pub next_year : (y : ℕ) → 1 ≤ y → days_before_year (suc y) ≡ days_before_year y + year_days y
unfolding days_before_year
next_year y p = ground arith

next_cycle : (y e : ℕ) → 1 ≤ y → days_before_year (y + 400 * e) ≡ days_before_year y + 146097 * e
unfolding days_before_year
next_cycle y e p = omega arith

is_leap-cycle : (y e : ℕ) → is_leap (y + 400 * e) ≡ is_leap y
is_leap-cycle y e =
    let four : (y + 400 * e) % 4 ≡ y % 4 = omega arith in
    let hundred : (y + 400 * e) % 100 ≡ y % 100 = omega arith in
    let all : (y + 400 * e) % 400 ≡ y % 400 = omega arith in rw (four, hundred, all) refl

-- A year and a day of it.
record IsYear (y d : ℕ) (result : ℕ × ℕ) : Type 0 where
  after : y ≤ result.0
  same : days_before_year result.0 + result.1 ≡ days_before_year y + d
  within : result.1 < year_days result.0

year_from-IsYear :
    (f y d : ℕ)
    → 1 ≤ y
    → days_before_year y + d < days_before_year (y + f)
    → IsYear y d (year_from f y d)
unfolding year_from
year_from-IsYear zero y d p q =
    let here : days_before_year (y + 0) ≡ days_before_year y = ap days_before_year (omega arith) in
    absurd (omega (arith, q, here))
year_from-IsYear (suc f) y d p q = elim (Bool-cases (ltb d (year_days y))) [
  | inl e ↦
      rw (e, year_from) (record { after = omega arith; same = refl; within = ground (arith, e) })
  | inr e ↦
      let below : year_days y ≤ d = ground (arith, e) in
      let next = next_year y p in
      let there : days_before_year (y + suc f) ≡ days_before_year (suc y + f) =
        ap days_before_year (omega arith) in
      let r =
        year_from-IsYear f (suc y) (d - year_days y) (omega arith)
          (omega (arith, q, next, below, there)) in
      rw (e, year_from)
        (record {
          after = omega (arith, r.after);
          same = omega (arith, r.same, next, below);
          within = r.within;
        })
]

-- A month and a day of it.
record IsMonth (ls : List ℕ) (m d : ℕ) (result : ℕ × ℕ) : Type 0 where
  count : ℕ
  place : result.0 ≡ m + count
  exists : count < length ls
  same : days_of count ls + result.1 ≡ d
  within : result.1 < days_at count ls

total : List ℕ → ℕ
total [] = 0
total (l ∷ ls) = l + total ls

month_from-IsMonth : (ls : List ℕ) (m d : ℕ) → d < total ls → IsMonth ls m d (month_from ls m d)
unfolding month_from days_of days_at total
month_from-IsMonth [] m d p = absurd (omega (arith, p))
month_from-IsMonth (l ∷ ls) m d p = elim (Bool-cases (ltb d l)) [
  | inl e ↦
      rw (e, month_from)
        (record {
          count = 0;
          place = omega arith;
          exists = omega arith;
          same = omega arith;
          within = ground (arith, e);
        })
  | inr e ↦
      let below : l ≤ d = ground (arith, e) in
      let r = month_from-IsMonth ls (suc m) (d - l) (omega (arith, p, below)) in
      rw (e, month_from)
        (record {
          count = suc r.count;
          place = omega (arith, r.place);
          exists = omega (arith, r.exists);
          same = omega (arith, r.same, below);
          within = r.within;
        })
]

-- A time that stands on the calendar.
pub record IsTime (tm : Tm) : Type 0 where
  pub month : tm.tm_mon < 12
  pub day : 1 ≤ tm.tm_mday
  pub last_day : tm.tm_mday ≤ days_at tm.tm_mon (month_days (pos_part tm.tm_year + 1900))
  pub hour : tm.tm_hour < 24
  pub minute : tm.tm_min < 60
  pub second : tm.tm_sec < 60

-- The seconds from the first of January of 1970 to a time after it.
unfoldable pub instant : Tm → ℕ
instant tm =
    let y = pos_part tm.tm_year + 1900 in
    let days = days_before_year y + days_of tm.tm_mon (month_days y) + (tm.tm_mday - 1) in
    ((days - days_before_year 1970) * 24 + tm.tm_hour) * 3600 + tm.tm_min * 60 + tm.tm_sec

total_days : (y : ℕ) → total (month_days y) ≡ year_days y
unfolding total
total_days y = ground arith

month_days-cycle : (y e : ℕ) → month_days (y + 400 * e) ≡ month_days y
month_days-cycle y e =
    ap
      (λ (leap : Bool).
        31 ∷ (if leap then 29 else 28) ∷ 31 ∷ 30 ∷ 31 ∷ 30 ∷ 31 ∷ 31 ∷ 30 ∷ 31 ∷ 30 ∷ 31 ∷ [])
      (is_leap-cycle y e)

-- A time by its cycle of years, its year in the cycle that begins at 1970, its month, the days before
-- it in the month and the second of its day.
abbrev time_of : ℕ → ℕ → ℕ → ℕ → ℕ → Tm
time_of e year month rest second = record {
  tm_year = pos 400 *ℤ pos e +ℤ pos (year - 1900);
  tm_mon = month;
  tm_mday = rest + 1;
  tm_hour = second / 3600;
  tm_min = second / 60 % 60;
  tm_sec = second % 60;
}

year_of_time :
    (e year : ℕ)
    → 1970 ≤ year
    → pos_part (pos 400 *ℤ pos e +ℤ pos (year - 1900)) + 1900 ≡ year + 400 * e
unfolding ◌+ℤ◌ ◌*ℤ◌
year_of_time e year p = ground arith

time_of-IsTime :
    (e year month rest second : ℕ)
    → 1970 ≤ year
    → month < 12
    → rest < days_at month (month_days year)
    → second < 86400
    → IsTime (time_of e year month rest second)
time_of-IsTime e year month rest second p q r t = record {
  month = q;
  day = omega arith;
  last_day = rw (year_of_time e year p, month_days-cycle year e) (omega (arith, r));
  hour = omega (arith, t);
  minute = omega arith;
  second = omega arith;
}

instant-time_of :
    (e year month rest second : ℕ)
    → 1970 ≤ year
    → second < 86400
    → instant (time_of e year month rest second)
      ≡ (days_before_year year
            + 146097 * e
            + days_of month (month_days year)
            + rest
            - days_before_year 1970)
          * 86400
        + second
unfolding instant
instant-time_of e year month rest second p t =
    rw (year_of_time e year p, month_days-cycle year e, next_cycle year e (omega (arith, p)))
      (omega (arith, t))

-- From 1970 on, `gmtime_r` gives a time of the calendar, and the count of the seconds to it is the time
-- that was asked for.
pub gmtime_exact : (s : ℕ) → IsTime (gmtime (pos s)) × (instant (gmtime (pos s)) ≡ s)
unfolding gmtime floor_div floor_mod
gmtime_exact s =
    let days = s / 86400 in
    let e = days / 146097 in
    let found = year_from 400 1970 (days % 146097) in
    let month = month_from (month_days found.0) 0 found.1 in
    let cycle : days_before_year 2370 ≡ days_before_year 1970 + 146097 =
      unfold days_before_year in refl in
    let y = year_from-IsYear 400 1970 (days % 146097) (omega arith) (omega (arith, cycle)) in
    let m =
      month_from-IsMonth (month_days found.0) 0 found.1
        (omega (arith, y.within, total_days found.0)) in
    let at : month.0 ≡ m.count = omega (arith, m.place) in
    let before : days_of month.0 (month_days found.0) ≡ days_of m.count (month_days found.0) =
      ap (λ k. days_of k (month_days found.0)) at in
    (
      time_of-IsTime e found.0 month.0 month.1 (s % 86400) y.after (omega (arith, at, m.exists))
          (subst (λ k. month.1 < days_at k (month_days found.0)) (sym at) m.within) (omega arith),
      instant-time_of e found.0 month.0 month.1 (s % 86400) y.after (omega arith)
          ∙ omega (arith, before, m.same, y.same),
    )
