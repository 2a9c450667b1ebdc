-- ===== src/Util/Time/RoundTrip.antt =====
-- `Iso8601FromMs` of chat/util/time_util.cc: its text gives the time and the offset.
use flz_chat.Common.{
  ℕ, zero, suc, ◌+◌, ◌-◌, ◌*◌, ◌/◌, ◌%◌, ◌<◌, ◌≤◌, ◌≡◌, refl, ◌∙◌, ap, true, false, List, [], ◌∷◌,
  All, some, ℤ, pos, negsuc, pos_part, neg_part, sub_ℕ, ◌+ℤ◌, ◌*ℤ◌, quot_ℤ, leb_ℤ, leb, Bool-cases,
  inl, inr, arith,
}
use flz_chat.Util.Time.{Tm, gmtime, month_days, abs, iso8601_from_ms}
use flz_chat.Util.Time.Calendar.{instant, gmtime_exact, days_before_year, days_at, next_year}
use flz_chat.Util.Time.Reading.{read_iso, IsShort, text_of, read-text_of}

days_before_later : (y k : ℕ) → 1 ≤ y → days_before_year y ≤ days_before_year (y + k)
days_before_later y zero p =
    let same : days_before_year (y + 0) ≡ days_before_year y = ap days_before_year (omega arith) in
    omega (arith, same)
days_before_later y (suc k) p =
    let next = next_year (y + k) (omega (arith, p)) in
    let same : days_before_year (y + suc k) ≡ days_before_year (suc (y + k)) =
      ap days_before_year (omega arith) in
    omega (arith, days_before_later y k p, next, same)

-- The seconds of a year that is not below 10000.
late : (tm : Tm) → 10000 ≤ pos_part tm.tm_year + 1900 → 253402300800 ≤ instant tm
unfolding instant
late tm p =
    let y = pos_part tm.tm_year + 1900 in
    let first : days_before_year 10000 ≡ days_before_year 1970 + 2932897 =
      unfold days_before_year in refl in
    let same : days_before_year (10000 + (y - 10000)) ≡ days_before_year y =
      ap days_before_year (omega (arith, p)) in
    omega (arith, first, same, days_before_later 10000 (y - 10000) (omega arith))

days_at-le : (k : ℕ) (ls : List ℕ) → All (λ l. l ≤ 31) ls → days_at k ls ≤ 31
unfolding days_at
days_at-le k [] a = omega arith
days_at-le zero (l ∷ ls) a = a.0
days_at-le (suc k) (l ∷ ls) a = days_at-le k ls a.1

month_days-le : (y : ℕ) → All (λ l. l ≤ 31) (month_days y)
month_days-le y = ground arith

sum_pos :
    (a b c : ℕ)
    → (pos a *ℤ pos b +ℤ pos c) +ℤ pos 1900 ≡ pos (pos_part (pos a *ℤ pos b +ℤ pos c) + 1900)
unfolding ◌+ℤ◌ ◌*ℤ◌
sum_pos a b c = ground arith

year_text :
    (s : ℕ) → (gmtime (pos s)).tm_year +ℤ pos 1900 ≡ pos (pos_part (gmtime (pos s)).tm_year + 1900)
unfolding gmtime
year_text s = sum_pos _ _ _

gmtime-IsShort :
    (s : ℕ) → s < 253402300800 → IsShort (gmtime (pos s)) (pos_part (gmtime (pos s)).tm_year + 1900)
gmtime-IsShort s p =
    let tm = gmtime (pos s) in
    let (t, same) = gmtime_exact s in
    record {
      year_text = year_text s;
      year_width = elim (Bool-cases (leb 10000 (pos_part tm.tm_year + 1900))) [
        | inl e ↦ absurd (omega (arith, p, same, late tm (ground (arith, e))))
        | inr e ↦ ground (arith, e)
      ];
      month = omega (arith, t.month);
      day = omega (
        arith,
        t.last_day,
        days_at-le tm.tm_mon (month_days (pos_part tm.tm_year + 1900))
            (month_days-le (pos_part tm.tm_year + 1900)),
      );
      hour = omega (arith, t.hour);
      minute = omega (arith, t.minute);
      second = omega (arith, t.second);
    }

-- The same time, as the reader puts it together.
instant-same :
    (tm : Tm)
    → instant (record tm {
      tm_year = pos (pos_part tm.tm_year + 1900 - 1900);
      tm_mon = tm.tm_mon + 1 - 1;
    })
      ≡ instant tm
unfolding instant
instant-same tm =
    let year : pos_part tm.tm_year + 1900 - 1900 ≡ pos_part tm.tm_year = omega arith in
    let month : tm.tm_mon + 1 - 1 ≡ tm.tm_mon = omega arith in rw (year, month) refl

-- The text by the parts of the offset.
iso8601-plus :
    (ts_ms : ℤ) (n s : ℕ)
    → quot_ℤ ts_ms 1000 +ℤ pos n *ℤ pos 60 ≡ pos s
    → iso8601_from_ms ts_ms (pos n) ≡ text_of (gmtime (pos s)) true (n / 60) (n % 60)
unfolding iso8601_from_ms abs
iso8601-plus ts_ms n s e =
    let plus : leb_ℤ (pos 0) (pos n) ≡ true = ground arith in rw (e, plus) refl

abs-sub : (k : ℕ) → abs (sub_ℕ 0 k) ≡ pos k
unfolding abs
abs-sub k = ground arith

iso8601-minus :
    (ts_ms : ℤ) (n s : ℕ)
    → quot_ℤ ts_ms 1000 +ℤ negsuc n *ℤ pos 60 ≡ pos s
    → iso8601_from_ms ts_ms (negsuc n) ≡ text_of (gmtime (pos s)) false (suc n / 60) (suc n % 60)
unfolding iso8601_from_ms
iso8601-minus ts_ms n s e =
    let minus : leb_ℤ (pos 0) (negsuc n) ≡ false = ground arith in
    rw (e, minus, abs-sub (suc n / 60), abs-sub (suc n % 60)) refl

-- From 1970 to 9999 by its own clock and with an offset of less than a hundred hours, the text of a
-- time reads back as the seconds of its clock, cut off to whole ones, and as its offset: the text
-- gives the time that it was made of.
pub read-iso8601_from_ms :
    (ts_ms offset : ℤ) (s : ℕ)
    → quot_ℤ ts_ms 1000 +ℤ offset *ℤ pos 60 ≡ pos s
    → s < 253402300800
    → pos_part offset < 6000
    → neg_part offset < 6000
    → read_iso (iso8601_from_ms ts_ms offset) ≡ some (s, offset)
read-iso8601_from_ms ts_ms (pos n) s e p q r =
    let tm = gmtime (pos s) in
    let year = pos_part tm.tm_year + 1900 in
    let minutes : n / 60 * 60 + n % 60 ≡ n = omega arith in
    ap read_iso (iso8601-plus ts_ms n s e)
    ∙ (read-text_of tm year true (n / 60) (n % 60) (gmtime-IsShort s p) (omega (arith, q))
          (omega arith)
        ∙ rw (instant-same tm, (gmtime_exact s).1, minutes) refl)
read-iso8601_from_ms ts_ms (negsuc n) s e p q r =
    let tm = gmtime (pos s) in
    let year = pos_part tm.tm_year + 1900 in
    let minutes : sub_ℕ 0 (suc n / 60 * 60 + suc n % 60) ≡ negsuc n = ground arith in
    ap read_iso (iso8601-minus ts_ms n s e)
    ∙ (read-text_of tm year false (suc n / 60) (suc n % 60) (gmtime-IsShort s p) (omega (arith, r))
          (omega arith)
        ∙ rw (instant-same tm, (gmtime_exact s).1, minutes) refl)
