-- ===== src/Util/Time/Reading.antt =====
-- The texts of chat/util/time_util.cc, read back.
use Prim.Native.String.{◌++◌}
use text.Mathlib.TextLemmas.{cons-append, nil-append, append-nil}
use flz_chat.Common.{
  bind? as ◌>>=◌, ℕ, suc, ◌+◌, ◌-◌, ◌*◌, ◌^◌, ◌<◌, ◌≤◌, ◌≡◌, refl, ◌∙◌, ap, sym, Bool, true, false,
  String, Option, none, some, ℤ, pos, sub_ℕ, ◌+ℤ◌, to_decimal, strip_prefix, strip_prefix-append,
  arith, if◌then◌else◌,
}
use flz_chat.Util.Time.{Tm, to_text, put}
use flz_chat.Util.Time.Calendar.{instant}
use flz_chat.Util.Time.Digits.{read_number, padded-back}

-- The sign of an offset: whether it is positive.
unfoldable pub read_offset_sign : String → Option (Bool × String)
unfolding strip_prefix
read_offset_sign s = elim (strip_prefix "+" s) [
  | none ↦ elim (strip_prefix "-" s) [ none ↦ none | some t ↦ some (false, t) ]
  | some t ↦ some (true, t)
]

-- The seconds from 1970 on that a text gives on its own clock, and the minutes of its offset.
unfoldable pub read_iso : String → Option (ℕ × ℤ)
unfolding strip_prefix read_number read_offset_sign instant
read_iso text = do
  (year, s) ← read_number 4 0 text
  s ← strip_prefix "-" s
  (month, s) ← read_number 2 0 s
  s ← strip_prefix "-" s
  (day, s) ← read_number 2 0 s
  s ← strip_prefix "T" s
  (hour, s) ← read_number 2 0 s
  s ← strip_prefix ":" s
  (minute, s) ← read_number 2 0 s
  s ← strip_prefix ":" s
  (second, s) ← read_number 2 0 s
  (positive, s) ← read_offset_sign s
  (offset_hour, s) ← read_number 2 0 s
  s ← strip_prefix ":" s
  (offset_minute, s) ← read_number 2 0 s
  let offset = offset_hour * 60 + offset_minute
  let time : Tm = record {
    tm_year = pos (year - 1900);
    tm_mon = month - 1;
    tm_mday = day;
    tm_hour = hour;
    tm_min = minute;
    tm_sec = second;
  }
  some (instant time, if positive then pos offset else sub_ℕ 0 offset)

put-back :
    (w n : ℕ) (s : String)
    → n < 10 ^ suc w
    → w ≤ 19
    → read_number (suc w) 0 (put (suc w) (pos n) ++ s) ≡ some (n, s)
unfolding put to_text to_decimal read_number
put-back w n s p q =
    let width : suc w + 0 ≡ suc w = omega arith in
    sym (ap (λ k. read_number k 0 (put (suc w) (pos n) ++ s)) width) ∙ padded-back w 19 0 n s p q

abbrev pub sign : Bool → String
sign b = if b then "+" else "-"

read_offset_sign-back : (b : Bool) (s : String) → read_offset_sign (sign b ++ s) ≡ some (b, s)
unfolding read_offset_sign
read_offset_sign-back true s = rw (read_offset_sign, strip_prefix-append "+" s) refl
read_offset_sign-back false s = unfold strip_prefix in rw (cons-append "-" "" s, nil-append s) refl

-- The text of a time of the calendar, with the sign, the hours and the minutes of an offset.
abbrev pub text_of : Tm → Bool → ℕ → ℕ → String
text_of tm b tz_hour tz_min =
    put 4 (tm.tm_year +ℤ pos 1900)
    ++ ("-"
        ++ (put 2 (pos (tm.tm_mon + 1))
            ++ ("-"
                ++ (put 2 (pos tm.tm_mday)
                    ++ ("T"
                        ++ (put 2 (pos tm.tm_hour)
                            ++ (":"
                                ++ (put 2 (pos tm.tm_min)
                                    ++ (":"
                                        ++ (put 2 (pos tm.tm_sec)
                                            ++ (sign b
                                                ++ (put 2 (pos tz_hour)
                                                    ++ (":" ++ put 2 (pos tz_min))))))))))))))

pub record IsShort (tm : Tm) (year : ℕ) : Type 0 where
  pub year_text : tm.tm_year +ℤ pos 1900 ≡ pos year
  pub year_width : year < 10000
  pub month : tm.tm_mon + 1 < 100
  pub day : tm.tm_mday < 100
  pub hour : tm.tm_hour < 100
  pub minute : tm.tm_min < 100
  pub second : tm.tm_sec < 100

pub read-text_of :
    (tm : Tm) (year : ℕ) (b : Bool) (tz_hour tz_min : ℕ)
    → IsShort tm year
    → tz_hour < 100
    → tz_min < 100
    → read_iso (text_of tm b tz_hour tz_min)
      ≡ some (
        instant (record tm { tm_year = pos (year - 1900); tm_mon = tm.tm_mon + 1 - 1 }),
        if b then pos (tz_hour * 60 + tz_min) else sub_ℕ 0 (tz_hour * 60 + tz_min),
      )
unfolding read_iso
read-text_of tm year b tz_hour tz_min t p q =
    rw
      (
        t.year_text,
        put-back 3 year _ t.year_width (omega arith),
        strip_prefix-append "-" _,
        put-back 1 (tm.tm_mon + 1) _ t.month (omega arith),
        strip_prefix-append "-" _,
        put-back 1 tm.tm_mday _ t.day (omega arith),
        strip_prefix-append "T" _,
        put-back 1 tm.tm_hour _ t.hour (omega arith),
        strip_prefix-append ":" _,
        put-back 1 tm.tm_min _ t.minute (omega arith),
        strip_prefix-append ":" _,
        put-back 1 tm.tm_sec _ t.second (omega arith),
        read_offset_sign-back b _,
        put-back 1 tz_hour _ p (omega arith),
        strip_prefix-append ":" _,
        sym (append-nil (put 2 (pos tz_min))),
        put-back 1 tz_min "" q (omega arith),
      )
      refl
