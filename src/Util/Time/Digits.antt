-- ===== src/Util/Time/Digits.antt =====
-- The numbers in the texts of chat/util/time_util.cc, read back.
use Prim.Native.Char.{Char, code}
use Prim.Native.String.{slice, ◌++◌}
use text.Mathlib.TextLemmas.{cons-append, nil-append, append_assoc}
use flz_chat.Common.{
  ℕ, zero, suc, ◌+◌, ◌-◌, ◌*◌, ◌/◌, ◌%◌, ◌^◌, ◌<◌, ◌≤◌, ◌≡◌, refl, ◌∙◌, ap, true, false, ◌&&◌,
  String, Option, none, some, ltb, leb, Bool-cases, inl, inr, size, size-append, digits_of, below,
  arith, if◌then◌else◌,
}
use flz_chat.Util.Time.{fill}

-- A number of so many digits at the front of a text, after the digits of another.
unfoldable pub read_number : ℕ → ℕ → String → Option (ℕ × String)
read_number zero n s = some (n, s)
read_number (suc w) n String.[] = none
read_number (suc w) n (String.◌∷◌ c s) =
    let rest = read_number w (n * 10 + (code c - b'0')) s in
    if leb b'0' (code c) && leb (code c) b'9' then rest else none

abbrev digit_text : ℕ → String
digit_text d = slice "0123456789" d (suc d)

record IsNumeral (d : ℕ) : Type 0 where
  char : Char
  same : digit_text d ≡ String.◌∷◌ char ""
  value : code char ≡ b'0' + d

digit_text-IsNumeral : (d : ℕ) → d < 10 → IsNumeral d
digit_text-IsNumeral = below 10 IsNumeral (
  record { char = "0"; same = refl; value = refl },
  (
    record { char = "1"; same = refl; value = refl },
    (
      record { char = "2"; same = refl; value = refl },
      (
        record { char = "3"; same = refl; value = refl },
        (
          record { char = "4"; same = refl; value = refl },
          (
            record { char = "5"; same = refl; value = refl },
            (
              record { char = "6"; same = refl; value = refl },
              (
                record { char = "7"; same = refl; value = refl },
                (
                  record { char = "8"; same = refl; value = refl },
                  (record { char = "9"; same = refl; value = refl }, tt),
                ),
              ),
            ),
          ),
        ),
      ),
    ),
  ),
)

read_digit :
    (d v n : ℕ) (s : String)
    → d < 10
    → read_number (suc v) n (digit_text d ++ s) ≡ read_number v (n * 10 + d) s
unfolding read_number
read_digit d v n s p =
    let x = digit_text-IsNumeral d p in
    let low : leb b'0' (b'0' + d) ≡ true = ground arith in
    let high : leb (b'0' + d) b'9' ≡ true = ground (arith, p) in
    let value : b'0' + d - b'0' ≡ d = omega arith in
    rw (x.same, cons-append x.char "" s, nil-append s, x.value, low, high, value) refl

size_digit : (d : ℕ) → d < 10 → size (digit_text d) ≡ 1
unfolding size
size_digit d p = rw ((digit_text-IsNumeral d p).same) refl

fill-snoc : (n : ℕ) → fill (suc n) ≡ fill n ++ "0"
unfolding fill
fill-snoc zero = refl
fill-snoc (suc n) = rw (append_assoc "0" (fill n) "0") (ap (λ s. "0" ++ s) (fill-snoc n))

-- Digits with zeros before them.
abbrev padded : ℕ → String → String
padded w s = fill (w - size s) ++ s

digits_of-one : (f n : ℕ) → ltb n 10 ≡ true → digits_of (suc f) n ≡ digit_text (n % 10)
unfolding digits_of
digits_of-one f n e = rw (e, digits_of) refl

digits_of-more :
    (f n : ℕ) → ltb n 10 ≡ false → digits_of (suc f) n ≡ digits_of f (n / 10) ++ digit_text (n % 10)
unfolding digits_of
digits_of-more f n e = rw (e, digits_of) refl

padded-snoc :
    (w f n : ℕ)
    → padded (suc (suc w)) (digits_of (suc (suc f)) n)
      ≡ padded (suc w) (digits_of (suc f) (n / 10)) ++ digit_text (n % 10)
padded-snoc w f n = elim (Bool-cases (ltb n 10)) [
  | inl e ↦
      let zero_left : n / 10 ≡ 0 = ground (arith, e) in
      let one : size (digit_text (n % 10)) ≡ 1 = size_digit (n % 10) (omega arith) in
      let none_left : digits_of (suc f) (n / 10) ≡ "0" =
        ap (digits_of (suc f)) zero_left ∙ digits_of-one f 0 refl in
      let zero_size : size "0" ≡ 1 = unfold size in refl in
      let before : suc (suc w) - 1 ≡ suc w = omega arith in
      let after : suc w - 1 ≡ w = omega arith in
      rw (digits_of-one (suc f) n e, one, none_left, zero_size, before, after)
        (ap (λ s. s ++ digit_text (n % 10)) (fill-snoc w))
  | inr e ↦
      let more = digits_of (suc f) (n / 10) in
      let longer : size (more ++ digit_text (n % 10)) ≡ size more + 1 =
        size-append more (digit_text (n % 10))
        ∙ ap (λ k. size more + k) (size_digit (n % 10) (omega arith)) in
      let same : suc (suc w) - (size more + 1) ≡ suc w - size more = omega arith in
      rw
        (
          digits_of-more (suc f) n e,
          longer,
          same,
          append_assoc (fill (suc w - size more)) more (digit_text (n % 10)),
        )
        refl
]

pub padded-back :
    (w f v n : ℕ) (s : String)
    → n < 10 ^ suc w
    → w ≤ f
    → read_number (suc w + v) 0 (padded (suc w) (digits_of (suc f) n) ++ s) ≡ read_number v n s
padded-back zero f v n s p q =
    let e : ltb n 10 ≡ true = ground (arith, p) in
    let same : n % 10 ≡ n = omega (arith, p) in
    let one : size (digit_text n) ≡ 1 = size_digit n p in
    let empty : fill (1 - 1) ≡ "" = unfold fill in refl in
    let width : 1 + v ≡ suc v = omega arith in
    rw (digits_of-one f n e, same, one, empty, nil-append (digit_text n), width)
      (read_digit n v 0 s p ∙ ap (λ k. read_number v k s) (omega arith))
padded-back (suc w) zero v n s p q = absurd (omega (arith, q))
padded-back (suc w) (suc f) v n s p q =
    let width : suc (suc w) + v ≡ suc w + suc v = omega arith in
    let before = padded (suc w) (digits_of (suc f) (n / 10)) in
    rw (padded-snoc w f n, append_assoc before (digit_text (n % 10)) s, width)
      (padded-back w f (suc v) (n / 10) (digit_text (n % 10) ++ s) (omega (arith, p))
          (omega (arith, q))
        ∙ (read_digit (n % 10) v (n / 10) s (omega arith)
            ∙ ap (λ k. read_number v k s) (omega arith)))
