-- ===== src/Auth/Jwt/Numbers.antt =====
-- `ParseUInt64` of chat/auth/jwt.cc, on the C library's strtoull.
use Prim.Native.Char.{code}
use flz_chat.Common.{
  ℕ, ◌+◌, ◌-◌, ◌*◌, ◌%◌, ◌^◌, Bool, true, false, ◌||◌, ◌&&◌, leb, ltb, String, Option, none, some,
  ◌==◌, nat_eq, is_blank, if◌then◌else◌,
}

abbrev is_space : ℕ → Bool
is_space c = c == b' ' || leb 9 c && leb c 13

abbrev is_digit : ℕ → Bool
is_digit c = leb b'0' c && leb c b'9'

unfoldable pub skip_spaces : String → String
skip_spaces String.[] = ""
skip_spaces (String.◌∷◌ c s) =
    let rest = skip_spaces s in if is_space (code c) then rest else String.◌∷◌ c s

-- An optional sign, and whether it is a minus.
unfoldable pub read_sign : String → Bool × String
read_sign String.[] = (false, "")
read_sign (String.◌∷◌ c s) =
    if code c == b'-'
    then (true, s)
    else if code c == b'+'
    then (false, s)
    else (false, String.◌∷◌ c s)

-- The digits: their value after that of the digits before, and what follows.
unfoldable pub read_digits : ℕ → String → ℕ × String
read_digits acc String.[] = (acc, "")
read_digits acc (String.◌∷◌ c s) =
    let rest = read_digits (acc * 10 + (code c - b'0')) s in
    if is_digit (code c) then rest else (acc, String.◌∷◌ c s)

abbrev starts_with_digit : String → Bool
starts_with_digit String.[] = false
starts_with_digit (String.◌∷◌ c s) = is_digit (code c)

abbrev u64_max : ℕ
u64_max = 2 ^ 64 - 1

-- The value of strtoull: the largest number if the digits are out of range, else negated modulo
-- 2^64 after a minus.
abbrev to_range : Bool → ℕ → ℕ
to_range negative n =
    if ltb u64_max n then u64_max else if negative then (2 ^ 64 - n) % 2 ^ 64 else n

-- strtoull in base 10: the value, and the text from where reading stopped. Without a digit that is
-- the whole text.
unfoldable pub strtoull : String → ℕ × String
unfolding skip_spaces read_sign read_digits
strtoull text =
    let signed = read_sign (skip_spaces text) in
    let (n, rest) = read_digits 0 signed.1 in
    if starts_with_digit signed.1 then (to_range signed.0 n, rest) else (0, text)

-- `*end == '\0'`: the end of the text, or a zero byte in it.
abbrev at_end : String → Bool
at_end String.[] = true
at_end (String.◌∷◌ c s) = code c == 0

unfoldable pub parse_uint64 : String → Option ℕ
unfolding strtoull
parse_uint64 text =
    let (v, rest) = strtoull text in
    if is_blank text then none else if at_end rest then some v else none
