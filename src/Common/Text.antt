-- ===== src/Common/Text.antt =====
-- std::string: a native text in which each character stands for a byte.
use Prim.Native.Nat.{ℕ, zero, suc, ◌/◌, ◌%◌}
use mathlib.Core.Path.{◌≡◌, refl}
use Prim.Native.Char.{code}
use Prim.Native.String.{String, slice, ◌++◌}
use mathlib.Core.Option.{Option, none, some}
use mathlib.Core.Bool.{Bool}
use text.Mathlib.Text.{◌==◌ as str_eq}
use text.Mathlib.TextLemmas.{cons-append, nil-append}
use native.Mathlib.Omega.{arith}
use Prim.Native.Nat.{◌+◌}
use flz_chat.Common.Tests.{◌==◌, ltb, if◌then◌else◌}

-- `s.size()`
unfoldable pub size : String → ℕ
size String.[] = 0
size (String.◌∷◌ c s) = suc (size s)

-- `s.empty()`
abbrev pub is_blank : String → Bool
is_blank s = str_eq s ""

-- What follows a prefix: `s.compare(0, p.size(), p) == 0` and `s.substr(p.size())`.
unfoldable pub strip_prefix : String → String → Option String
strip_prefix String.[] text = some text
strip_prefix (String.◌∷◌ p ps) String.[] = none
strip_prefix (String.◌∷◌ p ps) (String.◌∷◌ t ts) =
    let rest = strip_prefix ps ts in if code t == code p then rest else none

pub size-append : (s t : String) → size (s ++ t) ≡ size s + size t
unfolding size
size-append String.[] t = rw (nil-append t) (omega arith)
size-append (String.◌∷◌ c s) t = rw (cons-append c s t) (omega (arith, size-append s t))

pub strip_prefix-append : (p s : String) → strip_prefix p (p ++ s) ≡ some s
unfolding strip_prefix
strip_prefix-append String.[] s = rw (nil-append s) refl
strip_prefix-append (String.◌∷◌ c p) s =
    rw (cons-append c p s) (ground (arith, strip_prefix-append p s))

-- What stands before a last byte: `s[s.size() - 1] == b` and `s.substr(0, s.size() - 1)`.
unfoldable pub strip_last : ℕ → String → Option String
strip_last b String.[] = none
strip_last b (String.◌∷◌ c String.[]) = if code c == b then some "" else none
strip_last b (String.◌∷◌ c (String.◌∷◌ d s)) = elim (strip_last b (String.◌∷◌ d s)) [
  | none ↦ none
  | some t ↦ some (String.◌∷◌ c t)
]

-- `std::to_string` of a number of at most as many digits as there is fuel.
unfoldable pub digits_of : ℕ → ℕ → String
digits_of zero n = ""
digits_of (suc f) n =
    let higher = digits_of f (n / 10) in
    let digit = slice "0123456789" (n % 10) (suc (n % 10)) in
    if ltb n 10 then digit else higher ++ digit

-- Twenty digits hold any uint64_t.
unfoldable pub to_decimal : ℕ → String
unfolding digits_of
to_decimal n = digits_of 20 n

decimal_test : to_decimal 1305 ≡ "1305"
unfolding to_decimal
decimal_test = refl
