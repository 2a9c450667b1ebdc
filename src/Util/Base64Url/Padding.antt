-- ===== src/Util/Base64Url/Padding.antt =====
-- The loop of chat/util/base64url that pads a text ends by its own condition.
use Prim.Native.String.{◌++◌}
use flz_chat.Common.{
  ℕ, zero, suc, ◌+◌, ◌%◌, ◌≤◌, ◌≡◌, refl, sym, ◌≢◌, ◌⊎◌, inl, inr, false, String, size, size-append,
  ◌==◌, nat_eq, Bool-cases, arith,
}
use flz_chat.Util.Base64Url.{add_padding}

-- A round for each byte that is missing.
abbrev IsEnough : ℕ → String → Type 0
IsEnough f s = (size s % 4 ≡ 0) ⊎ (4 ≤ size s % 4 + f)

longer-IsEnough :
    (f : ℕ) (s : String) → (size s % 4 == 0) ≡ false → IsEnough (suc f) s → IsEnough f (s ++ "=")
unfolding size
longer-IsEnough f s e p =
    let missing : size s % 4 ≢ 0 = ground (arith, e) in omega (arith, missing, p, size-append s "=")

add_padding_enough :
    (f g : ℕ) (s : String)
    → IsEnough f s
    → IsEnough g s
    → (size (add_padding f s) % 4 ≡ 0) × (add_padding f s ≡ add_padding g s)
unfolding add_padding
add_padding_enough zero zero s p q = (ground (arith, p), refl)
add_padding_enough zero (suc g) s p q =
    let even : size s % 4 ≡ 0 = ground (arith, p) in (even, rw (add_padding, even) refl)
add_padding_enough (suc f) zero s p q =
    let even : size s % 4 ≡ 0 = ground (arith, q) in
    (rw (add_padding, even) even, rw (add_padding, even) refl)
add_padding_enough (suc f) (suc g) s p q = elim (Bool-cases (size s % 4 == 0)) [
  | inl e ↦ rw (add_padding, e) (ground (arith, e), refl)
  | inr e ↦
      rw (add_padding, e)
        (add_padding_enough f g (s ++ "=") (longer-IsEnough f s e p) (longer-IsEnough g s e q))
]

-- The loop ends: from three rounds on, more change nothing, and its condition, that the length is no
-- multiple of four, no longer holds.
pub add_padding-ends :
    (rounds : ℕ) (s : String)
    → 3 ≤ rounds
    → (add_padding rounds s ≡ add_padding 3 s) × (size (add_padding 3 s) % 4 ≡ 0)
add_padding-ends rounds s p =
    let three : IsEnough 3 s = omega arith in
    let (even, same) = add_padding_enough 3 rounds s three (omega (arith, p)) in (sym same, even)
