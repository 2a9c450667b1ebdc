-- ===== src/Util/Uuid.antt =====
-- chat/util/uuid.cc: a random id as a text. The random bytes of OpenSSL are a parameter.
pub mod Form
use Prim.Native.String.{slice, ◌++◌}
use flz_chat.Common.{
  ℕ, zero, suc, ◌+◌, ◌*◌, ◌/◌, ◌%◌, ◌≡◌, refl, String, Option, none, some, List, [], ◌∷◌,
}

-- `a & b` on so many bits.
unfoldable pub bit_and : ℕ → ℕ → ℕ → ℕ
bit_and zero a b = 0
bit_and (suc w) a b = (a % 2) * (b % 2) + 2 * bit_and w (a / 2) (b / 2)

or_bit : ℕ → ℕ → ℕ
or_bit zero b = b
or_bit (suc a) b = 1

-- `a | b` on so many bits.
unfoldable pub bit_or : ℕ → ℕ → ℕ → ℕ
unfolding or_bit
bit_or zero a b = 0
bit_or (suc w) a b = or_bit (a % 2) (b % 2) + 2 * bit_or w (a / 2) (b / 2)

-- `%02x` of a byte.
unfoldable pub hex_digit : ℕ → String
hex_digit d = slice "0123456789abcdef" d (suc d)

unfoldable pub hex : ℕ → String
unfolding hex_digit
hex n = hex_digit (n / 16) ++ hex_digit (n % 16)

-- `b[i] = f(b[i])`
unfoldable pub update_at : ℕ → (ℕ → ℕ) → List ℕ → List ℕ
update_at i f [] = []
update_at zero f (b ∷ bs) = f b ∷ bs
update_at (suc i) f (b ∷ bs) = b ∷ update_at i f bs

-- The parts of the format: `%02x` or a dash.
pub data Piece : Type 0 where
  byte : Piece
  dash : Piece

abbrev pub layout : List Piece
layout =
    byte ∷ byte ∷ byte ∷ byte ∷ dash ∷ byte ∷ byte ∷ dash ∷ byte ∷ byte ∷ dash ∷ byte ∷ byte ∷ dash
    ∷ byte ∷ byte ∷ byte ∷ byte ∷ byte ∷ byte ∷ []

-- `snprintf` with a format of such parts.
unfoldable pub format : List Piece → List ℕ → String
unfolding hex
format [] bs = ""
format (byte ∷ ps) [] = ""
format (byte ∷ ps) (b ∷ bs) = hex b ++ format ps bs
format (dash ∷ ps) bs = "-" ++ format ps bs

-- `V4` with the bytes that `RAND_bytes` fills, if it does.
unfoldable pub v4 : Option (List ℕ) → String
unfolding bit_and bit_or update_at format
v4 none = ""
v4 (some b) =
    let b = update_at 6 (λ n. bit_or 8 (bit_and 8 n 15) 64) b in
    let b = update_at 8 (λ n. bit_or 8 (bit_and 8 n 63) 128) b in format layout b
