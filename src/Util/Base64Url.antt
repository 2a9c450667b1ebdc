-- ===== src/Util/Base64Url.antt =====
-- chat/util/base64url: base64 in the URL alphabet, without padding.
--
-- flz::base64encode and flz::base64decode are parameters.
pub mod RoundTrip
pub mod Padding
use Prim.Native.Char.{Char, code}
use Prim.Native.String.{◌++◌}
use flz_chat.Common.{ℕ, zero, suc, ◌%◌, String, size, if◌then◌else◌}
use flz_chat.Common.{nat_eq, ◌==◌}

pub record Base64 : Type 0 where
  pub encode : String → String
  pub decode : String → String

-- The loop over the bytes of a text.
unfoldable pub map_chars : (Char → Char) → String → String
map_chars f String.[] = ""
map_chars f (String.◌∷◌ c s) = String.◌∷◌ (f c) (map_chars f s)

-- '+' to '-' and '/' to '_', and back.
unfoldable pub to_url : Char → Char
to_url c = if code c == b'+' then "-" else if code c == b'/' then "_" else c

unfoldable pub from_url : Char → Char
from_url c = if code c == b'-' then "+" else if code c == b'_' then "/" else c

-- The text without the '=' at its end.
unfoldable pub strip_padding : String → String
strip_padding String.[] = ""
strip_padding (String.◌∷◌ c s) = elim (strip_padding s) [
  | String.[] ↦ if code c == b'=' then "" else String.◌∷◌ c ""
  | String.◌∷◌ d t ↦ String.◌∷◌ c (String.◌∷◌ d t)
]

-- The text with '=' at its end, up to a multiple of four bytes; three rounds are enough.
unfoldable pub add_padding : ℕ → String → String
add_padding zero s = s
add_padding (suc f) s =
    let longer = add_padding f (s ++ "=") in if size s % 4 == 0 then s else longer

module _ (B : Base64) where
  unfoldable pub encode : String → String
  unfolding map_chars to_url strip_padding
  encode text = strip_padding (map_chars to_url (B.encode text))

  -- `Decode`, which always returns true.
  unfoldable pub decode : String → String
  unfolding map_chars from_url add_padding
  decode text = B.decode (add_padding 3 (map_chars from_url text))
