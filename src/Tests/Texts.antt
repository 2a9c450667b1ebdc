-- ===== src/Tests/Texts.antt =====
-- The texts of ids and times of chat/util at concrete values.
use flz_chat.Common.{
  size, ◌%◌, string_eq, ◌==◌, if◌then◌else◌, ◌≡◌, refl, some, List, [], ◌∷◌, ℕ, pos, negsuc, ◌+ℤ◌,
  ◌*ℤ◌, arith,
}
use flz_chat.Util.Base64Url.{Base64, add_padding, encode, decode}
use flz_chat.Util.Base64Url.Padding.{add_padding-ends}
use flz_chat.Util.Base64Url.RoundTrip.{Each, IsUrlSafe, IsBase64, equals, decode-encode}
use flz_chat.Util.Uuid.{layout, update_at, v4}
use flz_chat.Util.Uuid.Form.{read, read-v4, version, variant}
use flz_chat.Util.Time.{iso8601_from_ms}
use flz_chat.Util.Time.Reading.{read_iso}
use flz_chat.Util.Time.RoundTrip.{read-iso8601_from_ms}

abbrev random : List ℕ
random = 17 ∷ 34 ∷ 255 ∷ 0 ∷ 9 ∷ 201 ∷ 77 ∷ 140 ∷ 8 ∷ 250 ∷ 13 ∷ 99 ∷ 100 ∷ 101 ∷ 128 ∷ 64 ∷ []

read-v4_example :
    read layout (v4 (some random)) ≡ some (update_at 8 variant (update_at 6 version random))
read-v4_example = read-v4 random refl (omega arith)

-- The fifteenth of November 2023 at Beijing, and a quarter of an hour west of Greenwich.
read-iso8601_from_ms_example :
    read_iso (iso8601_from_ms (pos 1700000000123) (pos 480)) ≡ some (1700028800, pos 480)
unfolding ◌+ℤ◌ ◌*ℤ◌
read-iso8601_from_ms_example =
    read-iso8601_from_ms (pos 1700000000123) (pos 480) 1700028800 refl (omega arith) (omega arith)
      (omega arith)

west : read_iso (iso8601_from_ms (pos 1700000000123) (negsuc 14)) ≡ some (1699999100, negsuc 14)
unfolding ◌+ℤ◌ ◌*ℤ◌
west =
    read-iso8601_from_ms (pos 1700000000123) (negsuc 14) 1699999100 refl (omega arith) (omega arith)
      (omega arith)

-- The base64 of two texts.
abbrev base64 : Base64
base64 = record {
  encode = λ text. if text == "a>?" then "YT4/" else if text == "i>" then "aT4=" else "";
  decode = λ text. if text == "YT4/" then "a>?" else if text == "aT4=" then "i>" else "";
}

padded : IsBase64 base64 "i>"
unfolding size equals
padded = record {
  body = "aT4";
  padding = 1;
  plain = omega arith;
  short = omega arith;
  even = refl;
  form = refl;
  back = refl;
}

decode-encode_example :
    Each IsUrlSafe (encode base64 "i>") × (decode base64 (encode base64 "i>") ≡ "i>")
decode-encode_example = decode-encode base64 "i>" padded

add_padding-ends_example :
    (add_padding 5 "aT4" ≡ add_padding 3 "aT4") × (size (add_padding 3 "aT4") % 4 ≡ 0)
add_padding-ends_example = add_padding-ends 5 "aT4" (omega arith)

slash_test : encode base64 "a>?" ≡ "YT4_"
unfolding encode
slash_test = refl
