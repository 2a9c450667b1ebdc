-- ===== src/Util/Base64Url/RoundTrip.antt =====
-- chat/util/base64url: a text that is encoded decodes to itself.
use Prim.Native.Char.{Char, code}
use Prim.Native.String.{◌++◌}
use text.Mathlib.TextEquality.{Char-path}
use text.Mathlib.TextLemmas.{cons-append, nil-append, append-nil, append_assoc}
use flz_chat.Common.{
  ℕ, zero, suc, ◌+◌, ◌%◌, ◌≤◌, ◌<◌, ◌≡◌, ◌≢◌, refl, ◌∙◌, ap, sym, subst, true, false, String, size,
  size-append, ◌==◌, nat_eq, Bool-cases, inl, inr, arith,
}
use flz_chat.Util.Base64Url.{
  Base64, map_chars, to_url, from_url, strip_padding, add_padding, encode, decode,
}

unfoldable pub equals : ℕ → String
equals zero = ""
equals (suc n) = "=" ++ equals n

-- A text of which each byte is such a byte.
abbrev pub Each : (ℕ → Type 0) → String → Type 0
Each P String.[] = Unit
Each P (String.◌∷◌ c s) = P (code c) × Each P s

-- Bytes that are no '=' and not in the URL alphabet alone, and bytes of the URL alphabet.
abbrev pub IsPlain : ℕ → Type 0
IsPlain b = (b ≢ b'=') × (b ≢ b'-') × (b ≢ b'_')

abbrev pub IsUrlSafe : ℕ → Type 0
IsUrlSafe b = (b ≢ b'=') × (b ≢ b'+') × (b ≢ b'/')

-- What RFC 4648 says of the base64 of a text: bytes of the standard alphabet and less than four '=',
-- together a multiple of four, from which the text can be decoded.
pub record IsBase64 (B : Base64) (text : String) : Type 0 where
  pub body : String
  pub padding : ℕ
  pub plain : Each IsPlain body
  pub short : padding < 4
  pub even : (size body + padding) % 4 ≡ 0
  pub form : B.encode text ≡ body ++ equals padding
  pub back : B.decode (B.encode text) ≡ text

map_chars-append :
    (f : Char → Char) (s t : String) → map_chars f (s ++ t) ≡ map_chars f s ++ map_chars f t
unfolding map_chars
map_chars-append f String.[] t = rw (nil-append t, nil-append (map_chars f t)) refl
map_chars-append f (String.◌∷◌ c s) t =
    rw (cons-append c s t, cons-append (f c) (map_chars f s) (map_chars f t))
      (ap (λ r. String.◌∷◌ (f c) r) (map_chars-append f s t))

equals_cons : (n : ℕ) → equals (suc n) ≡ String.◌∷◌ "=" (equals n)
unfolding equals
equals_cons n = rw (cons-append "=" "" (equals n), nil-append (equals n)) refl

map_chars-equals : (n : ℕ) → map_chars to_url (equals n) ≡ equals n
unfolding map_chars to_url
map_chars-equals zero = unfold equals in refl
map_chars-equals (suc n) = rw (equals_cons n) (ap (λ r. String.◌∷◌ "=" r) (map_chars-equals n))

strip_padding-equals : (n : ℕ) → strip_padding (equals n) ≡ ""
unfolding strip_padding
strip_padding-equals zero = unfold equals in refl
strip_padding-equals (suc n) = rw (equals_cons n, strip_padding, strip_padding-equals n) refl

-- A byte that is no '=' stays, whatever stands after it.
strip_padding-keeps :
    (c : Char) (s t : String)
    → code c ≢ b'='
    → strip_padding t ≡ s
    → strip_padding (String.◌∷◌ c t) ≡ String.◌∷◌ c s
unfolding strip_padding
strip_padding-keeps c String.[] t p e =
    let other : (code c == b'=') ≡ false = ground (arith, p) in rw (strip_padding, e, other) refl
strip_padding-keeps c (String.◌∷◌ d s) t p e = rw (strip_padding, e) refl

strip_padding-append : (s : String) (n : ℕ) → Each IsUrlSafe s → strip_padding (s ++ equals n) ≡ s
strip_padding-append String.[] n a = rw (nil-append (equals n)) (strip_padding-equals n)
strip_padding-append (String.◌∷◌ c s) n a =
    rw (cons-append c s (equals n))
      (strip_padding-keeps c s (s ++ equals n) a.0.0 (strip_padding-append s n a.1))

to_url-IsUrlSafe : (c : Char) → IsPlain (code c) → IsUrlSafe (code (to_url c))
unfolding to_url
to_url-IsUrlSafe c p = elim (Bool-cases (code c == b'+')) [
  | inl e ↦ rw (to_url, e) (omega arith, omega arith, omega arith)
  | inr e ↦ elim (Bool-cases (code c == b'/')) [
    | inl f ↦ rw (to_url, e, f) (omega arith, omega arith, omega arith)
    | inr f ↦ rw (to_url, e, f) (p.0, ground (arith, e), ground (arith, f))
  ]
]

from_url-to_url : (c : Char) → IsPlain (code c) → from_url (to_url c) ≡ c
unfolding from_url to_url
from_url-to_url c p = elim (Bool-cases (code c == b'+')) [
  | inl e ↦ rw (to_url, e) (Char-path "+" c (ground (arith, e)))
  | inr e ↦ elim (Bool-cases (code c == b'/')) [
    | inl f ↦ rw (to_url, e, f) (Char-path "/" c (ground (arith, f)))
    | inr f ↦
        let dash : (code c == b'-') ≡ false = ground (arith, p.1) in
        let line : (code c == b'_') ≡ false = ground (arith, p.2) in
        rw (to_url, e, f, from_url, dash, line) refl
  ]
]

map_chars-IsUrlSafe : (s : String) → Each IsPlain s → Each IsUrlSafe (map_chars to_url s)
unfolding map_chars
map_chars-IsUrlSafe String.[] a = tt
map_chars-IsUrlSafe (String.◌∷◌ c s) a = (to_url-IsUrlSafe c a.0, map_chars-IsUrlSafe s a.1)

map_chars-map_chars : (s : String) → Each IsPlain s → map_chars from_url (map_chars to_url s) ≡ s
unfolding map_chars
map_chars-map_chars String.[] a = refl
map_chars-map_chars (String.◌∷◌ c s) a =
    rw (from_url-to_url c a.0) (ap (λ r. String.◌∷◌ c r) (map_chars-map_chars s a.1))

size-map_chars : (f : Char → Char) (s : String) → size (map_chars f s) ≡ size s
unfolding size map_chars
size-map_chars f String.[] = refl
size-map_chars f (String.◌∷◌ c s) = omega (arith, size-map_chars f s)

-- The rounds of the loop that adds '='.
add_padding-equals :
    (f n : ℕ) (s : String) → n ≤ f → n < 4 → (size s + n) % 4 ≡ 0 → add_padding f s ≡ s ++ equals n
unfolding add_padding
add_padding-equals zero zero s p q e = unfold equals in sym (append-nil s)
add_padding-equals zero (suc n) s p q e = absurd (omega (arith, p))
add_padding-equals (suc f) zero s p q e =
    let done : (size s % 4 == 0) ≡ true = ground (arith, e) in
    rw (add_padding, done) (unfold equals in sym (append-nil s))
add_padding-equals (suc f) (suc n) s p q e =
    let more : (size s % 4 == 0) ≡ false = ground (arith, e, q) in
    let longer : size (s ++ "=") ≡ size s + 1 =
      size-append s "=" ∙ ap (λ k. size s + k) (unfold size in refl) in
    rw (add_padding, more)
      (add_padding-equals f n (s ++ "=") (omega (arith, p)) (omega (arith, q))
          (omega (arith, e, longer))
        ∙ unfold equals in append_assoc s "=" (equals n))

-- Where the library's base64 of a text is as RFC 4648 says, what `Encode` gives has no '+', no '/' and
-- no '=', and `Decode` gives the text back.
pub decode-encode :
    (B : Base64) (text : String)
    → IsBase64 B text
    → Each IsUrlSafe (encode B text) × (decode B (encode B text) ≡ text)
unfolding encode decode
decode-encode B text x =
    let url = map_chars to_url x.body in
    let safe = map_chars-IsUrlSafe x.body x.plain in
    let encoded : encode B text ≡ url =
      rw (x.form, map_chars-append to_url x.body (equals x.padding), map_chars-equals x.padding)
        (strip_padding-append url x.padding safe) in
    let padded : add_padding 3 (map_chars from_url url) ≡ B.encode text =
      rw (map_chars-map_chars x.body x.plain, x.form)
        (add_padding-equals 3 x.padding x.body (omega (arith, x.short)) x.short x.even) in
    (
      subst (Each IsUrlSafe) (sym encoded) safe,
      ap (decode B) encoded ∙ (ap B.decode padded ∙ x.back),
    )
