-- ===== src/Util/Uuid/Form.antt =====
-- The form of the ids of chat/util/uuid.cc.
use Prim.Native.Char.{code}
use Prim.Native.String.{◌++◌}
use text.Mathlib.TextLemmas.{append_assoc, cons-append, nil-append}
use flz_chat.Common.{
  bind? as ◌>>=◌, ℕ, zero, suc, ◌+◌, ◌-◌, ◌*◌, ◌/◌, ◌%◌, ◌<◌, ◌≡◌, refl, ◌&&◌, String, Option, none,
  some, List, [], ◌∷◌, All, length, leb, Option-cases, below, all_below, all_below_lem, inl, inr,
  sym, strip_prefix, ◌∙◌, ap, ◌==◌, nat_eq, if◌then◌else◌, arith,
}
use flz_chat.Util.Uuid.{
  bit_and, bit_or, hex_digit, hex, update_at, Piece, byte, dash, layout, format, v4,
}

v4_test :
    v4 (some (0 ∷ 1 ∷ 2 ∷ 3 ∷ 4 ∷ 5 ∷ 255 ∷ 7 ∷ 255 ∷ 9 ∷ 10 ∷ 11 ∷ 12 ∷ 13 ∷ 14 ∷ 15 ∷ []))
    ≡ "00010203-0405-4f07-bf09-0a0b0c0d0e0f"
unfolding v4
v4_test = refl

-- The value of a hexadecimal digit.
unfoldable pub digit_of : ℕ → Option ℕ
digit_of c =
    if leb b'0' c && leb c b'9'
    then some (c - b'0')
    else if leb b'a' c && leb c b'f'
    then some (c - b'a' + 10)
    else none

-- A hexadecimal digit at the front of a text.
unfoldable pub read_digit : String → Option (ℕ × String)
unfolding digit_of
read_digit String.[] = none
read_digit (String.◌∷◌ c s) = elim (digit_of (code c)) [ none ↦ none | some d ↦ some (d, s) ]

read_digit-append :
    (t s : String) (d : ℕ) → read_digit t ≡ some (d, "") → read_digit (t ++ s) ≡ some (d, s)
unfolding read_digit
read_digit-append String.[] s d e = absurd (cc)
read_digit-append (String.◌∷◌ c u) s d e = elim (Option-cases (digit_of (code c))) [
  | inl f ↦ absurd (cc)
  | inr (v, f) ↦
      let found : ◌≡◌ {A = Option (ℕ × String)} (some (v, u)) (some (d, "")) =
        sym (rw (f, read_digit) refl) ∙ e in
      let same : v ≡ d = cc in
      let end : u ≡ "" = cc in rw (cons-append c u s, f, read_digit, same, end, nil-append s) refl
]

digit_back : (d : ℕ) (s : String) → d < 16 → read_digit (hex_digit d ++ s) ≡ some (d, s)
digit_back d s p = read_digit-append (hex_digit d) s d (
    unfold hex_digit read_digit in
    below 16 (λ d. read_digit (hex_digit d) ≡ some (d, ""))
      (
        refl,
        (
          refl,
          (
            refl,
            (
              refl,
              (
                refl,
                (
                  refl,
                  (
                    refl,
                    (refl, (refl, (refl, (refl, (refl, (refl, (refl, (refl, (refl, tt))))))))),
                  ),
                ),
              ),
            ),
          ),
        ),
      )
      d p)

version_bits : (n : ℕ) → n < 256 → bit_or 8 (bit_and 8 n 15) 64 ≡ n % 16 + 64
unfolding bit_or bit_and all_below
version_bits n p =
    (nat_eq.beq_iff _ _).0
      (all_below_lem 256 (λ n. bit_or 8 (bit_and 8 n 15) 64 == n % 16 + 64) refl n p)

variant_bits : (n : ℕ) → n < 256 → bit_or 8 (bit_and 8 n 63) 128 ≡ n % 64 + 128
unfolding bit_or bit_and all_below
variant_bits n p =
    (nat_eq.beq_iff _ _).0
      (all_below_lem 256 (λ n. bit_or 8 (bit_and 8 n 63) 128 == n % 64 + 128) refl n p)

-- A byte in two digits at the front of a text.
unfoldable pub read_byte : String → Option (ℕ × String)
unfolding read_digit
read_byte s = do (high, t) ← read_digit s; (low, u) ← read_digit t; some (high * 16 + low, u)

-- The bytes of a text of a form.
unfoldable pub read : List Piece → String → Option (List ℕ)
unfolding read_byte strip_prefix
read [] String.[] = some []
read [] (String.◌∷◌ c s) = none
read (byte ∷ ps) s = do (b, t) ← read_byte s; bs ← read ps t; some (b ∷ bs)
read (dash ∷ ps) s = do t ← strip_prefix "-" s; read ps t

byte_back : (n : ℕ) (s : String) → n < 256 → read_byte (hex n ++ s) ≡ some (n, s)
unfolding read_byte hex
byte_back n s p =
    rw
      (
        append_assoc (hex_digit (n / 16)) (hex_digit (n % 16)) s,
        digit_back (n / 16) (hex_digit (n % 16) ++ s) (omega (arith, p)),
        digit_back (n % 16) s (omega arith),
      )
      (ap (λ k. some (k, s)) (omega arith))

abbrev bytes : List Piece → ℕ
bytes [] = 0
bytes (byte ∷ ps) = suc (bytes ps)
bytes (dash ∷ ps) = bytes ps

format_back :
    (ps : List Piece) (bs : List ℕ)
    → length bs ≡ bytes ps
    → All (λ b. b < 256) bs
    → read ps (format ps bs) ≡ some bs
unfolding read format strip_prefix
format_back [] [] e a = refl
format_back [] (b ∷ bs) e a = absurd (omega (arith, e))
format_back (byte ∷ ps) [] e a = absurd (omega (arith, e))
format_back (byte ∷ ps) (b ∷ bs) e a =
    rw (byte_back b (format ps bs) a.0, format_back ps bs (omega (arith, e)) a.1) refl
format_back (dash ∷ ps) bs e a =
    rw (cons-append "-" "" (format ps bs), nil-append (format ps bs)) (format_back ps bs e a)

length-update_at : (i : ℕ) (f : ℕ → ℕ) (bs : List ℕ) → length (update_at i f bs) ≡ length bs
unfolding update_at
length-update_at i f [] = refl
length-update_at zero f (b ∷ bs) = refl
length-update_at (suc i) f (b ∷ bs) = omega (arith, length-update_at i f bs)

-- A byte that is set to a byte.
update_at-All :
    (i : ℕ) (f : ℕ → ℕ) (bs : List ℕ)
    → ((n : ℕ) → n < 256 → f n < 256)
    → All (λ b. b < 256) bs
    → All (λ b. b < 256) (update_at i f bs)
unfolding update_at
update_at-All i f [] h a = tt
update_at-All zero f (b ∷ bs) h a = (h b a.0, a.1)
update_at-All (suc i) f (b ∷ bs) h a = (a.0, update_at-All i f bs h a.1)

update_at-same :
    (i : ℕ) (f g : ℕ → ℕ) (bs : List ℕ)
    → ((n : ℕ) → n < 256 → f n ≡ g n)
    → All (λ b. b < 256) bs
    → update_at i f bs ≡ update_at i g bs
unfolding update_at
update_at-same i f g [] h a = refl
update_at-same zero f g (b ∷ bs) h a = ap (λ x. x ∷ bs) (h b a.0)
update_at-same (suc i) f g (b ∷ bs) h a = ap (λ l. b ∷ l) (update_at-same i f g bs h a.1)

abbrev pub version : ℕ → ℕ
version n = n % 16 + 64

abbrev pub variant : ℕ → ℕ
variant n = n % 64 + 128

-- The id of sixteen random bytes is a text of the form of RFC 4122, which reads back as these bytes,
-- but for the four bits of the version, which are 4, and the two bits of the variant, which are 2.
pub read-v4 :
    (b : List ℕ)
    → length b ≡ 16
    → All (λ n. n < 256) b
    → read layout (v4 (some b)) ≡ some (update_at 8 variant (update_at 6 version b))
unfolding v4
read-v4 b e a =
    let version_same = update_at-same 6 _ version b version_bits a in
    let bytes = update_at-All 6 version b (λ n p. omega arith) a in
    let variant_same = update_at-same 8 _ variant (update_at 6 version b) variant_bits bytes in
    let stamped = update_at 8 variant (update_at 6 version b) in
    let long : length stamped ≡ 16 =
      length-update_at 8 variant (update_at 6 version b) ∙ (length-update_at 6 version b ∙ e) in
    rw (version_same, variant_same)
      (format_back layout stamped long
        (update_at-All 8 variant (update_at 6 version b) (λ n p. omega arith) bytes))
