-- ===== src/Auth/Jwt/Split.antt =====
-- `Split` of chat/auth/jwt.cc: the parts of a text between the separators.
use Prim.Native.Char.{Char, code}
use Prim.Native.String.{◌++◌}
use text.Mathlib.TextLemmas.{cons-append, nil-append, append_assoc, append-nil}
use text.Mathlib.TextEquality.{Char-path}
use flz_chat.Common.{
  ℕ, ◌≡◌, refl, ap, ◌∙◌, sym, String, List, [], ◌∷◌, ◌==◌, nat_eq, if◌then◌else◌, Bool-cases, inl,
  inr,
}

-- A byte as a text, and a text with a byte pushed on its end.
abbrev pub one_char : Char → String
one_char c = String.◌∷◌ c ""

-- The loop: what has been read of the current part, and the text that is left.
unfoldable pub split_from : ℕ → String → String → List String
split_from sep current String.[] = current ∷ []
split_from sep current (String.◌∷◌ c s) =
    let closed = current ∷ split_from sep "" s in
    let longer = split_from sep (current ++ one_char c) s in
    if code c == sep then closed else longer

unfoldable pub split : String → ℕ → List String
unfolding split_from
split s sep = split_from sep "" s

-- The parts with a separator between them.
unfoldable pub join : Char → List String → String
join sep [] = ""
join sep (p ∷ []) = p
join sep (p ∷ q ∷ ps) = p ++ (one_char sep ++ join sep (q ∷ ps))

-- `split_from` gives one part at least, so a part before it is followed by a separator.
join-split_from_part :
    (sep : Char) (p current s : String)
    → join sep (p ∷ split_from (code sep) current s)
      ≡ p ++ (one_char sep ++ join sep (split_from (code sep) current s))
unfolding split_from join
join-split_from_part sep p current String.[] = refl
join-split_from_part sep p current (String.◌∷◌ c s) = elim (Bool-cases (code c == code sep)) [
  | inl e ↦ rw e refl
  | inr e ↦ rw e (join-split_from_part sep p (current ++ one_char c) s)
]

one_char_front : (c : Char) (s : String) → one_char c ++ s ≡ String.◌∷◌ c s
one_char_front c s = cons-append c "" s ∙ ap (String.◌∷◌ c) (nil-append s)

pub append_char :
    (current s : String) (c : Char) → (current ++ one_char c) ++ s ≡ current ++ String.◌∷◌ c s
append_char current s c =
    append_assoc current (one_char c) s ∙ ap (λ t. current ++ t) (one_char_front c s)

join-split_from :
    (sep : Char) (current s : String) → join sep (split_from (code sep) current s) ≡ current ++ s
unfolding split_from join
join-split_from sep current String.[] = sym (append-nil current)
join-split_from sep current (String.◌∷◌ c s) = elim (Bool-cases (code c == code sep)) [
  | inl e ↦
      let same : c ≡ sep = Char-path c sep ((nat_eq.beq_iff (code c) (code sep)).0 e) in
      rw e (
        join-split_from_part sep current "" s
        ∙ ap (λ t. current ++ (one_char sep ++ t)) (join-split_from sep "" s ∙ nil-append s)
        ∙ rw same (ap (λ t. current ++ t) (one_char_front sep s)))
  | inr e ↦ rw e (join-split_from sep (current ++ one_char c) s ∙ append_char current s c)
]

-- The parts of a text, joined by the separator, are the text.
pub join-split : (sep : Char) (s : String) → join sep (split s (code sep)) ≡ s
unfolding split
join-split sep s = join-split_from sep "" s ∙ nil-append s
