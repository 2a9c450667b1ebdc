-- ===== src/Common/OrderedMap.antt =====
-- std::map with texts as keys: an association list in the order of the keys.
use Prim.Native.Char.{Char, code}
use text.Mathlib.TextEquality.{codes_equal}
use Prim.Native.String.{String}
use mathlib.Core.Path.{◌≡◌, refl, subst, ap}
use mathlib.Core.Logic.{inl, inr}
use mathlib.Core.Bool.{Bool, true, false}
use mathlib.Core.Option.{some}
use mathlib.Core.List.{List, [], ◌∷◌}
use native.Mathlib.Omega.{arith}
use flz_chat.Common.Tests.{◌==◌ as nat_beq, ltb, if◌then◌else◌, if_cases, Bool-cases}
use flz_chat.Common.Lists.{All}
use flz_chat.Common.Maps.{string_eq, ◌==◌, lookup}

-- `a < b` on std::string: byte by byte.
unfoldable pub less : String → String → Bool
less String.[] String.[] = false
less String.[] (String.◌∷◌ d t) = true
less (String.◌∷◌ c s) String.[] = false
less (String.◌∷◌ c s) (String.◌∷◌ d t) =
    let rest = less s t in
    if ltb (code c) (code d) then true else if nat_beq (code c) (code d) then rest else false

module _ {ℓ} {V : Type ℓ} where
  -- `m[k] = v`
  unfoldable pub insert_ordered : String → V → List (String × V) → List (String × V)
  insert_ordered k v [] = (k, v) ∷ []
  insert_ordered k v ((j, w) ∷ m) =
      let rest = insert_ordered k v m in
      if j == k then (k, v) ∷ m else if less k j then (k, v) ∷ (j, w) ∷ m else (j, w) ∷ rest

  pub lookup-insert_ordered :
      (k j : String) (v : V) (m : List (String × V))
      → lookup j (insert_ordered k v m) ≡ (if k == j then some v else lookup j m)
  unfolding lookup insert_ordered
  lookup-insert_ordered k j v [] = refl
  lookup-insert_ordered k j v ((i, w) ∷ m) = ground (
    arith,
    string_eq.beq_iff k j,
    string_eq.beq_iff i k,
    string_eq.beq_iff i j,
    lookup-insert_ordered k j v m,
  )

pub less_trans : (r s t : String) → less r s ≡ true → less s t ≡ true → less r t ≡ true
unfolding less
less_trans String.[] String.[] t p q = absurd (cc)
less_trans String.[] (String.◌∷◌ d s) String.[] p q = absurd (cc)
less_trans String.[] (String.◌∷◌ d s) (String.◌∷◌ e t) p q = refl
less_trans (String.◌∷◌ c r) String.[] t p q = absurd (cc)
less_trans (String.◌∷◌ c r) (String.◌∷◌ d s) String.[] p q = absurd (cc)
less_trans (String.◌∷◌ c r) (String.◌∷◌ d s) (String.◌∷◌ e t) p q = ground (arith, less_trans r s t)

codes_eq : (c d : Char) → ltb (code c) (code d) ≡ false → ltb (code d) (code c) ≡ false → c ≡ d
codes_eq c d p q = codes_equal c d (ground (arith, p, q))

less_antisym : (s t : String) → less s t ≡ false → less t s ≡ false → s ≡ t
unfolding less
less_antisym String.[] String.[] p q = refl
less_antisym String.[] (String.◌∷◌ d t) p q = absurd (cc)
less_antisym (String.◌∷◌ c s) String.[] p q = absurd (cc)
less_antisym (String.◌∷◌ c s) (String.◌∷◌ d t) p q =
    let first : c ≡ d = codes_eq c d (ground (arith, p)) (ground (arith, q)) in
    let rest : s ≡ t =
      less_antisym s t (ground (arith, p, ap code first)) (ground (arith, q, ap code first)) in
    λ i. String.◌∷◌ (first i) (rest i)

-- Two keys that are not equal are in one order or the other.
less_total : (s t : String) → less s t ≡ false → (s == t) ≡ false → less t s ≡ true
less_total s t p q = elim (Bool-cases (less t s)) [
  | inl e ↦ e
  | inr e ↦ absurd (ground (arith, q, string_eq.beq_iff s t, less_antisym s t p e))
]

string_ne : (k j : String) → (j == k) ≡ false → (k == j) ≡ false
string_ne k j e = ground (arith, string_eq.beq_iff k j, string_eq.beq_iff j k)

module _ {ℓ} {V : Type ℓ} where
  -- The keys ascend.
  abbrev pub IsOrdered : List (String × V) → Type 0
  IsOrdered [] = Unit
  IsOrdered ((k, v) ∷ m) = All (λ (e : String × V). less k e.0 ≡ true) m × IsOrdered m

  insert_ordered-All :
      (lo k : String) (v : V) (m : List (String × V))
      → less lo k ≡ true
      → All (λ (e : String × V). less lo e.0 ≡ true) m
      → All (λ (e : String × V). less lo e.0 ≡ true) (insert_ordered k v m)
  unfolding insert_ordered
  insert_ordered-All lo k v [] p a = (p, tt)
  insert_ordered-All lo k v ((j, w) ∷ m) p a =
      let Low : List (String × V) → Type 0 = All (λ (e : String × V). less lo e.0 ≡ true) in
      let rest = insert_ordered k v m in
      if_cases Low (j == k) ((k, v) ∷ m) _ (λ _. (p, a.1))
        (λ _.
          if_cases Low (less k j) ((k, v) ∷ (j, w) ∷ m) ((j, w) ∷ rest) (λ _. (p, a))
            (λ _. (a.0, insert_ordered-All lo k v m p a.1)))

  All-less :
      (k j : String) (m : List (String × V))
      → less k j ≡ true
      → All (λ (e : String × V). less j e.0 ≡ true) m
      → All (λ (e : String × V). less k e.0 ≡ true) m
  All-less k j [] p a = tt
  All-less k j ((i, w) ∷ m) p a = (less_trans k j i p a.0, All-less k j m p a.1)

  pub insert_ordered-IsOrdered :
      (k : String) (v : V) (m : List (String × V)) → IsOrdered m → IsOrdered (insert_ordered k v m)
  unfolding insert_ordered
  insert_ordered-IsOrdered k v [] o = (tt, tt)
  insert_ordered-IsOrdered k v ((j, w) ∷ m) o =
      let rest = insert_ordered k v m in
      if_cases IsOrdered (j == k) ((k, v) ∷ m) _
        (λ e.
          let same : j ≡ k = (string_eq.beq_iff j k).0 e in
          subst (λ (x : String). IsOrdered ((x, v) ∷ m)) same o)
        (λ e.
          if_cases IsOrdered (less k j) ((k, v) ∷ (j, w) ∷ m) ((j, w) ∷ rest)
            (λ f. ((f, All-less k j m f o.0), o))
            (λ f. (
              insert_ordered-All j k v m (less_total k j f (string_ne k j e)) o.0,
              insert_ordered-IsOrdered k v m o.1,
            )))
