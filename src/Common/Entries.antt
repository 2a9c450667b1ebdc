-- ===== src/Common/Entries.antt =====
-- What holds of every entry of a map, and the entries of a map as a multiset.
use mathlib.Core.Path.{◌≡◌, subst, ap}
use mathlib.Core.Logic.{inl, inr}
use mathlib.Core.Option.{none, some}
use mathlib.Core.List.{List, [], ◌∷◌, Perm}
use mathlib.Core.List.Perm
use native.Mathlib.Omega.{arith}
use flz_chat.Common.Tests.{Bool-cases}
use flz_chat.Common.Lists.{All, Among}
use flz_chat.Common.Maps.{Eq, ◌==◌, lookup, insert, erase, Distinct, erase_absent, beq_refl}

module _ {ℓ κ μ} {K : Type ℓ} {V : Type κ} ⦃e : Eq K⦄ (P : K × V → Type μ) where
  pub insert-All : (k : K) (v : V) (m : List (K × V)) → P (k, v) → All P m → All P (insert k v m)
  unfolding insert
  insert-All k v [] p a = (p, tt)
  insert-All k v ((j, w) ∷ m) p a = elim (Bool-cases (j == k)) [
    | inl q ↦ rw q (p, a.1)
    | inr q ↦ rw q (a.0, insert-All k v m p a.1)
  ]

  pub erase-All : (k : K) (m : List (K × V)) → All P m → All P (erase k m)
  unfolding erase
  erase-All k [] a = tt
  erase-All k ((j, w) ∷ m) a = elim (Bool-cases (j == k)) [
    | inl q ↦ rw q (erase-All k m a.1)
    | inr q ↦ rw q (a.0, erase-All k m a.1)
  ]

  pub lookup-All : (k : K) (v : V) (m : List (K × V)) → lookup k m ≡ some v → All P m → P (k, v)
  unfolding lookup
  lookup-All k v [] h a = absurd (cc)
  lookup-All k v ((j, w) ∷ m) h a = elim (Bool-cases (j == k)) [
    | inl q ↦
        let same : w ≡ v = ground arith in
        subst (λ (i : K). P (i, v)) ((e.beq_iff j k).0 q) (subst (λ (u : V). P (j, u)) same a.0)
    | inr q ↦ lookup-All k v m (ground arith) a.1
  ]

module _ {ℓ κ} {K : Type ℓ} {V : Type κ} ⦃e : Eq K⦄ where
  -- Taking the entry of a key out leaves the rest.
  pub erase-perm :
      (k : K) (v : V) (m : List (K × V))
      → Distinct m
      → lookup k m ≡ some v
      → Perm m ((k, v) ∷ erase k m)
  unfolding lookup erase
  erase-perm k v [] d h = absurd (cc)
  erase-perm k v ((j, w) ∷ m) d h = elim (Bool-cases (j == k)) [
    | inl q ↦
        let p : j ≡ k = (e.beq_iff j k).0 q in
        let same : w ≡ v = ground arith in
        let absent : lookup k m ≡ none = subst (λ (i : K). lookup i m ≡ none) p d.0 in
        rw (q, erase_absent k m absent, p, same) (Perm.refl _)
    | inr q ↦ rw q (
        Perm.trans (Perm.cons (j, w) (erase-perm k v m d.1 (ground arith)))
          (Perm.swap (k, v) (j, w) _))
  ]

  -- An entry of the map is what its key leads to.
  pub Among-lookup :
      (k : K) (v : V) (m : List (K × V)) → Distinct m → Among (k, v) m → lookup k m ≡ some v
  unfolding lookup
  Among-lookup k v [] d a = elim a [ ]
  Among-lookup k v ((j, w) ∷ m) d (inl p) = rw (ap (λ d. d.0) p, ap (λ d. d.1) p, beq_refl k)
  Among-lookup k v ((j, w) ∷ m) d (inr a) = elim (Bool-cases (j == k)) [
    | inl q ↦
        let found = Among-lookup k v m d.1 a in
        let p : j ≡ k = (e.beq_iff j k).0 q in
        let absent : lookup k m ≡ none = subst (λ (i : K). lookup i m ≡ none) p d.0 in absurd (cc)
    | inr q ↦ rw q (Among-lookup k v m d.1 a)
  ]
