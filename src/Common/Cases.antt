-- ===== src/Common/Cases.antt =====
-- What holds of each number below a bound, case by case.
use Prim.Native.Nat.{ℕ, zero, suc, ◌<◌}
use mathlib.Core.Path.{◌≡◌, subst, sym}
use mathlib.Core.Logic.{inl, inr}
use mathlib.Core.Bool.{Bool, true, ◌&&◌}
use native.Mathlib.Omega.{arith}
use native.Mathlib.Decide.{ℕ_discrete}
use flz_chat.Common.Tests.{Bool-cases}

abbrev pub Below {ℓ} : ℕ → (ℕ → Type ℓ) → Type ℓ
Below zero P = Unit
Below (suc n) P = P 0 × Below n (λ k. P (suc k))

pub below {ℓ} : (n : ℕ) (P : ℕ → Type ℓ) → Below n P → (k : ℕ) → k < n → P k
below zero P all k p = absurd (omega (arith, p))
below (suc n) P all zero p = all.0
below (suc n) P all (suc k) p = below n (λ k. P (suc k)) all.1 k (omega (arith, p))

-- A test of each number below a bound.
unfoldable pub all_below : ℕ → (ℕ → Bool) → Bool
all_below zero test = true
all_below (suc n) test = all_below n test && test n

pub all_below_lem :
    (n : ℕ) (test : ℕ → Bool) → all_below n test ≡ true → (k : ℕ) → k < n → test k ≡ true
unfolding all_below
all_below_lem zero test e k p = absurd (omega (arith, p))
all_below_lem (suc n) test e k p = elim (Bool-cases (test n)) [
  | inl q ↦ elim (ℕ_discrete k n) [
    | yes same ↦ subst (λ k. test k ≡ true) (sym same) q
    | no other ↦ all_below_lem n test (ground (arith, e)) k (omega (arith, p, other))
  ]
  | inr q ↦ absurd (ground (arith, e, q))
]
