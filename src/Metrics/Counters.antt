-- ===== src/Metrics/Counters.antt =====
-- The counters of chat/metrics: what they hold after any calls.
use mathlib.Core.Option
use flz_chat.Common.{
  ℕ, ◌+◌, ◌%◌, ◌≡◌, refl, ◌∙◌, Bool, true, false, String, List, [], ◌∷◌, lookup,
  lookup-insert_ordered, IsOrdered, insert_ordered-IsOrdered, ◌==◌, string_eq, Bool-cases, inl, inr,
  if◌then◌else◌, arith,
}
use flz_chat.Metrics.{Counters, u64_mod, increment}

-- The counters after calls with labels, the latest call first.
unfoldable pub counted : List String → Counters
counted [] = []
counted (label ∷ labels) = increment label (counted labels)

-- How often a label was counted.
unfoldable pub times : String → List String → ℕ
times k [] = 0
times k (label ∷ labels) = if label == k then times k labels + 1 else times k labels

unfoldable pub value_of : String → Counters → ℕ
value_of k m = Option.get_or (lookup k m) 0

value_of-increment :
    (k label : String) (m : Counters)
    → value_of k (increment label m)
      ≡ (if label == k then (value_of k m + 1) % u64_mod else value_of k m)
unfolding value_of increment
value_of-increment k label m =
    let new = (Option.get_or (lookup label m) 0 + 1) % u64_mod in
    elim (Bool-cases (label == k)) [
      | inl e ↦
          let same : label ≡ k = (string_eq.beq_iff label k).0 e in
          rw (lookup-insert_ordered label k new m, e, same) refl
      | inr e ↦ rw (lookup-insert_ordered label k new m, e) refl
    ]

-- After any calls, the counter of each label is the number of calls with that label, modulo 2^64, and
-- the labels stand in their order, each once.
counted_exact :
    (k : String) (labels : List String)
    → (value_of k (counted labels) ≡ times k labels % u64_mod) × IsOrdered (counted labels)
unfolding counted times value_of lookup increment
counted_exact k [] = (refl, tt)
counted_exact k (label ∷ labels) =
    let (value, ordered) = counted_exact k labels in
    (
      value_of-increment k label (counted labels) ∙ step (label == k) value,
      insert_ordered-IsOrdered label _ (counted labels) ordered,
    )
  where
    step :
        (b : Bool)
        → value_of k (counted labels) ≡ times k labels % u64_mod
        → (if b then (value_of k (counted labels) + 1) % u64_mod else value_of k (counted labels))
          ≡ (if b then times k labels + 1 else times k labels) % u64_mod
    step true e = omega (arith, e)
    step false e = e
