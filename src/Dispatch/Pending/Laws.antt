-- ===== src/Dispatch/Pending/Laws.antt =====
-- What the table of pending sends holds after a sweep and after a take.
use flz_chat.Common.{
  ◌≡◌, refl, inl, inr, [], ◌∷◌, Option, none, some, String, ℤ, pos, ◌-ℤ◌, ◌*ℤ◌, leb_ℤ, lookup,
  lookup-erase, ◌==◌, beq_refl, string_eq, Distinct, if◌then◌else◌, arith, Option-cases, if_cases,
}
use flz_chat.Dispatch.Pending.{PendingSend, PendingMap, take_pending, sweep_from, sweep_pending}

-- A pending send that a sweep at the deadline keeps.
abbrev pub unexpired : ℤ → Option PendingSend → Option PendingSend
unexpired deadline none = none
unexpired deadline (some p) = if leb_ℤ p.created_ms deadline then none else some p

lookup-sweep_from :
    (id : String) (deadline : ℤ) (m : PendingMap)
    → Distinct m
    → lookup id (sweep_from deadline m) ≡ unexpired deadline (lookup id m)
unfolding lookup sweep_from
lookup-sweep_from id deadline [] d = refl
lookup-sweep_from id deadline ((j, p) ∷ m) d = ground (
  arith,
  string_eq.beq_iff j id,
  lookup-sweep_from id deadline m d.1,
  lookup-sweep_from j deadline m d.1,
)

sweep_from-Distinct :
    (deadline : ℤ) (m : PendingMap) → Distinct m → Distinct (sweep_from deadline m)
unfolding sweep_from
sweep_from-Distinct deadline [] d = tt
sweep_from-Distinct deadline ((j, p) ∷ m) d =
    if_cases Distinct (leb_ℤ p.created_ms deadline) _ _ (λ _. sweep_from-Distinct deadline m d.1)
      (λ _. (absent, sweep_from-Distinct deadline m d.1))
  where
    absent : lookup j (sweep_from deadline m) ≡ none
    absent = rw (lookup-sweep_from j deadline m d.1, d.0) refl

-- After a sweep no id stands twice in the table.
pub sweep_pending-Distinct :
    (ttl_seconds now_ms : ℤ) (m : PendingMap)
    → Distinct m
    → Distinct (sweep_pending ttl_seconds now_ms m)
unfolding sweep_pending
sweep_pending-Distinct ttl_seconds now_ms m =
    sweep_from-Distinct (now_ms -ℤ ttl_seconds *ℤ pos 1000) m

-- A sweep drops the sends that are at least `ttl_seconds` old, and keeps every other.
pub lookup-sweep_pending :
    (id : String) (ttl_seconds now_ms : ℤ) (m : PendingMap)
    → Distinct m
    → lookup id (sweep_pending ttl_seconds now_ms m)
      ≡ unexpired (now_ms -ℤ ttl_seconds *ℤ pos 1000) (lookup id m)
unfolding sweep_pending
lookup-sweep_pending id ttl_seconds now_ms m =
    lookup-sweep_from id (now_ms -ℤ ttl_seconds *ℤ pos 1000) m

-- A pending send is taken once: a second take of the id finds nothing, and every other id is as it
-- was.
take_pending_once :
    (id j : String) (m : PendingMap)
    → let (taken, rest) = take_pending id m in
      (taken ≡ lookup id m)
      × ((take_pending id rest).0 ≡ none)
      × (lookup j rest ≡ (if id == j then none else lookup j m))
unfolding take_pending
take_pending_once id j m = elim (Option-cases (lookup id m)) [
  | inl e ↦ ground (arith, string_eq.beq_iff id j)
  | inr (p, e) ↦ ground (arith, lookup-erase id j m, lookup-erase id id m, beq_refl id)
]
