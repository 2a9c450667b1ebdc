-- ===== src/Util/Lru/Window.antt =====
-- The abstract view of the cache under a clock that never runs backwards: a window of ids, from the
-- oldest to the newest.
use flz_chat.Common.{
  ℕ, ◌≤◌, ◌≡◌, refl, ◌≢◌, inl, inr, Bool, true, false, not, List, [], ◌∷◌, ◌++◌, Option, none, some,
  String, ℤ, pos, ◌+ℤ◌, ltb_ℤ, ◌≤ℤ◌, ltb, length, erase, nat_eq, string_eq, beq_ne, if◌then◌else◌,
  All, All-append, Bool-cases, Option-cases, arith,
}
use flz_chat.Util.Lru.{Node, LruIdempotencyCache, sweep_from, sweep, trim_from, push_front, mark}
use flz_chat.Util.Lru.Keys.{find_key}
use flz_chat.Util.Lru.Invariant.{IsValid, try_key, mark_spec}

-- The unexpired nodes, and the newest `cap` nodes.
unfoldable pub live : ℤ → List Node → List Node
live now [] = []
live now (n ∷ ns) = if ltb_ℤ now n.expire_at_ms then n ∷ live now ns else live now ns

unfoldable pub newest : ℕ → List Node → List Node
newest cap [] = []
newest cap (n ∷ ns) = if ltb cap (length (n ∷ ns)) then newest cap ns else n ∷ ns

abbrev pub Until : ℤ → Node → Type 0
Until t n = n.expire_at_ms ≤ℤ t

abbrev pub From : ℤ → Node → Type 0
From t n = t ≤ℤ n.expire_at_ms

abbrev pub Sorted : List Node → Type 0
Sorted [] = Unit
Sorted (n ∷ ns) = All (From n.expire_at_ms) ns × Sorted ns

-- A valid cache that was last used at time `t`.
pub record IsTimely (c : LruIdempotencyCache) (t : ℤ) : Type 0 where
  pub valid : IsValid c
  pub sorted : Sorted c.lru
  pub recent : All (Until (t +ℤ c.ttl_ms)) c.lru
  pub ttl_nonneg : pos 0 ≤ℤ c.ttl_ms

live_unchanged :
    (now t : ℤ) (ns : List Node) → ltb_ℤ now t ≡ true → All (From t) ns → live now ns ≡ ns
unfolding live
live_unchanged now t [] h a = refl
live_unchanged now t (n ∷ ns) h a = ground (arith, live_unchanged now t ns h a.1)

sweep_from-live :
    (cap : ℕ) (now : ℤ) (ns : List Node) (ix : List (String × ℕ))
    → Sorted ns
    → length ns ≤ cap
    → (sweep_from cap now ns ix).0 ≡ live now ns
unfolding sweep_from live
sweep_from-live cap now [] ix s h = refl
sweep_from-live cap now (n ∷ ns) ix s h =
    ground
      (arith, live_unchanged now n.expire_at_ms ns, sweep_from-live cap now ns (erase n.key ix) s.1)

trim_from-newest :
    (cap : ℕ) (ns : List Node) (ix : List (String × ℕ)) → (trim_from cap ns ix).0 ≡ newest cap ns
unfolding trim_from newest
trim_from-newest cap [] ix = refl
trim_from-newest cap (n ∷ ns) ix = ground (arith, trim_from-newest cap ns (erase n.key ix))

pub live-All {ℓ} : (P : Node → Type ℓ) (now : ℤ) (ns : List Node) → All P ns → All P (live now ns)
unfolding live
live-All P now [] a = tt
live-All P now (n ∷ ns) a = elim (Bool-cases (ltb_ℤ now n.expire_at_ms)) [
  | inl e ↦ rw e (a.0, live-All P now ns a.1)
  | inr e ↦ rw e (live-All P now ns a.1)
]

pub live-Sorted : (now : ℤ) (ns : List Node) → Sorted ns → Sorted (live now ns)
unfolding live
live-Sorted now [] s = tt
live-Sorted now (n ∷ ns) s = elim (Bool-cases (ltb_ℤ now n.expire_at_ms)) [
  | inl e ↦ rw e (live-All (From n.expire_at_ms) now ns s.0, live-Sorted now ns s.1)
  | inr e ↦ rw e (live-Sorted now ns s.1)
]

pub newest-All {ℓ} :
    (P : Node → Type ℓ) (cap : ℕ) (ns : List Node) → All P ns → All P (newest cap ns)
unfolding newest
newest-All P cap [] a = tt
newest-All P cap (n ∷ ns) a = elim (Bool-cases (ltb cap (length (n ∷ ns)))) [
  | inl e ↦ rw e (newest-All P cap ns a.1)
  | inr e ↦ rw e a
]

pub newest-Sorted : (cap : ℕ) (ns : List Node) → Sorted ns → Sorted (newest cap ns)
unfolding newest
newest-Sorted cap [] s = tt
newest-Sorted cap (n ∷ ns) s = elim (Bool-cases (ltb cap (length (n ∷ ns)))) [
  | inl e ↦ rw e (newest-Sorted cap ns s.1)
  | inr e ↦ rw e s
]

pub push-Sorted :
    (m : Node) (ns : List Node) → Sorted ns → All (Until m.expire_at_ms) ns → Sorted (ns ++ m ∷ [])
push-Sorted m [] s a = (tt, tt)
push-Sorted m (n ∷ ns) s a =
    (All-append (From n.expire_at_ms) ns (m ∷ []) s.0 (a.0, tt), push-Sorted m ns s.1 a.1)

-- What is found among the unexpired nodes has not expired.
find_key-live :
    (k : String) (now : ℤ) (ns : List Node) (n : Node)
    → find_key k (live now ns) ≡ some n
    → ltb_ℤ now n.expire_at_ms ≡ true
unfolding find_key live
find_key-live k now [] n h = absurd (cc)
find_key-live k now (m ∷ ns) n h = ground (arith, find_key-live k now ns n)

-- The node that a call at time `now` adds.
abbrev pub fresh_node : LruIdempotencyCache → String → ℤ → Node
fresh_node c key now = record { id = c.next_id; key = key; expire_at_ms = now +ℤ c.ttl_ms }

abbrev pub is_found : Option Node → Bool
is_found none = false
is_found (some n) = true

-- Whether an unexpired node holds the key.
unfoldable pub holds : String → List Node → Bool
unfolding find_key
holds key ns = is_found (find_key key ns)

-- The list after a call.
unfoldable pub window : LruIdempotencyCache → String → ℤ → List Node
unfolding live newest holds
window c key now =
    if holds key (live now c.lru)
    then live now c.lru
    else newest c.capacity (live now c.lru ++ fresh_node c key now ∷ [])

sweep-live :
    (c : LruIdempotencyCache) (t now : ℤ) → IsTimely c t → (sweep c now).lru ≡ live now c.lru
unfolding sweep
sweep-live c t now v = sweep_from-live c.capacity now c.lru c.index v.sorted v.valid.bounded

mark-newest :
    (c : LruIdempotencyCache) (key : String) (now : ℤ)
    → (mark c key now).lru ≡ newest c.capacity (c.lru ++ fresh_node c key now ∷ [])
unfolding mark push_front
mark-newest c key now =
    trim_from-newest c.capacity (push_front c key now).lru (push_front c key now).index

-- `TryMark` by the window of the unexpired nodes.
pub mark_spec-window :
    (c : LruIdempotencyCache) (key : String) (t now : ℤ)
    → key ≢ ""
    → IsTimely c t
    → ((mark_spec c key now).0 ≡ not (holds key (live now c.lru)))
      × ((mark_spec c key now).1.lru ≡ window c key now)
unfolding mark_spec try_key window
mark_spec-window c key t now h v = elim (Option-cases (find_key key (live now c.lru))) [
  | inl e ↦ ground (arith, beq_ne key "" h, sweep-live c t now v, mark-newest (sweep c now) key now)
  | inr (n, e) ↦
      ground (arith, beq_ne key "" h, sweep-live c t now v, find_key-live key now c.lru n e)
]
