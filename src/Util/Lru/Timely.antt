-- ===== src/Util/Lru/Timely.antt =====
-- One call of TryMark under a clock that never runs backwards.
use flz_chat.Common.{
  ◌≡◌, ◌≢◌, inl, inr, not, List, [], ◌∷◌, some, String, ℤ, ◌+ℤ◌, ◌≤ℤ◌, nat_eq, string_eq, All,
  All-append, All-mono, Bool-cases, arith, +ℤ_parts,
}
use flz_chat.Util.Lru.{Node, LruIdempotencyCache, sweep, trim, push_front, mark, try_mark}
use flz_chat.Util.Lru.Invariant.{try_key, mark_spec, try_mark-mark_spec, mark_spec-IsValid}
use flz_chat.Util.Lru.Window.{
  IsTimely, Until, Sorted, live, live-All, live-Sorted, newest-All, newest-Sorted, push-Sorted,
  fresh_node, holds, window, mark_spec-window,
}

pub Until-mono :
    (s t ttl : ℤ) (ns : List Node) → s ≤ℤ t → All (Until (s +ℤ ttl)) ns → All (Until (t +ℤ ttl)) ns
Until-mono s t ttl ns h =
    All-mono (Until (s +ℤ ttl)) (Until (t +ℤ ttl))
      (λ n p. omega (arith, +ℤ_parts s ttl, +ℤ_parts t ttl)) ns

pub settings_kept :
    (c : LruIdempotencyCache) (key : String) (now : ℤ)
    → ((mark_spec c key now).1.capacity ≡ c.capacity) × ((mark_spec c key now).1.ttl_ms ≡ c.ttl_ms)
unfolding mark_spec try_key mark trim push_front sweep
settings_kept c key now = ground arith

window-Sorted :
    (c : LruIdempotencyCache) (key : String) (t now : ℤ)
    → t ≤ℤ now
    → IsTimely c t
    → Sorted (window c key now) × All (Until (now +ℤ c.ttl_ms)) (window c key now)
unfolding window
window-Sorted c key t now h v = elim (Bool-cases (holds key (live now c.lru))) [
  | inl e ↦ rw e (sorted, recent)
  | inr e ↦ rw e (
    newest-Sorted c.capacity _ (push-Sorted (fresh_node c key now) _ sorted recent),
    newest-All (Until (now +ℤ c.ttl_ms)) c.capacity _ (
        All-append (Until (now +ℤ c.ttl_ms)) (live now c.lru) (fresh_node c key now ∷ []) recent
          (omega arith, tt)),
  )
]
  where
    sorted : Sorted (live now c.lru)
    sorted = live-Sorted now c.lru v.sorted

    recent : All (Until (now +ℤ c.ttl_ms)) (live now c.lru)
    recent =
        live-All (Until (now +ℤ c.ttl_ms)) now c.lru (Until-mono t now c.ttl_ms c.lru h v.recent)

pub mark_spec-IsTimely :
    (c : LruIdempotencyCache) (key : String) (t now : ℤ)
    → key ≢ ""
    → t ≤ℤ now
    → IsTimely c t
    → IsTimely (mark_spec c key now).1 now
mark_spec-IsTimely c key t now k h v =
    let (s, r) = window-Sorted c key t now h v in
    let w = (mark_spec-window c key t now k v).1 in
    let (_, ttl) = settings_kept c key now in
    record {
      valid = mark_spec-IsValid c key now v.valid;
      sorted = rw w s;
      recent = rw (w, ttl) r;
      ttl_nonneg = rw ttl v.ttl_nonneg;
    }

-- On a cache with a clock that does not run backwards, `TryMark` of a key that is not empty never
-- faults. It accepts the key exactly when no unexpired node holds it. A refusal leaves the unexpired
-- nodes; an acceptance adds one node at the end of these and keeps the newest `capacity`. The cache
-- keeps its invariant and its settings.
pub try_mark-window :
    (c : LruIdempotencyCache) (key : String) (t now : ℤ)
    → key ≢ ""
    → t ≤ℤ now
    → IsTimely c t
    → (c' : LruIdempotencyCache) × (try_mark c key now
        ≡ some (not (holds key (live now c.lru)), c'))
      × (c'.lru ≡ window c key now)
      × IsTimely c' now
      × (c'.capacity ≡ c.capacity)
      × (c'.ttl_ms ≡ c.ttl_ms)
try_mark-window c key t now k h v =
    let (a, w) = mark_spec-window c key t now k v in
    let (cap, ttl) = settings_kept c key now in
    (
      (mark_spec c key now).1,
      ground (arith, try_mark-mark_spec c key now v.valid),
      w,
      mark_spec-IsTimely c key t now k h v,
      cap,
      ttl,
    )
