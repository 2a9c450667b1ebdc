-- ===== src/Tests/Lru.antt =====
-- A cache of message ids (chat/util/lru_idempotency) with room for two, and calls on it.
use flz_chat.Common.{
  ◌≡◌, refl, ◌≢◌, true, false, not, List, [], ◌∷◌, some, String, ℤ, pos, ◌+ℤ◌, ◌<ℤ◌, lookup, insert,
  string_eq, arith,
}
use flz_chat.Util.Lru.{LruIdempotencyCache, try_mark}
use flz_chat.Util.Lru.Keys.{find_key}
use flz_chat.Util.Lru.Invariant.{id_of, mark_spec, try_mark-mark_spec}
use flz_chat.Util.Lru.Window.{IsTimely, live, holds, window}
use flz_chat.Util.Lru.Timely.{try_mark-window}
use flz_chat.Util.Lru.Duplicates.{run, run-try_mark_again}

-- "a" was marked at 0 in a cache that keeps ids for a second.
abbrev cache : LruIdempotencyCache
cache = record {
  capacity = 2;
  ttl_ms = pos 1000;
  lru = record { id = 0; key = "a"; expire_at_ms = pos 1000 } ∷ [];
  index = ("a", 0) ∷ [];
  next_id = 1;
}

cache-linked : (k : String) → lookup k cache.index ≡ id_of (find_key k cache.lru)
unfolding lookup find_key
cache-linked k = ground arith

cache-IsTimely : IsTimely cache (pos 0)
unfolding ◌+ℤ◌ find_key
cache-IsTimely = record {
  valid = record {
    synced = record {
      linked = cache-linked;
      distinct = (refl, tt);
      ascending = (omega arith, omega arith);
    };
    bounded = omega arith;
  };
  sorted = (tt, tt);
  recent = (omega arith, tt);
  ttl_nonneg = omega arith;
}

abbrev a : String
a = "a"

a_ne : a ≢ ""
a_ne h = ground (arith, (string_eq.beq_iff a "").1 h)

try_mark-mark_spec_example : try_mark cache a (pos 400) ≡ some (mark_spec cache a (pos 400))
try_mark-mark_spec_example = try_mark-mark_spec cache a (pos 400) cache-IsTimely.valid

-- "a" expires, and so is accepted again.
try_mark-window_example :
    (c' : LruIdempotencyCache) × (try_mark cache a (pos 1500)
      ≡ some (not (holds a (live (pos 1500) cache.lru)), c'))
    × (c'.lru ≡ window cache a (pos 1500))
    × IsTimely c' (pos 1500)
    × (c'.capacity ≡ 2)
    × (c'.ttl_ms ≡ pos 1000)
try_mark-window_example =
    try_mark-window cache a (pos 0) (pos 1500) a_ne (omega arith) cache-IsTimely

-- "b" is accepted at 500 and refused at 1499, whatever was called for one other id between.
abbrev b : String
b = "b"

b_ne : b ≢ ""
b_ne h = ground (arith, (string_eq.beq_iff b "").1 h)

abbrev with_b : LruIdempotencyCache
with_b = record cache {
  lru =
      record { id = 0; key = "a"; expire_at_ms = pos 1000 }
      ∷ record { id = 1; key = "b"; expire_at_ms = pos 1500 }
      ∷ [];
  index = ("a", 0) ∷ ("b", 1) ∷ [];
  next_id = 2;
}

b_accepted : try_mark cache b (pos 500) ≡ some (true, with_b)
unfolding try_mark lookup ◌+ℤ◌ insert
b_accepted = refl

abbrev calls : List (ℤ × String)
calls = (pos 1200, "d") ∷ []

b_live : pos 1499 <ℤ pos 500 +ℤ pos 1000
unfolding ◌+ℤ◌
b_live = omega arith

run-try_mark_again_example :
    (c₂ : LruIdempotencyCache) × (run calls with_b ≡ some c₂)
    × (c₃ : LruIdempotencyCache) × (try_mark c₂ b (pos 1499) ≡ some (false, c₃))
run-try_mark_again_example =
    run-try_mark_again cache b (pos 0) (pos 500) (pos 1499) calls with_b b_ne (omega arith)
      cache-IsTimely b_accepted (omega arith) (omega arith, (omega arith)) b_live
