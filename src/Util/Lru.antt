-- ===== src/Util/Lru.antt =====
-- chat/util/lru_idempotency: the bounded cache of message ids that have been seen.
--
-- `lru` is m_lru from its back to its front, so `push_front` appends and `--m_lru.end()` is the
-- head. An iterator into m_lru is the `id` of the node that it points to; `none` is a fault, the use
-- of an iterator whose node has been erased.
pub mod Keys
pub mod Invariant
pub mod Window
pub mod Timely
pub mod Depth
pub mod Duplicates
use flz_chat.Common.{
  ℕ, suc, ◌+◌, ◌≡◌, Bool, true, false, ◌&&◌, List, [], ◌∷◌, ◌++◌, Option, none, some, String, ℤ,
  ◌+ℤ◌, ltb_ℤ, ltb, leb, length, lookup, insert, erase, ◌==◌, nat_eq, string_eq, if◌then◌else◌,
}

pub record Node : Type 0 where
  pub id : ℕ
  pub key : String
  pub expire_at_ms : ℤ

pub record LruIdempotencyCache : Type 0 where
  pub capacity : ℕ
  pub ttl_ms : ℤ
  pub lru : List Node
  pub index : List (String × ℕ)
  pub next_id : ℕ

unfoldable pub new : ℕ → ℤ → LruIdempotencyCache
new capacity ttl_ms = record {
  capacity = capacity;
  ttl_ms = ttl_ms;
  lru = [];
  index = [];
  next_id = 0;
}

-- `it->second`, the node behind an iterator.
pub deref : ℕ → List Node → Option Node
deref i [] = none
deref i (n ∷ ns) = if n.id == i then some n else deref i ns

-- `m_lru.erase(it)`
pub erase_at : ℕ → List Node → List Node
erase_at i [] = []
erase_at i (n ∷ ns) = if n.id == i then ns else n ∷ erase_at i ns

-- The loop of `Sweep`, over the list and the index.
pub sweep_from : ℕ → ℤ → List Node → List (String × ℕ) → List Node × List (String × ℕ)
sweep_from capacity now_ms [] index = ([], index)
sweep_from capacity now_ms (n ∷ ns) index =
    if ltb_ℤ now_ms n.expire_at_ms && leb (length (n ∷ ns)) capacity
    then (n ∷ ns, index)
    else sweep_from capacity now_ms ns (erase n.key index)

pub sweep : LruIdempotencyCache → ℤ → LruIdempotencyCache
unfolding sweep_from
sweep c now_ms =
    let (ns, ix) = sweep_from c.capacity now_ms c.lru c.index in record c { lru = ns; index = ix }

-- The loop that ends `TryMark`: drop the back while the list is over the capacity.
pub trim_from : ℕ → List Node → List (String × ℕ) → List Node × List (String × ℕ)
trim_from capacity [] index = ([], index)
trim_from capacity (n ∷ ns) index =
    if ltb capacity (length (n ∷ ns))
    then trim_from capacity ns (erase n.key index)
    else (n ∷ ns, index)

pub trim : LruIdempotencyCache → LruIdempotencyCache
unfolding trim_from
trim c = let (ns, ix) = trim_from c.capacity c.lru c.index in record c { lru = ns; index = ix }

-- The node that `TryMark` builds, at the front of the list and in the index.
pub push_front : LruIdempotencyCache → String → ℤ → LruIdempotencyCache
push_front c key now_ms = record c {
  lru = c.lru ++ record { id = c.next_id; key = key; expire_at_ms = now_ms +ℤ c.ttl_ms } ∷ [];
  index = insert key c.next_id c.index;
  next_id = suc c.next_id;
}

pub mark : LruIdempotencyCache → String → ℤ → LruIdempotencyCache
unfolding push_front trim
mark c key now_ms = trim (push_front c key now_ms)

-- `TryMark` after the sweep, at what `m_index.find(key)` gave.
pub try_found : LruIdempotencyCache → String → ℤ → Option ℕ → Option (Bool × LruIdempotencyCache)
unfolding mark deref erase_at
try_found c key now_ms none = some (true, mark c key now_ms)
try_found c key now_ms (some it) = elim (deref it c.lru) [
  | none ↦ none
  | some n ↦
      if ltb_ℤ now_ms n.expire_at_ms
      then some (false, c)
      else some
          (true, mark (record c { lru = erase_at it c.lru; index = erase key c.index }) key now_ms)
]

unfoldable pub try_mark : LruIdempotencyCache → String → ℤ → Option (Bool × LruIdempotencyCache)
unfolding sweep try_found
try_mark c key now_ms =
    let swept = sweep c now_ms in
    if key == "" then some (false, c) else try_found swept key now_ms (lookup key swept.index)
