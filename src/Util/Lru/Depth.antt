-- ===== src/Util/Lru/Depth.antt =====
-- How deep in the list a key lies, before and after a call.
use flz_chat.Common.{
  ℕ, ◌+◌, ◌≤◌, ◌≡◌, refl, inl, inr, true, false, List, [], ◌∷◌, ◌++◌, none, some, String, ℤ, ltb_ℤ,
  length, length-append, ◌==◌, nat_eq, string_eq, if◌then◌else◌, Bool-cases, arith,
}
use flz_chat.Util.Lru.{Node, LruIdempotencyCache}
use flz_chat.Util.Lru.Keys.{find_key}
use flz_chat.Util.Lru.Window.{live, newest, fresh_node, holds, window}

-- The number of nodes from the one that holds the key to the front.
pub depth : String → List Node → ℕ
depth key [] = 0
depth key (n ∷ ns) = if n.key == key then length (n ∷ ns) else depth key ns

length-live-le : (now : ℤ) (ns : List Node) → length (live now ns) ≤ length ns
unfolding live
length-live-le now [] = omega arith
length-live-le now (n ∷ ns) = ground (arith, length-live-le now ns)

pub live-find_key :
    (key : String) (now : ℤ) (ns : List Node) (n : Node)
    → ltb_ℤ now n.expire_at_ms ≡ true
    → find_key key ns ≡ some n
    → (find_key key (live now ns) ≡ some n) × (depth key (live now ns) ≤ depth key ns)
unfolding live find_key depth
live-find_key key now [] n h e = absurd (cc)
live-find_key key now (m ∷ ns) n h e =
    ground (arith, live-find_key key now ns n, length-live-le now ns)

pub depth-le-length : (key : String) (ns : List Node) → depth key ns ≤ length ns
unfolding depth
depth-le-length key [] = omega arith
depth-le-length key (n ∷ ns) = ground (arith, depth-le-length key ns)

pub newest-find_key :
    (key : String) (cap : ℕ) (ns : List Node) (n : Node)
    → depth key ns ≤ cap
    → find_key key ns ≡ some n
    → (find_key key (newest cap ns) ≡ some n) × (depth key (newest cap ns) ≡ depth key ns)
unfolding newest find_key depth
newest-find_key key cap [] n h e = absurd (cc)
newest-find_key key cap (m ∷ ns) n h e = ground (arith, newest-find_key key cap ns n)

pub push-find_key :
    (key : String) (m n : Node) (ns : List Node)
    → find_key key ns ≡ some n
    → (find_key key (ns ++ m ∷ []) ≡ some n) × (depth key (ns ++ m ∷ []) ≡ depth key ns + 1)
unfolding find_key depth
push-find_key key m n [] e = absurd (cc)
push-find_key key m n (i ∷ ns) e =
    ground (arith, push-find_key key m n ns, length-append ns (m ∷ []))

push_absent :
    (key : String) (m : Node) (ns : List Node)
    → m.key ≡ key
    → find_key key ns ≡ none
    → (find_key key (ns ++ m ∷ []) ≡ some m) × (depth key (ns ++ m ∷ []) ≡ 1)
unfolding find_key depth
push_absent key m [] h e = ground (arith, string_eq.beq_iff m.key key)
push_absent key m (n ∷ ns) h e = ground (arith, push_absent key m ns h)

-- A window keeps an unexpired node that is not among the oldest of a full cache.
pub window-find_key :
    (c : LruIdempotencyCache) (k key : String) (now : ℤ) (n : Node)
    → ltb_ℤ now n.expire_at_ms ≡ true
    → find_key k c.lru ≡ some n
    → depth k c.lru + 1 ≤ c.capacity
    → (find_key k (window c key now) ≡ some n) × (depth k (window c key now) ≤ depth k c.lru + 1)
unfolding window
window-find_key c k key now n h e d =
    let (f, g) = live-find_key k now c.lru n h e in
    let (f', g') = push-find_key k (fresh_node c key now) n (live now c.lru) f in
    elim (Bool-cases (holds key (live now c.lru))) [
      | inl q ↦ rw q (f, omega arith)
      | inr q ↦ rw q (
          let (a, b) =
            newest-find_key k c.capacity (live now c.lru ++ fresh_node c key now ∷ []) n
              (omega arith) f' in
          (a, omega arith))
    ]

-- The window of an accepted call holds the new node last.
pub window_accepted :
    (c : LruIdempotencyCache) (key : String) (now : ℤ)
    → holds key (live now c.lru) ≡ false
    → 1 ≤ c.capacity
    → (find_key key (window c key now) ≡ some (fresh_node c key now))
      × (depth key (window c key now) ≡ 1)
unfolding window holds
window_accepted c key now h p =
    let absent : find_key key (live now c.lru) ≡ none = ground arith in
    let (f, d) = push_absent key (fresh_node c key now) (live now c.lru) refl absent in
    let (a, b) =
      newest-find_key key c.capacity (live now c.lru ++ fresh_node c key now ∷ [])
        (fresh_node c key now) (omega arith) f in
    rw h (a, omega arith)
