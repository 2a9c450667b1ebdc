-- ===== src/Util/Lru/Invariant.antt =====
-- The list and the index of the cache, and what TryMark does without its iterators.
use mathlib.Core.Option
use flz_chat.Common.{
  ℕ, suc, ◌≤◌, ◌≡◌, refl, inl, inr, Bool, true, false, ◌&&◌, List, [], ◌∷◌, Option, none, some,
  String, ℤ, ◌+ℤ◌, ltb_ℤ, ltb, leb, length, lookup, erase, ◌==◌, nat_eq, string_eq, beq_refl,
  if◌then◌else◌, lookup-erase, lookup-insert, Bool-cases, Option-cases, arith,
}
use flz_chat.Util.Lru.{
  Node, LruIdempotencyCache, new, sweep_from, sweep, trim_from, push_front, mark, try_found,
  try_mark,
}
use flz_chat.Util.Lru.Keys.{
  find_key, remove_key, DistinctKeys, Ascending, Ascending-mono, Ascending-push,
  Ascending-remove_key, deref-find_key, find_key-remove_key, remove_key-DistinctKeys, find_key-push,
  push-DistinctKeys,
}

abbrev pub id_of : Option Node → Option ℕ
id_of = Option.map (λ n. n.id)

pub record Synced (ns : List Node) (index : List (String × ℕ)) (next : ℕ) : Type 0 where
  pub linked : (k : String) → lookup k index ≡ id_of (find_key k ns)
  pub distinct : DistinctKeys ns
  pub ascending : Ascending 0 ns next

-- The invariant of the class: list and index in step, and no more nodes than the capacity.
pub record IsValid (c : LruIdempotencyCache) : Type 0 where
  pub synced : Synced c.lru c.index c.next_id
  pub bounded : length c.lru ≤ c.capacity

-- The cache of the constructor.
pub new-IsValid : (capacity : ℕ) (ttl_ms : ℤ) → IsValid (new capacity ttl_ms)
unfolding new find_key lookup
new-IsValid capacity ttl_ms = record {
  synced = record { linked = λ k. refl; distinct = tt; ascending = omega arith };
  bounded = omega arith;
}

drop-Synced :
    (n : Node) (ns : List Node) (ix : List (String × ℕ)) (next : ℕ)
    → Synced (n ∷ ns) ix next
    → Synced ns (erase n.key ix) next
unfolding find_key
drop-Synced n ns ix next s = record {
  linked = λ k. ground (arith, lookup-erase n.key k ix, string_eq.beq_iff n.key k, s.linked k);
  distinct = s.distinct.1;
  ascending = Ascending-mono 0 (suc n.id) next ns (omega arith) s.ascending.1;
}

sweep_from-Synced :
    (cap : ℕ) (now : ℤ) (ns : List Node) (ix : List (String × ℕ)) (next : ℕ)
    → Synced ns ix next
    → Synced (sweep_from cap now ns ix).0 (sweep_from cap now ns ix).1 next
      × (length (sweep_from cap now ns ix).0 ≤ cap)
unfolding sweep_from
sweep_from-Synced cap now [] ix next s = (s, omega arith)
sweep_from-Synced cap now (n ∷ ns) ix next s =
    elim (Bool-cases (ltb_ℤ now n.expire_at_ms && leb (length (n ∷ ns)) cap)) [
      | inl e ↦ rw e (s, ground arith)
      | inr e ↦
          rw e (sweep_from-Synced cap now ns (erase n.key ix) next (drop-Synced n ns ix next s))
    ]

trim_from-Synced :
    (cap : ℕ) (ns : List Node) (ix : List (String × ℕ)) (next : ℕ)
    → Synced ns ix next
    → Synced (trim_from cap ns ix).0 (trim_from cap ns ix).1 next
      × (length (trim_from cap ns ix).0 ≤ cap)
unfolding trim_from
trim_from-Synced cap [] ix next s = (s, omega arith)
trim_from-Synced cap (n ∷ ns) ix next s = elim (Bool-cases (ltb cap (length (n ∷ ns)))) [
  | inl e ↦ rw e (trim_from-Synced cap ns (erase n.key ix) next (drop-Synced n ns ix next s))
  | inr e ↦ rw e (s, ground arith)
]

push_front-Synced :
    (c : LruIdempotencyCache) (key : String) (now : ℤ)
    → find_key key c.lru ≡ none
    → Synced c.lru c.index c.next_id
    → let d = push_front c key now in Synced d.lru d.index d.next_id
unfolding push_front
push_front-Synced c key now h s = record {
  linked = λ k. ground (
    arith,
    lookup-insert key k c.next_id c.index,
    find_key-push k (record { id = c.next_id; key = key; expire_at_ms = now +ℤ c.ttl_ms }) c.lru,
    s.linked k,
  );
  distinct = push-DistinctKeys _ c.lru h s.distinct;
  ascending = Ascending-push 0 c.next_id c.lru key _ s.ascending;
}

pub sweep-IsValid : (c : LruIdempotencyCache) (now : ℤ) → IsValid c → IsValid (sweep c now)
unfolding sweep
sweep-IsValid c now v =
    let (s, b) = sweep_from-Synced c.capacity now c.lru c.index c.next_id v.synced in
    record { synced = s; bounded = b }

pub mark-IsValid :
    (c : LruIdempotencyCache) (key : String) (now : ℤ)
    → find_key key c.lru ≡ none
    → Synced c.lru c.index c.next_id
    → IsValid (mark c key now)
unfolding mark push_front
mark-IsValid c key now h s =
    let p = push_front c key now in
    let (t, b) =
      trim_from-Synced c.capacity p.lru p.index p.next_id (push_front-Synced c key now h s) in
    record { synced = t; bounded = b }

-- What `TryMark` leaves when it drops the expired node of the key before it pushes a new one.
abbrev pub without : LruIdempotencyCache → String → LruIdempotencyCache
without c key = record c { lru = remove_key key c.lru; index = erase key c.index }

without-Synced :
    (c : LruIdempotencyCache) (key : String)
    → Synced c.lru c.index c.next_id
    → Synced (without c key).lru (without c key).index c.next_id
without-Synced c key s = record {
  linked = λ k.
      ground
        (arith, lookup-erase key k c.index, find_key-remove_key key k c.lru s.distinct, s.linked k);
  distinct = remove_key-DistinctKeys key c.lru s.distinct;
  ascending = Ascending-remove_key 0 c.next_id key c.lru s.ascending;
}

find_key-without :
    (c : LruIdempotencyCache) (key : String)
    → Synced c.lru c.index c.next_id
    → find_key key (without c key).lru ≡ none
find_key-without c key s =
    ground (arith, find_key-remove_key key key c.lru s.distinct, beq_refl key)

-- `TryMark` by keys alone, with the iterators gone.
unfoldable pub try_key : LruIdempotencyCache → String → ℤ → Bool × LruIdempotencyCache
unfolding mark
try_key c key now = elim (find_key key c.lru) [
  | none ↦ (true, mark c key now)
  | some n ↦ if ltb_ℤ now n.expire_at_ms then (false, c) else (true, mark (without c key) key now)
]

try_found-try_key :
    (c : LruIdempotencyCache) (key : String) (now : ℤ)
    → IsValid c
    → try_found c key now (lookup key c.index) ≡ some (try_key c key now)
unfolding try_found try_key
try_found-try_key c key now v = elim (Option-cases (find_key key c.lru)) [
  | inl e ↦ ground (arith, v.synced.linked key)
  | inr (n, e) ↦
      let (d, r) = deref-find_key 0 c.next_id key c.lru n v.synced.ascending e in
      ground (arith, v.synced.linked key)
]

try_key-IsValid :
    (c : LruIdempotencyCache) (key : String) (now : ℤ) → IsValid c → IsValid (try_key c key now).1
unfolding try_key
try_key-IsValid c key now v = elim (Option-cases (find_key key c.lru)) [
  | inl e ↦ rw (e, try_key) (mark-IsValid c key now e v.synced)
  | inr (n, e) ↦
      rw (e, try_key)
        (elim (Bool-cases (ltb_ℤ now n.expire_at_ms)) [
          | inl q ↦ rw q v
          | inr q ↦ rw q (
              mark-IsValid (without c key) key now (find_key-without c key v.synced)
                (without-Synced c key v.synced))
        ])
]

-- The whole call by keys: the empty key is refused, any other goes to the swept cache.
unfoldable pub mark_spec : LruIdempotencyCache → String → ℤ → Bool × LruIdempotencyCache
unfolding sweep try_key
mark_spec c key now = if key == "" then (false, c) else try_key (sweep c now) key now

-- On a valid cache `TryMark` never uses the iterator of an erased node, and does what the search by
-- keys does.
pub try_mark-mark_spec :
    (c : LruIdempotencyCache) (key : String) (now : ℤ)
    → IsValid c
    → try_mark c key now ≡ some (mark_spec c key now)
unfolding try_mark mark_spec
try_mark-mark_spec c key now v =
    ground (arith, try_found-try_key (sweep c now) key now (sweep-IsValid c now v))

pub mark_spec-IsValid :
    (c : LruIdempotencyCache) (key : String) (now : ℤ) → IsValid c → IsValid (mark_spec c key now).1
unfolding mark_spec
mark_spec-IsValid c key now v = elim (Bool-cases (key == "")) [
  | inl e ↦ rw e v
  | inr e ↦ rw e (try_key-IsValid (sweep c now) key now (sweep-IsValid c now v))
]
