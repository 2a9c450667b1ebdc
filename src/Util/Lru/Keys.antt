-- ===== src/Util/Lru/Keys.antt =====
-- The nodes of the cache by their keys and their ids.
use flz_chat.Common.{
  ℕ, suc, ◌≤◌, ◌≡◌, refl, List, [], ◌∷◌, ◌++◌, Option, none, some, String, ℤ, ◌==◌, nat_eq,
  string_eq, if◌then◌else◌, arith,
}
use flz_chat.Util.Lru.{Node, deref, erase_at}

-- The node that holds a key, and the list without it.
unfoldable pub find_key : String → List Node → Option Node
find_key k [] = none
find_key k (n ∷ ns) = if n.key == k then some n else find_key k ns

unfoldable pub remove_key : String → List Node → List Node
remove_key k [] = []
remove_key k (n ∷ ns) = if n.key == k then ns else n ∷ remove_key k ns

abbrev pub DistinctKeys : List Node → Type 0
DistinctKeys [] = Unit
DistinctKeys (n ∷ ns) = (find_key n.key ns ≡ none) × DistinctKeys ns

-- Ids rise from `lo` and stay below `hi`.
abbrev pub Ascending : ℕ → List Node → ℕ → Type 0
Ascending lo [] hi = lo ≤ hi
Ascending lo (n ∷ ns) hi = (lo ≤ n.id) × Ascending (suc n.id) ns hi

pub Ascending-mono :
    (lo lo' hi : ℕ) (ns : List Node) → lo ≤ lo' → Ascending lo' ns hi → Ascending lo ns hi
Ascending-mono lo lo' hi [] h a = omega arith
Ascending-mono lo lo' hi (n ∷ ns) h a = (omega arith, a.1)

pub Ascending-push :
    (lo hi : ℕ) (ns : List Node) (k : String) (t : ℤ)
    → Ascending lo ns hi
    → Ascending lo (ns ++ record { id = hi; key = k; expire_at_ms = t } ∷ []) (suc hi)
Ascending-push lo hi [] k t a = (a, omega arith)
Ascending-push lo hi (n ∷ ns) k t a = (a.0, Ascending-push (suc n.id) hi ns k t a.1)

pub Ascending-remove_key :
    (lo hi : ℕ) (k : String) (ns : List Node)
    → Ascending lo ns hi
    → Ascending lo (remove_key k ns) hi
unfolding remove_key
Ascending-remove_key lo hi k [] a = a
Ascending-remove_key lo hi k (n ∷ ns) a =
    ground (arith, Ascending-mono lo (suc n.id) hi ns, Ascending-remove_key (suc n.id) hi k ns a.1)

-- The node of a key has an id of at least `lo`.
find_key-le :
    (lo hi : ℕ) (k : String) (ns : List Node) (n : Node)
    → Ascending lo ns hi
    → find_key k ns ≡ some n
    → lo ≤ n.id
unfolding find_key
find_key-le lo hi k [] n a e = absurd (cc)
find_key-le lo hi k (m ∷ ns) n a e = ground (arith, find_key-le (suc m.id) hi k ns n a.1)

-- An iterator from the index is valid, and points to the node of its key.
pub deref-find_key :
    (lo hi : ℕ) (k : String) (ns : List Node) (n : Node)
    → Ascending lo ns hi
    → find_key k ns ≡ some n
    → (deref n.id ns ≡ some n) × (erase_at n.id ns ≡ remove_key k ns)
unfolding find_key remove_key deref erase_at
deref-find_key lo hi k [] n a e = absurd (cc)
deref-find_key lo hi k (m ∷ ns) n a e =
    ground (arith, find_key-le (suc m.id) hi k ns n a.1, deref-find_key (suc m.id) hi k ns n a.1)

pub find_key-remove_key :
    (k j : String) (ns : List Node)
    → DistinctKeys ns
    → find_key j (remove_key k ns) ≡ (if k == j then none else find_key j ns)
unfolding find_key remove_key
find_key-remove_key k j [] d = ground arith
find_key-remove_key k j (n ∷ ns) d = ground (
  arith,
  string_eq.beq_iff k j,
  string_eq.beq_iff n.key k,
  string_eq.beq_iff n.key j,
  find_key-remove_key k j ns d.1,
)

pub remove_key-DistinctKeys :
    (k : String) (ns : List Node) → DistinctKeys ns → DistinctKeys (remove_key k ns)
unfolding remove_key
remove_key-DistinctKeys k [] d = tt
remove_key-DistinctKeys k (n ∷ ns) d =
    ground (arith, remove_key-DistinctKeys k ns d.1, find_key-remove_key k n.key ns d.1)

pub find_key-push :
    (j : String) (m : Node) (ns : List Node)
    → find_key m.key ns ≡ none
    → find_key j (ns ++ m ∷ []) ≡ (if m.key == j then some m else find_key j ns)
unfolding find_key
find_key-push j m [] h = refl
find_key-push j m (n ∷ ns) h = ground (
  arith,
  string_eq.beq_iff m.key j,
  string_eq.beq_iff n.key m.key,
  string_eq.beq_iff n.key j,
  find_key-push j m ns,
)

pub push-DistinctKeys :
    (m : Node) (ns : List Node)
    → find_key m.key ns ≡ none
    → DistinctKeys ns
    → DistinctKeys (ns ++ m ∷ [])
unfolding find_key
push-DistinctKeys m [] h d = (refl, tt)
push-DistinctKeys m (n ∷ ns) h d = ground (
  arith,
  string_eq.beq_iff m.key n.key,
  string_eq.beq_iff n.key m.key,
  push-DistinctKeys m ns,
  find_key-push n.key m ns,
)
