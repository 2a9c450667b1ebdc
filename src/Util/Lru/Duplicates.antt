-- ===== src/Util/Lru/Duplicates.antt =====
-- Ids that come again, after other calls of TryMark.
use flz_chat.Common.{
  ℕ, suc, ◌+◌, ◌≤◌, ◌<◌, ◌≡◌, refl, ◌≢◌, inl, inr, true, false, not, List, [], ◌∷◌, Option, none,
  some, String, ℤ, ◌+ℤ◌, ltb_ℤ, ◌≤ℤ◌, ◌<ℤ◌, length, ◌==◌, nat_eq, string_eq, Bool-cases, arith, ap,
  subst,
}
use flz_chat.Util.Lru.{Node, LruIdempotencyCache, try_mark}
use flz_chat.Util.Lru.Keys.{find_key}
use flz_chat.Util.Lru.Invariant.{mark_spec, try_mark-mark_spec}
use flz_chat.Util.Lru.Window.{IsTimely, live, fresh_node, holds, window, mark_spec-window}
use flz_chat.Util.Lru.Timely.{Until-mono, settings_kept, mark_spec-IsTimely, try_mark-window}
use flz_chat.Util.Lru.Depth.{depth, live-find_key, window-find_key, window_accepted}

-- Calls in order, their results unread.
unfoldable pub run : List (ℤ × String) → LruIdempotencyCache → Option LruIdempotencyCache
run [] c = some c
run ((now, key) ∷ calls) c = elim (try_mark c key now) [ none ↦ none | some (_, c') ↦ run calls c' ]

-- The times of the calls do not fall, from `lo` up to `hi`.
abbrev pub Rising : ℤ → List (ℤ × String) → ℤ → Type 0
Rising lo [] hi = lo ≤ℤ hi
Rising lo ((now, key) ∷ calls) hi = (lo ≤ℤ now) × Rising now calls hi

Rising-le : (lo hi : ℤ) (calls : List (ℤ × String)) → Rising lo calls hi → lo ≤ℤ hi
Rising-le lo hi [] r = r
Rising-le lo hi ((now, key) ∷ calls) r = omega (arith, Rising-le now hi calls r.1)

pub Rising-mono :
    (lo now hi : ℤ) (calls : List (ℤ × String))
    → lo ≤ℤ now
    → Rising now calls hi
    → Rising lo calls hi
Rising-mono lo now hi [] h r = omega (arith, h, r)
Rising-mono lo now hi ((t, key) ∷ calls) h r = (omega (arith, h, r.0), r.1)

-- A cache at time `t` that holds the node `n` of a key, with room for `room` more nodes before it.
record Holds (c : LruIdempotencyCache) (key : String) (n : Node) (t : ℤ) (room : ℕ) : Type 0 where
  timely : IsTimely c t
  found : find_key key c.lru ≡ some n
  roomy : depth key c.lru + room ≤ c.capacity

mark_spec_empty :
    (c : LruIdempotencyCache) (key : String) (now : ℤ)
    → (key == "") ≡ true
    → mark_spec c key now ≡ (false, c)
unfolding mark_spec
mark_spec_empty c key now q = rw q

later-IsTimely : (c : LruIdempotencyCache) (t now : ℤ) → t ≤ℤ now → IsTimely c t → IsTimely c now
later-IsTimely c t now h v = record {
  valid = v.valid;
  sorted = v.sorted;
  recent = Until-mono t now c.ttl_ms c.lru h v.recent;
  ttl_nonneg = v.ttl_nonneg;
}

step-Holds :
    (c : LruIdempotencyCache) (k key : String) (n : Node) (t now : ℤ) (room : ℕ)
    → t ≤ℤ now
    → ltb_ℤ now n.expire_at_ms ≡ true
    → Holds c k n t (suc room)
    → Holds (mark_spec c key now).1 k n now room
step-Holds c k key n t now room h e s = elim (Bool-cases (key == "")) [
  | inl q ↦ rw (mark_spec_empty c key now q) (record {
    timely = later-IsTimely c t now h s.timely;
    found = s.found;
    roomy = omega (arith, s.roomy);
  })
  | inr q ↦ filled (λ p. ground (arith, string_eq.beq_iff key ""))
]
  where
    filled : key ≢ "" → Holds (mark_spec c key now).1 k n now room
    filled ne =
        let (f, g) = window-find_key c k key now n e s.found (omega (arith, s.roomy)) in
        let w : (mark_spec c key now).1.lru ≡ window c key now =
          (mark_spec-window c key t now ne s.timely).1 in
        record {
          timely = mark_spec-IsTimely c key t now ne h s.timely;
          found = rw w f;
          roomy = rw (w, (settings_kept c key now).0) (omega (arith, s.roomy));
        }

-- Calls before the expiry, fewer than there is room for, leave the node where the next call finds it.
run-Holds :
    (calls : List (ℤ × String)) (c : LruIdempotencyCache) (k : String) (n : Node) (t later : ℤ)
    → Holds c k n t (length calls)
    → Rising t calls later
    → later <ℤ n.expire_at_ms
    → (c' : LruIdempotencyCache) × (run calls c ≡ some c')
      × (t' : ℤ) × (t' ≤ℤ later)
      × Holds c' k n t' 0
unfolding run
run-Holds [] c k n t later s r h = (c, refl, t, r, s)
run-Holds ((now, key) ∷ calls) c k n t later s r h =
    let rest =
      run-Holds calls (mark_spec c key now).1 k n now later
        (step-Holds c k key n t now (length calls) r.0 (unexpired (Rising-le now later calls r.1))
          s)
        r.1 h in
    rw (try_mark-mark_spec c key now s.timely.valid, run) rest
  where
    unexpired : now ≤ℤ later → ltb_ℤ now n.expire_at_ms ≡ true
    unexpired le = ground arith

holds_found :
    (k : String) (now : ℤ) (c : LruIdempotencyCache) (n : Node)
    → find_key k c.lru ≡ some n
    → ltb_ℤ now n.expire_at_ms ≡ true
    → holds k (live now c.lru) ≡ true
unfolding holds
holds_found k now c n f e = rw (live-find_key k now c.lru n e f).0

accepted-Holds :
    (c : LruIdempotencyCache) (key : String) (t now : ℤ) (room : ℕ)
    → key ≢ ""
    → t ≤ℤ now
    → IsTimely c t
    → (mark_spec c key now).0 ≡ true
    → room < c.capacity
    → Holds (mark_spec c key now).1 key (fresh_node c key now) now room
accepted-Holds c key t now room ne h v a few =
    let (r, w) = mark_spec-window c key t now ne v in
    let (f, d) = window_accepted c key now (ground arith) (omega arith) in
    record {
      timely = mark_spec-IsTimely c key t now ne h v;
      found = rw w f;
      roomy = rw (w, (settings_kept c key now).0) (omega arith);
    }

-- An id that `TryMark` accepted is refused until it expires: after fewer than `capacity` other calls,
-- at times that do not fall, a second call before `now + ttl` answers false. No call faults.
pub run-try_mark_again :
    (c : LruIdempotencyCache) (key : String) (t now later : ℤ) (calls : List (ℤ × String))
    (c₁ : LruIdempotencyCache)
    → key ≢ ""
    → t ≤ℤ now
    → IsTimely c t
    → try_mark c key now ≡ some (true, c₁)
    → length calls < c.capacity
    → Rising now calls later
    → later <ℤ now +ℤ c.ttl_ms
    → (c₂ : LruIdempotencyCache) × (run calls c₁ ≡ some c₂)
      × (c₃ : LruIdempotencyCache) × (try_mark c₂ key later ≡ some (false, c₃))
run-try_mark_again c key t now later calls c₁ ne h v a few r l =
    let same : mark_spec c key now ≡ (true, c₁) =
      ground (arith, try_mark-mark_spec c key now v.valid) in
    let s = accepted-Holds c key t now (length calls) ne h v (ap (λ p. p.0) same) few in
    let (c₂, ran, t', le, s') =
      run-Holds calls (mark_spec c key now).1 key (fresh_node c key now) now later s r l in
    let (c₃, e, _, _, _, _) = try_mark-window c₂ key t' later ne le s'.timely in
    (
      c₂,
      subst (λ d. run calls d ≡ some c₂) (ap (λ p. p.1) same) ran,
      c₃,
      subst (λ b. try_mark c₂ key later ≡ some (not b, c₃))
          (holds_found key later c₂ (fresh_node c key now) s'.found (ground arith)) e,
    )
