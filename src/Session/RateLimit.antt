-- ===== src/Session/RateLimit.antt =====
-- The rate limit of a connection over a sequence of frames.
use flz_chat.Common.{
  ℕ, suc, ◌+◌, ◌*◌, ◌≤◌, ◌≡◌, List, [], ◌∷◌, ℤ, pos, pos_part, ◌+ℤ◌, ◌-ℤ◌, ◌≤ℤ◌, ◌<ℤ◌,
  if◌then◌else◌, arith, ◌⊎◌, inl, inr, +ℤ_parts,
}
use flz_chat.Session.Conn.{OnlineConn, consume_token}

-- The frames that pass, for arrivals at the given times.
unfoldable pub accepted : OnlineConn → ℤ → List ℤ → ℕ
unfolding consume_token
accepted c rate [] = 0
accepted c rate (now ∷ times) =
    let (c', passed) = consume_token c now rate in
    let rest = accepted c' rate times in if passed then suc rest else rest

-- All times lie in [lo, hi] and do not fall.
abbrev pub Between : ℤ → List ℤ → ℤ → Type 0
Between lo [] hi = lo ≤ℤ hi
Between lo (t ∷ ts) hi = (lo ≤ℤ t) × Between t ts hi

-- A frame within a second of the last refill takes a token if it passes.
consume_token_held :
    (c : OnlineConn) (now rate : ℤ)
    → now <ℤ c.bucket_refill_ts +ℤ pos 1000
    → let (c', passed) = consume_token c now rate in
      (c'.bucket_refill_ts ≡ c.bucket_refill_ts)
      × ((if passed then suc (pos_part c'.bucket_tokens) else pos_part c'.bucket_tokens)
          ≤ pos_part c.bucket_tokens)
unfolding consume_token ◌+ℤ◌ ◌-ℤ◌
consume_token_held c now rate h = ground arith

-- Any other frame fills the bucket first.
consume_token_filled :
    (c : OnlineConn) (now rate : ℤ)
    → c.bucket_refill_ts +ℤ pos 1000 ≤ℤ now
    → let (c', passed) = consume_token c now rate in
      (c'.bucket_refill_ts ≡ now)
      × ((if passed then suc (pos_part c'.bucket_tokens) else pos_part c'.bucket_tokens)
          ≤ pos_part rate)
unfolding consume_token ◌+ℤ◌ ◌-ℤ◌
consume_token_filled c now rate h = ground arith

Between-le : (lo hi : ℤ) (ts : List ℤ) → Between lo ts hi → lo ≤ℤ hi
Between-le lo hi [] b = b
Between-le lo hi (t ∷ ts) b = omega (arith, Between-le t hi ts b.1)

pos_part_mono : (a b : ℤ) → a ≤ℤ b → pos_part a ≤ pos_part b
pos_part_mono a b h = ground arith

second_cases :
    (c : OnlineConn) (now : ℤ)
    → (now <ℤ c.bucket_refill_ts +ℤ pos 1000) ⊎ (c.bucket_refill_ts +ℤ pos 1000 ≤ℤ now)
second_cases c now = omega arith

-- Until the next refill, no more frames pass than there are tokens.
accepted_held :
    (c : OnlineConn) (rate lo hi : ℤ) (ts : List ℤ)
    → Between lo ts hi
    → hi <ℤ c.bucket_refill_ts +ℤ pos 1000
    → accepted c rate ts ≤ pos_part c.bucket_tokens
unfolding accepted
accepted_held c rate lo hi [] b h = omega arith
accepted_held c rate lo hi (t ∷ ts) b h =
    let (c', passed) = consume_token c t rate in
    let (e, f) = consume_token_held c t rate (omega (arith, Between-le t hi ts b.1)) in
    let rest = accepted_held c' rate t hi ts b.1 (rw e h) in ground arith

-- Frames within one second: the tokens at hand, and one refill at most.
pub accepted-le-rate :
    (c : OnlineConn) (rate lo hi : ℤ) (ts : List ℤ)
    → Between lo ts hi
    → hi <ℤ lo +ℤ pos 1000
    → accepted c rate ts ≤ pos_part c.bucket_tokens + pos_part rate
unfolding accepted
accepted-le-rate c rate lo hi [] b h = omega arith
accepted-le-rate c rate lo hi (t ∷ ts) b h = elim (second_cases c t) [
  | inl early ↦
      let (e, f) = consume_token_held c t rate early in
      let rest = accepted-le-rate (consume_token c t rate).0 rate t hi ts b.1 near in ground arith
  | inr late ↦
      let (e, f) = consume_token_filled c t rate late in
      let rest = accepted_held (consume_token c t rate).0 rate t hi ts b.1 (rw e near) in
      ground arith
]
  where
    near : hi <ℤ t +ℤ pos 1000
    near = omega (arith, +ℤ_parts lo (pos 1000), +ℤ_parts t (pos 1000))

-- No second sees more than twice the limit pass: a full bucket, and one refill.
pub accepted-le-twice_rate :
    (c : OnlineConn) (rate : ℕ) (lo hi : ℤ) (ts : List ℤ)
    → c.bucket_tokens ≤ℤ pos rate
    → Between lo ts hi
    → hi <ℤ lo +ℤ pos 1000
    → accepted c (pos rate) ts ≤ 2 * rate
accepted-le-twice_rate c rate lo hi ts full b h = omega (
  arith,
  pos_part_mono c.bucket_tokens (pos rate) full,
  accepted-le-rate c (pos rate) lo hi ts b h,
)
