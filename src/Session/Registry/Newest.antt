-- ===== src/Session/Registry/Newest.antt =====
-- The eviction loop and the connection that logged in last.
use flz_chat.Common.{
  ℕ, zero, suc, ◌≤◌, ◌≡◌, subst, ap, pos_part, neg_part, ◌∙◌, ◌⊎◌, inl, inr, true, false, List, [],
  ◌∷◌, ◌++◌, none, some, String, ltb, ◌<ℤ◌, length, lookup, erase, nat_eq, string_eq, ◌==◌, All,
  Distinct, erase-Distinct, erase-All, lookup-erase, Bool-cases, arith,
}
use flz_chat.Session.Conn.{OnlineConn}
use flz_chat.Session.Registry.{Devices, oldest_from, evict}
use flz_chat.Session.Registry.Evict.{NoLater, oldest-lookup}

-- The entries of other devices logged in before a connection.
abbrev pub Before : OnlineConn → String → String × OnlineConn → Type 0
Before c did d = ((d.0 == did) ≡ true) ⊎ ((d.1).login_at <ℤ c.login_at)

-- Of two devices one is another than that of the connection.
oldest-Before :
    (o c : OnlineConn) (did : String) (b s : String × OnlineConn) (ds : Devices)
    → lookup b.0 (s ∷ ds) ≡ none
    → All (Before c did) (b ∷ s ∷ ds)
    → All (NoLater o) (b ∷ s ∷ ds)
    → o.login_at <ℤ c.login_at
unfolding lookup
oldest-Before o c did b s ds d (inr l, a) (n, m) = omega arith
oldest-Before o c did b s ds d (inl e, (inr l, a)) (n, (m, k)) = omega arith
oldest-Before o c did b s ds d (inl e, (inl e', a)) (n, (m, k)) =
    ground (arith, string_eq.beq_iff b.0 did, string_eq.beq_iff s.0 did, string_eq.beq_iff s.0 b.0)

oldest-ne :
    (b s : String × OnlineConn) (ds : Devices) (did : String) (c : OnlineConn)
    → Distinct (b ∷ s ∷ ds)
    → lookup did (b ∷ s ∷ ds) ≡ some c
    → All (Before c did) (b ∷ s ∷ ds)
    → ((oldest_from b (b ∷ s ∷ ds)).0 == did) ≡ false
oldest-ne b s ds did c d l a =
    let o = oldest_from b (b ∷ s ∷ ds) in
    let (found, least) = oldest-lookup b (s ∷ ds) d in
    let younger = oldest-Before o.1 c did b s ds d.0 a least in
    elim (Bool-cases (o.0 == did)) [
      | inr q ↦ q
      | inl q ↦
          let at : lookup did (b ∷ s ∷ ds) ≡ some o.1 =
            subst (λ (k : String). lookup k (b ∷ s ∷ ds) ≡ some o.1)
              ((string_eq.beq_iff o.0 did).0 q) found in
          let same : o.1 ≡ c = cc in
          absurd (
            omega (
              arith,
              ap (λ (x : OnlineConn). pos_part x.login_at) same,
              ap (λ (x : OnlineConn). neg_part x.login_at) same,
            ))
    ]

-- The device of the newest connection stays.
pub evict_newest :
    (f limit : ℕ) (ds : Devices) (out : List OnlineConn) (did : String) (c : OnlineConn)
    → 1 ≤ limit
    → Distinct ds
    → lookup did ds ≡ some c
    → All (Before c did) ds
    → lookup did (evict f limit ds out).0 ≡ some c
unfolding evict
evict_newest zero limit ds out did c p d l a = l
evict_newest (suc f) limit [] out did c p d l a = l
evict_newest (suc f) limit (b ∷ []) out did c p d l a = rw (alone limit p) l
  where
    alone : (n : ℕ) → 1 ≤ n → ltb n 1 ≡ false
    alone n h = ground arith
evict_newest (suc f) limit (b ∷ s ∷ ds) out did c p d l a =
    elim (Bool-cases (ltb limit (length (b ∷ s ∷ ds)))) [
      | inl q ↦
          let o = oldest_from b (b ∷ s ∷ ds) in
          let kept : lookup did (erase o.0 (b ∷ s ∷ ds)) ≡ some c =
            lookup-erase o.0 did (b ∷ s ∷ ds) ∙ rw (oldest-ne b s ds did c d l a) l in
          rw q (
            evict_newest f limit (erase o.0 (b ∷ s ∷ ds)) (out ++ o.1 ∷ []) did c p
              (erase-Distinct o.0 (b ∷ s ∷ ds) d) kept
              (erase-All (Before c did) o.0 (b ∷ s ∷ ds) a))
      | inr q ↦ rw q l
    ]
