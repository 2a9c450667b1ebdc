-- ===== src/Session/Registry/Evict.antt =====
-- The eviction loop of `Add`: how many devices it leaves, and which.
use mathlib.Core.List.{append_assoc, perm_append_singleton}
use mathlib.Core.List.Perm
use flz_chat.Common.{
  ℕ, zero, suc, ◌+◌, ◌≤◌, ◌≡◌, refl, sym, ◌∙◌, ◌⊎◌, inl, inr, List, [], ◌∷◌, ◌++◌, some, String,
  ltb_ℤ, ltb, ◌≤ℤ◌, length, lookup, erase, nat_eq, string_eq, All, All-append, All-mono, Among,
  Among-lookup, Distinct, erase-Distinct, erase-All, erase-perm, length-erase, Bool-cases, arith,
  Perm,
}
use flz_chat.Session.Conn.{OnlineConn}
use flz_chat.Session.Registry.{Devices, earlier, oldest_from, evict, values}

-- A connection that logged in no later than that of an entry.
abbrev pub NoLater : OnlineConn → String × OnlineConn → Type 0
NoLater c d = c.login_at ≤ℤ (d.1).login_at

earlier_lem :
    (b it : String × OnlineConn)
    → ((earlier b it ≡ it) ⊎ (earlier b it ≡ b))
      × NoLater (earlier b it).1 b
      × NoLater (earlier b it).1 it
unfolding earlier
earlier_lem b it = elim (Bool-cases (ltb_ℤ (it.1).login_at (b.1).login_at)) [
  | inl q ↦ rw q (inl refl, ground arith, omega arith)
  | inr q ↦ rw q (inr refl, omega arith, ground arith)
]

-- The inner loop gives the first entry or one of the list, and none logged in earlier.
oldest_from_lem :
    (b : String × OnlineConn) (ds : Devices)
    → let o = oldest_from b ds in ((o ≡ b) ⊎ Among o ds) × NoLater o.1 b × All (NoLater o.1) ds
unfolding oldest_from
oldest_from_lem b [] = (inl refl, omega arith, tt)
oldest_from_lem b (it ∷ rest) =
    let (m, l, a) = oldest_from_lem (earlier b it) rest in
    let (p, x, y) = earlier_lem b it in (member p m, omega arith, (omega arith, a))
  where
    member :
        (earlier b it ≡ it) ⊎ (earlier b it ≡ b)
        → (oldest_from (earlier b it) rest ≡ earlier b it)
          ⊎ Among (oldest_from (earlier b it) rest) rest
        → (oldest_from (earlier b it) rest ≡ b)
          ⊎ Among (oldest_from (earlier b it) rest) (it ∷ rest)
    member p (inr m) = inr (inr m)
    member (inl p) (inl m) = inr (inl (sym (m ∙ p)))
    member (inr p) (inl m) = inl (m ∙ p)

-- So the entry is in the map, and is what its key leads to.
pub oldest-lookup :
    (b : String × OnlineConn) (ds : Devices)
    → Distinct (b ∷ ds)
    → let o = oldest_from b (b ∷ ds) in
      (lookup o.0 (b ∷ ds) ≡ some o.1) × All (NoLater o.1) (b ∷ ds)
oldest-lookup b ds d =
    let (m, l, a) = oldest_from_lem b (b ∷ ds) in
    let o = oldest_from b (b ∷ ds) in (Among-lookup o.0 o.1 (b ∷ ds) d (here m), a)
  where
    here :
        (oldest_from b (b ∷ ds) ≡ b) ⊎ Among (oldest_from b (b ∷ ds)) (b ∷ ds)
        → Among (oldest_from b (b ∷ ds)) (b ∷ ds)
    here (inl e) = inl (sym e)
    here (inr a) = a

module _ {ℓ} (P : String × OnlineConn → Type ℓ) where
  pub evict-All :
      (f limit : ℕ) (ds : Devices) (out : List OnlineConn)
      → All P ds
      → All P (evict f limit ds out).0
  unfolding evict
  evict-All zero limit ds out a = a
  evict-All (suc f) limit [] out a = a
  evict-All (suc f) limit (b ∷ ds) out a = elim (Bool-cases (ltb limit (length (b ∷ ds)))) [
    | inl q ↦
        let o = oldest_from b (b ∷ ds) in
        rw q (evict-All f limit (erase o.0 (b ∷ ds)) (out ++ o.1 ∷ []) (erase-All P o.0 (b ∷ ds) a))
    | inr q ↦ rw q a
  ]

pub evict-Distinct :
    (f limit : ℕ) (ds : Devices) (out : List OnlineConn)
    → Distinct ds
    → Distinct (evict f limit ds out).0
unfolding evict
evict-Distinct zero limit ds out d = d
evict-Distinct (suc f) limit [] out d = d
evict-Distinct (suc f) limit (b ∷ ds) out d = elim (Bool-cases (ltb limit (length (b ∷ ds)))) [
  | inl q ↦
      let o = oldest_from b (b ∷ ds) in
      rw q (
        evict-Distinct f limit (erase o.0 (b ∷ ds)) (out ++ o.1 ∷ [])
          (erase-Distinct o.0 (b ∷ ds) d))
  | inr q ↦ rw q d
]

-- With a round for each device over the limit, no more devices stay than the limit, and at least one
-- if there was one.
pub evict-length :
    (f limit : ℕ) (ds : Devices) (out : List OnlineConn)
    → Distinct ds
    → length ds ≤ f + limit
    → (length (evict f limit ds out).0 ≤ limit)
      × (1 ≤ limit → 1 ≤ length ds → 1 ≤ length (evict f limit ds out).0)
unfolding evict
evict-length zero limit ds out d h = (omega arith, λ p q. q)
evict-length (suc f) limit [] out d h = (omega arith, λ p q. q)
evict-length (suc f) limit (b ∷ ds) out d h = elim (Bool-cases (ltb limit (length (b ∷ ds)))) [
  | inl q ↦
      let o = oldest_from b (b ∷ ds) in
      let (found, a) = oldest-lookup b ds d in
      let l = length-erase o.0 (b ∷ ds) o.1 d found in
      let (x, y) =
        evict-length f limit (erase o.0 (b ∷ ds)) (out ++ o.1 ∷ []) (erase-Distinct o.0 (b ∷ ds) d)
          (omega arith) in
      rw q (x, λ p r. y p (ground arith))
  | inr q ↦ rw q (ground arith, λ p r. r)
]

-- What stays and what is evicted are together what was there.
pub evict-perm :
    (f limit : ℕ) (ds : Devices) (out : List OnlineConn)
    → Distinct ds
    → let (kept, evicted) = evict f limit ds out in Perm (values ds ++ out) (values kept ++ evicted)
unfolding evict
evict-perm zero limit ds out d = Perm.refl _
evict-perm (suc f) limit [] out d = Perm.refl _
evict-perm (suc f) limit (b ∷ ds) out d = elim (Bool-cases (ltb limit (length (b ∷ ds)))) [
  | inl q ↦
      let o = oldest_from b (b ∷ ds) in
      let rest = erase o.0 (b ∷ ds) in
      let (found, a) = oldest-lookup b ds d in
      let taken =
        Perm.map (λ (e : String × OnlineConn). e.1) (erase-perm o.0 o.1 (b ∷ ds) d found) in
      rw q (
        Perm.trans (Perm.append taken (Perm.refl out)) (
          Perm.trans (moved o.1 (values rest) out)
            (evict-perm f limit rest (out ++ o.1 ∷ []) (erase-Distinct o.0 (b ∷ ds) d))))
  | inr q ↦ rw q (Perm.refl _)
]
  where
    moved :
        (c : OnlineConn) (xs ys : List OnlineConn) → Perm (c ∷ (xs ++ ys)) (xs ++ (ys ++ c ∷ []))
    moved c xs ys =
        Perm.trans (Perm.symm (perm_append_singleton c (xs ++ ys))) (rw append_assoc (Perm.refl _))

-- None that is evicted logged in after one that stays.
pub evict_oldest :
    (f limit : ℕ) (ds : Devices) (out : List OnlineConn)
    → Distinct ds
    → All (λ c. All (NoLater c) ds) out
    → let (kept, evicted) = evict f limit ds out in All (λ c. All (NoLater c) kept) evicted
unfolding evict
evict_oldest zero limit ds out d a = a
evict_oldest (suc f) limit [] out d a = a
evict_oldest (suc f) limit (b ∷ ds) out d a = elim (Bool-cases (ltb limit (length (b ∷ ds)))) [
  | inl q ↦
      let o = oldest_from b (b ∷ ds) in
      let rest = erase o.0 (b ∷ ds) in
      let (found, least) = oldest-lookup b ds d in
      rw q (
        evict_oldest f limit rest (out ++ o.1 ∷ []) (erase-Distinct o.0 (b ∷ ds) d) (
          All-append (λ (c : OnlineConn). All (NoLater c) rest) out (o.1 ∷ [])
            (All-mono (λ (c : OnlineConn). All (NoLater c) (b ∷ ds))
              (λ (c : OnlineConn). All (NoLater c) rest)
              (λ c p. erase-All (NoLater c) o.0 (b ∷ ds) p) out a)
            (erase-All (NoLater o.1) o.0 (b ∷ ds) least, tt)))
  | inr q ↦ rw q a
]
