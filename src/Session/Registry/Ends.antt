-- ===== src/Session/Registry/Ends.antt =====
-- The eviction loop of `Add` ends by its own condition.
use flz_chat.Common.{
  ℕ, zero, suc, ◌≤◌, ◌≡◌, refl, inl, inr, false, List, [], ◌∷◌, ◌++◌, ltb, length, erase, string_eq,
  Distinct, erase-Distinct, length-erase, Bool-cases, arith,
}
use flz_chat.Session.Conn.{OnlineConn}
use flz_chat.Session.Registry.{Devices, oldest_from, evict}
use flz_chat.Session.Registry.Evict.{oldest-lookup, evict-length}

-- Fuel for a round for each device makes the same rounds as any more fuel.
evict_enough :
    (f g limit : ℕ) (ds : Devices) (out : List OnlineConn)
    → Distinct ds
    → length ds ≤ f
    → length ds ≤ g
    → evict f limit ds out ≡ evict g limit ds out
unfolding evict
evict_enough zero zero limit ds out d p q = refl
evict_enough zero (suc g) limit [] out d p q = refl
evict_enough zero (suc g) limit (b ∷ ds) out d p q = absurd (omega (arith, p))
evict_enough (suc f) zero limit [] out d p q = refl
evict_enough (suc f) zero limit (b ∷ ds) out d p q = absurd (omega (arith, q))
evict_enough (suc f) (suc g) limit [] out d p q = refl
evict_enough (suc f) (suc g) limit (b ∷ ds) out d p q =
    elim (Bool-cases (ltb limit (length (b ∷ ds)))) [
      | inl e ↦
          let o = oldest_from b (b ∷ ds) in
          let l = length-erase o.0 (b ∷ ds) o.1 d (oldest-lookup b ds d).0 in
          rw e (
            evict_enough f g limit (erase o.0 (b ∷ ds)) (out ++ o.1 ∷ [])
              (erase-Distinct o.0 (b ∷ ds) d) (omega (arith, l, p)) (omega (arith, l, q)))
      | inr e ↦ rw e refl
    ]

-- The loop of `Add` ends: from as many rounds as there are devices on, more rounds change nothing, and
-- its condition, that there are more devices than the limit, no longer holds.
pub evict-ends :
    (rounds limit : ℕ) (ds : Devices) (out : List OnlineConn)
    → Distinct ds
    → length ds ≤ rounds
    → let kept = evict (length ds) limit ds out in
      (evict rounds limit ds out ≡ kept) × (ltb limit (length kept.0) ≡ false)
evict-ends rounds limit ds out d p =
    let (short, some_stay) = evict-length (length ds) limit ds out d (omega arith) in
    (evict_enough rounds (length ds) limit ds out d p (omega arith), ground (arith, short))
