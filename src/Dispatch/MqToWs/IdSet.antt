-- ===== src/Dispatch/MqToWs/IdSet.antt =====
-- The std::set of user ids of chat/dispatch/mq_to_ws: an ascending list.
use flz_chat.Common.{
  ℕ, ◌<◌, ◌≡◌, refl, Bool, true, false, not, ◌||◌, List, [], ◌∷◌, All, Among, Bool-cases, inl, inr,
  ltb, ltb→lt, if_cases, ◌==◌, nat_eq, arith,
}
use flz_chat.Dispatch.MqToWs.{insert_id}

unfoldable pub contains : ℕ → List ℕ → Bool
contains a [] = false
contains a (x ∷ xs) = x == a || contains a xs

-- No id stands twice.
abbrev pub HasNoRepeats : List ℕ → Type 0
HasNoRepeats [] = Unit
HasNoRepeats (x ∷ xs) = (contains x xs ≡ false) × HasNoRepeats xs

abbrev pub IsAscending : List ℕ → Type 0
IsAscending [] = Unit
IsAscending (x ∷ xs) = All (λ y. x < y) xs × IsAscending xs

-- An insertion adds one id.
pub contains-insert_id :
    (a uid : ℕ) (xs : List ℕ) → contains a (insert_id uid xs).0 ≡ (uid == a || contains a xs)
unfolding contains insert_id
contains-insert_id a uid [] = refl
contains-insert_id a uid (x ∷ xs) = ground (arith, contains-insert_id a uid xs)

not-contains_smaller : (a : ℕ) (xs : List ℕ) → All (λ y. a < y) xs → contains a xs ≡ false
unfolding contains
not-contains_smaller a [] h = refl
not-contains_smaller a (x ∷ xs) h = ground (arith, not-contains_smaller a xs h.1)

All-below : (u x : ℕ) (xs : List ℕ) → u < x → All (λ y. x < y) xs → All (λ y. u < y) xs
All-below u x [] h a = tt
All-below u x (y ∷ ys) h a = (omega (arith, a.0), All-below u x ys h a.1)

-- `insert(uid).second` holds exactly for an id that is not there.
pub insert_id_fresh :
    (uid : ℕ) (xs : List ℕ) → IsAscending xs → (insert_id uid xs).1 ≡ not (contains uid xs)
unfolding contains insert_id
insert_id_fresh uid [] h = refl
insert_id_fresh uid (x ∷ xs) h =
    ground (arith, insert_id_fresh uid xs h.1, not-contains_smaller x xs h.0, smaller)
  where
    smaller : uid < x → contains uid xs ≡ false
    smaller p = not-contains_smaller uid xs (All-below uid x xs p h.0)

insert_id-All :
    (lo uid : ℕ) (xs : List ℕ)
    → lo < uid
    → All (λ y. lo < y) xs
    → All (λ y. lo < y) (insert_id uid xs).0
unfolding insert_id
insert_id-All lo uid [] p a = (p, tt)
insert_id-All lo uid (x ∷ xs) p a = ground (arith, insert_id-All lo uid xs p a.1)

pub insert_id-IsAscending :
    (uid : ℕ) (xs : List ℕ) → IsAscending xs → IsAscending (insert_id uid xs).0
unfolding insert_id
insert_id-IsAscending uid [] h = (tt, tt)
insert_id-IsAscending uid (x ∷ xs) h =
    let (rest, fresh) = insert_id uid xs in
    if_cases (λ (r : List ℕ × Bool). IsAscending r.0) (ltb uid x) (uid ∷ x ∷ xs, true) _
      (λ e. let p = ltb→lt uid x e in ((p, All-below uid x xs p h.0), h))
      (λ e.
        if_cases (λ (r : List ℕ × Bool). IsAscending r.0) (uid == x) (x ∷ xs, false)
          (x ∷ rest, fresh) (λ _. h)
          (λ f.
            (insert_id-All x uid xs (ground (arith, e, f)) h.0, insert_id-IsAscending uid xs h.1)))

pub IsAscending-HasNoRepeats : (xs : List ℕ) → IsAscending xs → HasNoRepeats xs
IsAscending-HasNoRepeats [] h = tt
IsAscending-HasNoRepeats (x ∷ xs) h =
    (not-contains_smaller x xs h.0, IsAscending-HasNoRepeats xs h.1)

-- An id that is found stands in the list.
pub contains-Among : (u : ℕ) (l : List ℕ) → contains u l ≡ true → Among u l
unfolding contains
contains-Among u [] h = absurd (cc)
contains-Among u (x ∷ l) h = elim (Bool-cases (x == u)) [
  | inl e ↦ inl (ground (arith, nat_eq.beq_iff x u))
  | inr e ↦ inr (contains-Among u l (ground arith))
]
