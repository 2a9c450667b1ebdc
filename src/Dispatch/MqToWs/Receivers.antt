-- ===== src/Dispatch/MqToWs/Receivers.antt =====
-- Who gets a message: the loop over the receivers of chat/dispatch/mq_to_ws, as a loop over a list of
-- users without repeats.
use flz_chat.Common.{
  ℕ, ◌≡◌, refl, inl, inr, true, false, not, ◌||◌, ◌&&◌, Option, none, some, List, [], ◌∷◌, ◌==◌,
  nat_eq, Bool-cases, arith,
}
use flz_chat.World.{World, Env, M, continue, for_each}
use flz_chat.Dispatch.MqToWs.{insert_id, push_to_user, push_receivers}
use flz_chat.Dispatch.MqToWs.IdSet.{
  contains, HasNoRepeats, IsAscending, contains-insert_id, insert_id_fresh, insert_id-IsAscending,
}

continue_cong :
    {V A B : Type 0} (r : Option A) (w : World V) (f g : A → M V B)
    → ((a : A) (w' : World V) → f a w' ≡ g a w')
    → continue r w f ≡ continue r w g
unfolding continue
continue_cong none w f g e = refl
continue_cong (some a) w f g e = e a w

module _ {V : Type 0} where
  -- The items are these ids, by a reading of an id.
  abbrev pub ReadsBy : (V → Option ℕ) → List V → List ℕ → Type 0
  ReadsBy id_of [] [] = Unit
  ReadsBy id_of [] (u ∷ us) = ⊥
  ReadsBy id_of (v ∷ vs) [] = ⊥
  ReadsBy id_of (v ∷ vs) (u ∷ us) = (id_of v ≡ some u) × ReadsBy id_of vs us

module _ {V : Type 0} (E : Env V) where
  abbrev pub Reads : List V → List ℕ → Type 0
  Reads = ReadsBy E.json.as_uint64

  -- What is left of ids, each once, without those that are skipped and those that were pushed to.
  record IsLeft (sender_id : ℕ) (us pushed l : List ℕ) : Type 0 where
    once : HasNoRepeats l
    exact :
        (u : ℕ)
        → contains u l
          ≡ (contains u us && not (u == 0 || u == sender_id) && not (contains u pushed))

  IsLeft-skip :
      (sender_id uid : ℕ) (us pushed l : List ℕ)
      → (uid == 0 || uid == sender_id || contains uid pushed) ≡ true
      → IsLeft sender_id us pushed l
      → IsLeft sender_id (uid ∷ us) pushed l
  unfolding contains
  IsLeft-skip sender_id uid us pushed l s i = record {
    once = i.once;
    exact = λ u. ground (arith, i.exact u, s);
  }

  IsLeft-push :
      (sender_id uid : ℕ) (us pushed l : List ℕ)
      → (uid == 0 || uid == sender_id) ≡ false
      → contains uid pushed ≡ false
      → IsLeft sender_id us (insert_id uid pushed).0 l
      → IsLeft sender_id (uid ∷ us) pushed (uid ∷ l)
  unfolding contains
  IsLeft-push sender_id uid us pushed l s f i = record {
    once = (ground (arith, i.exact uid, contains-insert_id uid uid pushed), i.once);
    exact = λ u. ground (arith, i.exact u, contains-insert_id u uid pushed, s, f);
  }

  -- The loop with the set of users that were pushed to is a plain loop over those that are left.
  abbrev Loops : ℕ → V → List V → List ℕ → List ℕ → Type 0
  Loops sender_id p vs us pushed =
      (l : List ℕ) × IsLeft sender_id us pushed l
      × ((w : World V)
          → push_receivers E sender_id p vs pushed w
            ≡ for_each l (λ uid. push_to_user E uid "msg.new" p) w)

  push_receivers-Loops :
      (sender_id : ℕ) (p : V) (vs : List V) (us pushed : List ℕ)
      → Reads vs us
      → IsAscending pushed
      → Loops sender_id p vs us pushed
  unfolding push_receivers for_each
  push_receivers-Loops sender_id p [] [] pushed r a =
      ([], record { once = tt; exact = λ u. unfold contains in refl }, λ w. refl)
  push_receivers-Loops sender_id p [] (u ∷ us) pushed r a = absurd r
  push_receivers-Loops sender_id p (v ∷ vs) [] pushed r a = absurd r
  push_receivers-Loops sender_id p (v ∷ vs) (u ∷ us) pushed r a =
      elim (Bool-cases (u == 0 || u == sender_id)) [
        | inl s ↦
            let (l, i, e) = push_receivers-Loops sender_id p vs us pushed r.1 a in
            (
              l,
              IsLeft-skip sender_id u us pushed l (rw s refl) i,
              λ w. rw (push_receivers, r.0, s) (e w),
            )
        | inr s ↦ elim (Bool-cases (insert_id u pushed).1) [
          | inl f ↦
              let (l, i, e) =
                push_receivers-Loops sender_id p vs us (insert_id u pushed).0 r.1
                  (insert_id-IsAscending u pushed a) in
              (
                u ∷ l,
                IsLeft-push sender_id u us pushed l s
                    (ground (arith, f, insert_id_fresh u pushed a)) i,
                λ w.
                    rw (push_receivers, r.0, s, f)
                      (continue_cong _ _
                        (λ _. push_receivers E sender_id p vs (insert_id u pushed).0)
                        (λ _. for_each l (λ uid. push_to_user E uid "msg.new" p)) (λ _ w'. e w')),
              )
          | inr f ↦
              let (l, i, e) = push_receivers-Loops sender_id p vs us pushed r.1 a in
              (
                l,
                IsLeft-skip sender_id u us pushed l (ground (arith, f, insert_id_fresh u pushed a))
                    i,
                λ w. rw (push_receivers, r.0, s, f) (e w),
              )
        ]
      ]

  -- The loop over the receivers of a message pushes it, one user after the other, to each user who is
  -- among the receivers and is neither 0 nor the sender, once however often they stand there, and to
  -- nobody else.
  pub push_receivers_lem :
      (sender_id : ℕ) (p : V) (vs : List V) (us : List ℕ) (w : World V)
      → Reads vs us
      → (l : List ℕ) × (push_receivers E sender_id p vs [] w
          ≡ for_each l (λ uid. push_to_user E uid "msg.new" p) w)
        × HasNoRepeats l
        × ((u : ℕ) → contains u l ≡ (contains u us && not (u == 0 || u == sender_id)))
  push_receivers_lem sender_id p vs us w r =
      let (l, i, e) = push_receivers-Loops sender_id p vs us [] r tt in
      (l, e w, i.once, λ u. unfold contains in ground (arith, i.exact u))
