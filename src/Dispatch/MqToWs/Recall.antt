-- ===== src/Dispatch/MqToWs/Recall.antt =====
-- A message that is recalled: `on_chat_msg_recall` as a whole.
use flz_chat.Common.{
  ℕ, String, ◌≡◌, refl, ◌∙◌, ap, inl, inr, true, not, ◌||◌, ◌&&◌, Option, some, List, [], ◌∷◌, ltb,
  ◌==◌, nat_eq, Bool-cases, arith, if_cases, if◌then◌else◌,
}
use flz_chat.Json.Read.{get_uint64}
use flz_chat.World.{World, Env, continue, for_each}
use flz_chat.Mq.Envelope.{Envelope}
use flz_chat.Dispatch.MqToWs.{
  ack, insert_id, push_to_user, read_array, collect_ids, collect_array, push_users,
  on_chat_msg_recall,
}
use flz_chat.Dispatch.MqToWs.IdSet.{
  contains, HasNoRepeats, IsAscending, contains-insert_id, insert_id-IsAscending,
  IsAscending-HasNoRepeats,
}
use flz_chat.Dispatch.MqToWs.Receivers.{Reads, ReadsBy}
use flz_chat.Dispatch.MqToWs.Sending.{for_each-IsTotal, push_to_user-IsTotal}

module _ {V : Type 0} (E : Env V) where
  -- A set of ids that was read.
  pub record Collected (id_of : V → Option ℕ) (vs : List V) (us users : List ℕ) : Type 0 where
    pub found : List ℕ
    pub ascending : IsAscending found
    pub exact : (u : ℕ) → contains u found ≡ (contains u us || contains u users)
    pub collects : (w : World V) → collect_ids E id_of vs users w ≡ (some found, w)

  pub collect_ids-Collected :
      (id_of : V → Option ℕ) (vs : List V) (us users : List ℕ)
      → ReadsBy id_of vs us
      → IsAscending users
      → Collected id_of vs us users
  unfolding collect_ids contains
  collect_ids-Collected id_of [] [] users r a = record {
    found = users;
    ascending = a;
    exact = λ u. refl;
    collects = λ w. refl;
  }
  collect_ids-Collected id_of [] (u ∷ us) users r a = absurd r
  collect_ids-Collected id_of (v ∷ vs) [] users r a = absurd r
  collect_ids-Collected id_of (v ∷ vs) (u ∷ us) users r a =
      let c =
        collect_ids-Collected id_of vs us (insert_id u users).0 r.1
          (insert_id-IsAscending u users a) in
      record {
        found = c.found;
        ascending = c.ascending;
        exact = λ x. ground (arith, c.exact x, contains-insert_id x u users);
        collects = λ w. rw (r.0, collect_ids) (c.collects w);
      }

  -- The loop over a set of users leaves out 0.
  pub record Pushes (users : List ℕ) (type : String) (p : V) : Type 0 where
    pub reached : List ℕ
    pub once : HasNoRepeats reached
    pub exact : (u : ℕ) → contains u reached ≡ (contains u users && not (u == 0))
    pub pushes :
        (w : World V)
        → push_users E users type p w ≡ for_each reached (λ uid. push_to_user E uid type p) w

  pub push_users-Pushes :
      (users : List ℕ) (type : String) (p : V) → HasNoRepeats users → Pushes users type p
  unfolding push_users for_each contains continue
  push_users-Pushes [] type p n = record {
    reached = [];
    once = tt;
    exact = λ u. refl;
    pushes = λ w. refl;
  }
  push_users-Pushes (x ∷ xs) type p n = elim (Bool-cases (ltb 0 x)) [
    | inl e ↦
        let r = push_users-Pushes xs type p n.1 in
        record {
          reached = x ∷ r.reached;
          once = (ground (arith, r.exact x, n.0), r.once);
          exact = λ u. ground (arith, r.exact u, e);
          pushes = λ w.
              rw (e, push_to_user-IsTotal E x type p w, continue)
                (r.pushes (push_to_user E x type p w).1);
        }
    | inr e ↦
        let r = push_users-Pushes xs type p n.1 in
        record {
          reached = r.reached;
          once = r.once;
          exact = λ u. ground (arith, r.exact u, e);
          pushes = λ w. rw (e, continue) (r.pushes w);
        }
  ]

  -- The handler of a recall whose fields can be read throws nothing and acknowledges it: the recall is
  -- pushed, one user after the other, to the operator and to each receiver, 0 left out, once to each,
  -- and to nobody else.
  pub on_chat_msg_recall_lem :
      (env : Envelope V) (operator_id : ℕ) (array : V) (us : List ℕ) (w : World V)
      → get_uint64 E.json env.payload "operatorId" ≡ some operator_id
      → E.json.is_member env.payload "receivers" ≡ some true
      → E.json.at env.payload "receivers" ≡ some array
      → E.json.is_array array ≡ true
      → Reads E (E.json.items array) us
      → (l : List ℕ) × (on_chat_msg_recall E env w
          ≡ (some ack, (for_each l (λ uid. push_to_user E uid "msg.recall" env.payload) w).1))
        × HasNoRepeats l
        × ((u : ℕ) → contains u l ≡ ((contains u us || u == operator_id) && not (u == 0)))
  unfolding on_chat_msg_recall collect_array read_array insert_id continue
  on_chat_msg_recall_lem env operator_id array us w a b c d r =
      let p = env.payload in
      let first : List ℕ = if ltb 0 operator_id then operator_id ∷ [] else [] in
      let ascending : IsAscending first =
        if_cases IsAscending (ltb 0 operator_id) (operator_id ∷ []) [] (λ _. (tt, tt)) (λ _. tt) in
      let users =
        collect_ids-Collected E.json.as_uint64 (E.json.items array) us first r ascending in
      let pushed =
        push_users-Pushes users.found "msg.recall" p
          (IsAscending-HasNoRepeats users.found users.ascending) in
      let total : (push_users E users.found "msg.recall" p w).0 ≡ some tt =
        ap (λ (x : Option (Unit {0}) × World V). x.0) (pushed.pushes w)
        ∙ for_each-IsTotal pushed.reached _ (λ uid. push_to_user-IsTotal E uid "msg.recall" p) w in
      (
        pushed.reached,
        rw (a, b, c, d, users.collects w, total, pushed.pushes w) refl,
        pushed.once,
        λ u. unfold contains in ground (arith, pushed.exact u, users.exact u),
      )
