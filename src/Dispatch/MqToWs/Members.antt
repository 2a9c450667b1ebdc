-- ===== src/Dispatch/MqToWs/Members.antt =====
-- A change of the members of a conversation (chat/dispatch/mq_to_ws): who is told.
use flz_chat.Common.{
  ℕ, String, ◌≡◌, refl, ◌∙◌, ap, true, false, not, ◌||◌, ◌&&◌, Option, some, List, [], ◌==◌, nat_eq,
  arith,
}
use flz_chat.Json.Read.{get_uint64}
use flz_chat.World.{World, Env, continue, for_each}
use flz_chat.Mq.Envelope.{Envelope}
use flz_chat.Dispatch.MqToWs.{
  ack, push_to_user, read_array, collect_array, push_users, on_conversation_member_changed,
}
use flz_chat.Dispatch.MqToWs.IdSet.{contains, HasNoRepeats, IsAscending, IsAscending-HasNoRepeats}
use flz_chat.Dispatch.MqToWs.Receivers.{ReadsBy}
use flz_chat.Dispatch.MqToWs.Sending.{for_each-IsTotal, push_to_user-IsTotal}
use flz_chat.Dispatch.MqToWs.Recall.{collect_ids-Collected, push_users-Pushes}

module _ {V : Type 0} (E : Env V) where
  -- The ids that an object has under a key: none if the key is absent or holds no array.
  pub data Lists (p : V) (key : String) (id_of : V → Option ℕ) : List ℕ → Type 0 where
    absent : E.json.is_member p key ≡ some false → Lists p key id_of []
    other :
        (v : V)
        → E.json.is_member p key ≡ some true
        → E.json.at p key ≡ some v
        → E.json.is_array v ≡ false
        → Lists p key id_of []
    listed :
        (v : V) (us : List ℕ)
        → E.json.is_member p key ≡ some true
        → E.json.at p key ≡ some v
        → E.json.is_array v ≡ true
        → ReadsBy id_of (E.json.items v) us
        → Lists p key id_of us

  -- A set of ids after those under a key were added.
  record Gathered (p : V) (key : String) (id_of : V → Option ℕ) (us users : List ℕ) : Type 0 where
    found : List ℕ
    ascending : IsAscending found
    exact : (u : ℕ) → contains u found ≡ (contains u us || contains u users)
    gathers : (w : World V) → collect_array E p key id_of users w ≡ (some found, w)

  collect_array-Gathered :
      (p : V) (key : String) (id_of : V → Option ℕ) (us users : List ℕ)
      → Lists p key id_of us
      → IsAscending users
      → Gathered p key id_of us users
  unfolding collect_array read_array continue contains
  collect_array-Gathered p key id_of [] users (absent a) o = record {
    found = users;
    ascending = o;
    exact = λ u. refl;
    gathers = λ w. rw a refl;
  }
  collect_array-Gathered p key id_of [] users (other v a b c) o = record {
    found = users;
    ascending = o;
    exact = λ u. refl;
    gathers = λ w. rw (a, b, c) refl;
  }
  collect_array-Gathered p key id_of _ users (listed v us a b c r) o =
      let all = collect_ids-Collected E id_of (E.json.items v) us users r o in
      record {
        found = all.found;
        ascending = all.ascending;
        exact = all.exact;
        gathers = λ w. rw (a, b, c) (all.collects w);
      }

  -- The handler of a change of members throws nothing and acknowledges it, if the ids that it lists can
  -- be read: the change is pushed, one user after the other, to each user who was added or removed or
  -- whose role was changed, 0 left out, once to each, and to nobody else.
  pub on_conversation_member_changed_lem :
      (env : Envelope V) (added removed changed : List ℕ) (w : World V)
      → Lists env.payload "addedIds" E.json.as_uint64 added
      → Lists env.payload "removedIds" E.json.as_uint64 removed
      → Lists env.payload "roleChanges" (λ v. get_uint64 E.json v "userId") changed
      → (l : List ℕ) × (on_conversation_member_changed E env w ≡ (
        some ack,
        (for_each l (λ uid. push_to_user E uid "conversation.member_changed" env.payload) w).1,
      ))
        × HasNoRepeats l
        × ((u : ℕ)
            → contains u l
              ≡ ((contains u added || contains u removed || contains u changed) && not (u == 0)))
  unfolding on_conversation_member_changed continue
  on_conversation_member_changed_lem env added removed changed w a b c =
      let p = env.payload in
      let type : String = "conversation.member_changed" in
      let first = collect_array-Gathered p "addedIds" E.json.as_uint64 added [] a tt in
      let second =
        collect_array-Gathered p "removedIds" E.json.as_uint64 removed first.found b
          first.ascending in
      let third =
        collect_array-Gathered p "roleChanges" (λ v. get_uint64 E.json v "userId") changed
          second.found c second.ascending in
      let pushed =
        push_users-Pushes E third.found type p
          (IsAscending-HasNoRepeats third.found third.ascending) in
      let total : (push_users E third.found type p w).0 ≡ some tt =
        ap (λ (x : Option (Unit {0}) × World V). x.0) (pushed.pushes w)
        ∙ for_each-IsTotal pushed.reached _ (λ uid. push_to_user-IsTotal E uid type p) w in
      (
        pushed.reached,
        rw (first.gathers w, second.gathers w, third.gathers w, total, pushed.pushes w) refl,
        pushed.once,
        λ u.
            unfold contains in
            ground (arith, pushed.exact u, third.exact u, second.exact u, first.exact u),
      )
