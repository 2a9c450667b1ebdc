-- ===== src/Invariant/MqToWs.antt =====
-- The consistency of the state and the handlers of chat/dispatch/mq_to_ws.
use flz_chat.Session.Registry.Admission.{Admission}
use flz_chat.Common.{
  ℕ, ltb, ◌&&◌, not, Bool, List, [], ◌∷◌, Option, none, some, String, ◌==◌, nat_eq, string_eq,
  if◌then◌else◌, Option-cases, inl, inr,
}
use flz_chat.World.{World, Env, M, pure, ◌>>◌}
use flz_chat.World.Keeps.{Keeps, keeps_for_each}
use flz_chat.Mq.Envelope.{Envelope}
use flz_chat.Dispatch.MqToWs.{
  ConsumeResult, ack, nack_drop, insert_id, push_to_user, each_item, on_chat_msg_send,
  on_chat_msg_replay, collect_ids, collect_array, push_users, on_chat_msg_recall, on_friend_request,
  on_friend_accept, push_members, on_conversation_created, on_conversation_member_changed,
  on_envelope,
}
use flz_chat.Invariant.{IsConsistent, after, branch}
use flz_chat.Invariant.Pushes.{
  push_to_user-IsConsistent, read_array-IsConsistent, answer_sender-IsConsistent,
  push_receivers-IsConsistent, take-IsConsistent,
}

module _ {V : Type 0} (P : Admission) (E : Env V) where
  each_item-IsConsistent :
      {A : Type 0} (found : Option (List A)) (body : List A → M V (Unit {0}))
      → ((vs : List A) → Keeps (IsConsistent P E) (body vs))
      → Keeps (IsConsistent P E) (each_item E found body)
  each_item-IsConsistent none body k w i = i
  each_item-IsConsistent (some vs) body k w i = k vs w i

  on_chat_msg_send-IsConsistent :
      (env : Envelope V) → Keeps (IsConsistent P E) (on_chat_msg_send E env)
  unfolding on_chat_msg_send
  on_chat_msg_send-IsConsistent env w i = after P E _ _ _ i λ id w i.
      after P E _ _ _ i λ message_id w i. after P E _ _ _ i λ sender_id w i.
        after P E _ _ _ (take-IsConsistent P E id w i) λ pending w i.
          after P E _ _ _ (answer_sender-IsConsistent P E pending sender_id _ env.payload w i)
            λ _ w i.
              after P E _ _ _ (read_array-IsConsistent P E env.payload "receivers" w i)
                λ receivers w i.
                  after P E _ _ _
                    (each_item-IsConsistent receivers _
                      (λ vs. push_receivers-IsConsistent P E sender_id env.payload vs []) w i)
                    λ _ w i. i

  -- A handler that pushes to a user and acknowledges.
  pushed :
      (uid : ℕ) (type : String) (payload : V)
      → Keeps (IsConsistent P E) (do push_to_user E uid type payload; pure ack)
  pushed uid type payload w i =
      after P E _ _ _ (push_to_user-IsConsistent P E uid type payload w i) λ _ w i. i

  on_chat_msg_replay-IsConsistent :
      (env : Envelope V) → Keeps (IsConsistent P E) (on_chat_msg_replay E env)
  unfolding on_chat_msg_replay
  on_chat_msg_replay-IsConsistent env w i =
      after P E _ _ _ i
        λ target. branch P E (target == 0) _ _ (λ w i. i) (pushed target "msg.replay" env.payload)

  collect_ids-IsConsistent :
      (id_of : V → Option ℕ) (vs : List V) (users : List ℕ)
      → Keeps (IsConsistent P E) (collect_ids E id_of vs users)
  unfolding collect_ids
  collect_ids-IsConsistent id_of [] users w i = i
  collect_ids-IsConsistent id_of (v ∷ vs) users w i = elim (Option-cases (id_of v)) [
    | inl e ↦ rw (e, collect_ids) i
    | inr (uid, e) ↦
        rw (e, collect_ids) (collect_ids-IsConsistent id_of vs (insert_id uid users).0 w i)
  ]

  found_ids :
      (found : Option (List V)) (id_of : V → Option ℕ) (users : List ℕ)
      → Keeps (IsConsistent P E) (elim found as (λ _. M V (List ℕ)) [
        | none ↦ pure users
        | some vs ↦ collect_ids E id_of vs users
      ])
  found_ids none id_of users w i = i
  found_ids (some vs) id_of users w i = collect_ids-IsConsistent id_of vs users w i

  collect_array-IsConsistent :
      (p : V) (key : String) (id_of : V → Option ℕ) (users : List ℕ)
      → Keeps (IsConsistent P E) (collect_array E p key id_of users)
  unfolding collect_array
  collect_array-IsConsistent p key id_of users w i =
      after P E _ _ _ (read_array-IsConsistent P E p key w i) λ found. found_ids found id_of users

  pushed_if :
      (b : Bool) (uid : ℕ) (type : String) (payload : V)
      → Keeps (IsConsistent P E) (if b then push_to_user E uid type payload else pure tt)
  pushed_if b uid type payload =
      branch P E b _ _ (push_to_user-IsConsistent P E uid type payload) (λ w i. i)

  push_users-IsConsistent :
      (users : List ℕ) (type : String) (p : V)
      → Keeps (IsConsistent P E) (push_users E users type p)
  unfolding push_users
  push_users-IsConsistent users type p =
      keeps_for_each (IsConsistent P E) users _ (λ uid. pushed_if (ltb 0 uid) uid type p)

  on_chat_msg_recall-IsConsistent :
      (env : Envelope V) → Keeps (IsConsistent P E) (on_chat_msg_recall E env)
  unfolding on_chat_msg_recall
  on_chat_msg_recall-IsConsistent env w i = after P E _ _ _ i λ operator_id w i.
      after P E _ _ _ (collect_array-IsConsistent env.payload "receivers" _ _ w i) λ users w i.
        after P E _ _ _ (push_users-IsConsistent users "msg.recall" env.payload w i) λ _ w i. i

  on_friend_request-IsConsistent :
      (env : Envelope V) → Keeps (IsConsistent P E) (on_friend_request E env)
  unfolding on_friend_request
  on_friend_request-IsConsistent env w i =
      after P E _ _ _ i λ to_uid.
        branch P E (to_uid == 0) _ _ (λ w i. i) (pushed to_uid "friend.request" env.payload)

  on_friend_accept-IsConsistent :
      (env : Envelope V) → Keeps (IsConsistent P E) (on_friend_accept E env)
  unfolding on_friend_accept
  on_friend_accept-IsConsistent env w i = after P E _ _ _ i λ from_uid w i.
      after P E _ _ _ i λ to_uid w i.
        after P E _ _ _ (pushed_if (ltb 0 from_uid) from_uid "friend.accept" env.payload w i)
          λ _ w i.
            after P E _ _ _
              (pushed_if (ltb 0 to_uid && not (to_uid == from_uid)) to_uid "friend.accept"
                env.payload w i)
              λ _ w i. i

  push_members-IsConsistent : (p : V) (vs : List V) → Keeps (IsConsistent P E) (push_members E p vs)
  unfolding push_members
  push_members-IsConsistent p vs =
      keeps_for_each (IsConsistent P E) vs _
        λ v w i. after P E _ _ _ i λ uid. pushed_if (ltb 0 uid) uid "conversation.created" p

  members :
      (p : V) (found : Option (List V))
      → Keeps (IsConsistent P E) (elim found as (λ _. M V ConsumeResult) [
        | none ↦ pure nack_drop
        | some vs ↦ do push_members E p vs; pure ack
      ])
  members p none w i = i
  members p (some vs) w i = after P E _ _ _ (push_members-IsConsistent p vs w i) λ _ w i. i

  on_conversation_created-IsConsistent :
      (env : Envelope V) → Keeps (IsConsistent P E) (on_conversation_created E env)
  unfolding on_conversation_created
  on_conversation_created-IsConsistent env w i =
      after P E _ _ _ (read_array-IsConsistent P E env.payload "memberIds" w i)
        (members env.payload)

  on_conversation_member_changed-IsConsistent :
      (env : Envelope V) → Keeps (IsConsistent P E) (on_conversation_member_changed E env)
  unfolding on_conversation_member_changed
  on_conversation_member_changed-IsConsistent env w i =
      after P E _ _ _ (collect_array-IsConsistent env.payload "addedIds" _ _ w i) λ added w i.
        after P E _ _ _ (collect_array-IsConsistent env.payload "removedIds" _ added w i)
          λ removed w i.
            after P E _ _ _ (collect_array-IsConsistent env.payload "roleChanges" _ removed w i)
              λ users w i.
                after P E _ _ _
                  (push_users-IsConsistent users "conversation.member_changed" env.payload w i)
                  λ _ w i. i

  -- Whatever an event of the business service holds, the state is consistent after its handler, also
  -- where the handler throws.
  pub on_envelope-IsConsistent :
      (env : Envelope V) (w : World V)
      → IsConsistent P E w
      → IsConsistent P E (on_envelope E env w).1
  unfolding on_envelope
  on_envelope-IsConsistent env =
      branch P E (env.type == "chat.msg.send") _ _ (on_chat_msg_send-IsConsistent env) (
        branch P E (env.type == "chat.msg.replay") _ _ (on_chat_msg_replay-IsConsistent env) (
          branch P E (env.type == "chat.msg.recall") _ _ (on_chat_msg_recall-IsConsistent env) (
            branch P E (env.type == "chat.friend.request") _ _ (on_friend_request-IsConsistent env)
              (branch P E (env.type == "chat.friend.accept") _ _ (on_friend_accept-IsConsistent env)
                (branch P E (env.type == "chat.conversation.created") _ _
                  (on_conversation_created-IsConsistent env)
                  (branch P E (env.type == "chat.conversation.member_changed") _ _
                    (on_conversation_member_changed-IsConsistent env) (λ w i. i)))))))
