-- ===== src/Dispatch/MqToWs.antt =====
-- chat/dispatch/mq_to_ws: the events of the business service that go down to the clients.
pub mod IdSet
pub mod Receivers
pub mod Sending
pub mod Recall
pub mod Frames
pub mod Scheduled
pub mod Members
use flz_chat.Common.{
  ℕ, ℤ, pos, ◌-ℤ◌, ltb, to_u64, Bool, true, false, not, ◌||◌, ◌&&◌, String, Option, none, some,
  List, [], ◌∷◌, ◌++◌, ◌==◌, nat_eq, string_eq, if◌then◌else◌,
}
use flz_chat.Json.Read.{get_string, get_int64, get_uint64}
use flz_chat.World.{Env, M, Job, push, pure, throwing, modify, for_each, continue, ◌>>=◌, ◌>>◌}
use flz_chat.Metrics.{inc_ws_out, observe_msg_send_latency_ms}
use flz_chat.Protocol.Send.{send_frame}
use flz_chat.Session.Conn.{OnlineConn}
use flz_chat.Session.Registry.{get_by_user}
use flz_chat.Dispatch.Pending.{PendingSend, take_pending}
use flz_chat.Mq.Envelope.{Envelope}

-- `mq::ConsumeResult`
pub data ConsumeResult : Type 0 where
  ack nack_requeue nack_drop : ConsumeResult

-- `users.insert(uid)` of a std::set, and whether the id is new.
unfoldable pub insert_id : ℕ → List ℕ → List ℕ × Bool
insert_id uid [] = (uid ∷ [], true)
insert_id uid (x ∷ xs) =
    let (rest, fresh) = insert_id uid xs in
    if ltb uid x
    then (uid ∷ x ∷ xs, true)
    else if uid == x
    then (x ∷ xs, false)
    else (x ∷ rest, fresh)

module _ {V : Type 0} (E : Env V) where
  -- A frame to a session, and its count.
  unfoldable pub deliver : OnlineConn → String → V → Bool → ℤ → M V (Unit {0})
  deliver conn type payload has_seq seq = do
    send_frame E conn.session type payload has_seq seq
    modify λ w. record w { metrics = inc_ws_out type w.metrics }

  unfoldable pub schedule : ℕ → Job V → M V (Unit {0})
  schedule iom job = modify λ w. record w { scheduled = w.scheduled ++ (iom, job) ∷ [] }

  -- On the connection's IOManager, or at once if it has none; nothing without a session.
  unfoldable pub push_to_conn : OnlineConn → String → V → Bool → ℤ → M V (Unit {0})
  unfolding deliver schedule
  push_to_conn conn type payload has_seq seq = elim conn.session [
    | none ↦ pure tt
    | some s ↦ elim conn.io_manager [
      | some iom ↦ schedule iom (push conn type payload has_seq seq)
      | none ↦ deliver conn type payload has_seq seq
    ]
  ]

  unfoldable pub push_to_user : ℕ → String → V → M V (Unit {0})
  unfolding push_to_conn
  push_to_user uid type payload w =
      for_each (get_by_user uid w.registry) (λ conn. push_to_conn conn type payload false (pos 0)) w

  -- `p.isMember(key) && p[key].isArray()`, and then the items; none otherwise.
  unfoldable pub read_array : V → String → M V (Option (List V))
  read_array p key = do
    let J = E.json
    has ← throwing (J.is_member p key)
    let items_of : M V (Option (List V)) = do
      v ← throwing (J.at p key)
      pure (if J.is_array v then some (J.items v) else none)
    if has then items_of else pure none

  -- The answer to the device that sent a message.
  abbrev pub response : String → ℤ → V
  response client_msg_id message_id =
      let J = E.json in
      J.put (J.put (J.put J.null "clientMsgId" (J.text client_msg_id)) "code" (J.int64 (pos 200)))
        "messageId" (J.int64 message_id)

  -- One connection of the sender: the sending device gets the answer, any other the message.
  unfoldable pub answer_conn : PendingSend → V → V → OnlineConn → M V (Unit {0})
  unfolding push_to_conn
  answer_conn pending resp p conn =
      if conn.device_id == pending.sender_device_id
      then push_to_conn conn "msg.send.resp" resp pending.has_seq pending.seq
      else push_to_conn conn "msg.new" p false (pos 0)

  unfoldable pub answer_sender : Option PendingSend → ℕ → V → V → M V (Unit {0})
  unfolding answer_conn
  answer_sender none sender_id resp p w = (some tt, w)
  answer_sender (some pending) sender_id resp p w =
      let latency = to_u64 (E.now_ms -ℤ pending.created_ms) in
      for_each (get_by_user sender_id w.registry) (answer_conn pending resp p)
        (record w { metrics = observe_msg_send_latency_ms latency w.metrics })

  -- The loop over the receivers, with the set of those that were pushed to.
  unfoldable pub push_receivers : ℕ → V → List V → List ℕ → M V (Unit {0})
  unfolding push_to_user
  push_receivers sender_id p [] pushed w = (some tt, w)
  push_receivers sender_id p (v ∷ vs) pushed w = elim ((E.json).as_uint64 v) [
    | none ↦ (none, w)
    | some uid ↦
        let skip = push_receivers sender_id p vs pushed w in
        let (pushed', fresh) = insert_id uid pushed in
        let pushing =
          continue (push_to_user uid "msg.new" p w).0 (push_to_user uid "msg.new" p w).1
            (λ _. push_receivers sender_id p vs pushed') in
        if uid == 0 || uid == sender_id then skip else if fresh then pushing else skip
  ]

  unfoldable pub take : String → M V (Option PendingSend)
  take client_msg_id w =
      let (p, rest) = take_pending client_msg_id w.pending in (some p, record w { pending = rest })

  abbrev pub each_item : {A : Type 0} → Option (List A) → (List A → M V (Unit {0})) → M V (Unit {0})
  each_item none body = pure tt
  each_item (some vs) body = body vs

  unfoldable pub on_chat_msg_send : Envelope V → M V ConsumeResult
  unfolding get_string get_int64 get_uint64 answer_sender push_receivers take read_array
  on_chat_msg_send env = do
    let J = E.json
    let p = env.payload
    client_msg_id ← throwing (get_string J p "clientMsgId")
    message_id ← throwing (get_int64 J p "messageId")
    sender_id ← throwing (get_uint64 J p "senderId")
    pending ← take client_msg_id
    answer_sender pending sender_id (response client_msg_id message_id) p
    receivers ← read_array p "receivers"
    each_item receivers (λ vs. push_receivers sender_id p vs [])
    pure ack

  unfoldable pub on_chat_msg_replay : Envelope V → M V ConsumeResult
  unfolding get_uint64 push_to_user
  on_chat_msg_replay env = do
    target ← throwing (get_uint64 E.json env.payload "targetUserId")
    let pushing : M V ConsumeResult = do push_to_user target "msg.replay" env.payload; pure ack
    if target == 0 then pure nack_drop else pushing

  -- The ids of an array, added to a set.
  unfoldable pub collect_ids : (V → Option ℕ) → List V → List ℕ → M V (List ℕ)
  unfolding insert_id
  collect_ids id_of [] users w = (some users, w)
  collect_ids id_of (v ∷ vs) users w = elim (id_of v) [
    | none ↦ (none, w)
    | some uid ↦ collect_ids id_of vs (insert_id uid users).0 w
  ]

  unfoldable pub collect_array : V → String → (V → Option ℕ) → List ℕ → M V (List ℕ)
  unfolding read_array collect_ids
  collect_array p key id_of users = do
    found ← read_array p key
    elim found [ none ↦ pure users | some vs ↦ collect_ids id_of vs users ]

  -- The loop over a set of users; 0 is no user.
  unfoldable pub push_users : List ℕ → String → V → M V (Unit {0})
  unfolding push_to_user
  push_users users type p =
      for_each users (λ uid. if ltb 0 uid then push_to_user uid type p else pure tt)

  unfoldable pub on_chat_msg_recall : Envelope V → M V ConsumeResult
  unfolding get_uint64 collect_array push_users insert_id
  on_chat_msg_recall env = do
    let p = env.payload
    operator_id ← throwing (get_uint64 E.json p "operatorId")
    users ←
        collect_array p "receivers" E.json.as_uint64
          (if ltb 0 operator_id then (insert_id operator_id []).0 else [])
    push_users users "msg.recall" p
    pure ack

  unfoldable pub on_friend_request : Envelope V → M V ConsumeResult
  unfolding get_uint64 push_to_user
  on_friend_request env = do
    to_uid ← throwing (get_uint64 E.json env.payload "toUserId")
    let pushing : M V ConsumeResult = do push_to_user to_uid "friend.request" env.payload; pure ack
    if to_uid == 0 then pure nack_drop else pushing

  unfoldable pub on_friend_accept : Envelope V → M V ConsumeResult
  unfolding get_uint64 push_to_user
  on_friend_accept env = do
    let p = env.payload
    from_uid ← throwing (get_uint64 E.json p "fromUserId")
    to_uid ← throwing (get_uint64 E.json p "toUserId")
    if ltb 0 from_uid then push_to_user from_uid "friend.accept" p else pure tt
    if ltb 0 to_uid && not (to_uid == from_uid)
        then push_to_user to_uid "friend.accept" p
        else pure tt
    pure ack

  -- The loop over the members, who are pushed to as they are read.
  unfoldable pub push_members : V → List V → M V (Unit {0})
  unfolding push_to_user
  push_members p vs = for_each vs λ v. do
    uid ← throwing (E.json.as_uint64 v)
    if ltb 0 uid then push_to_user uid "conversation.created" p else pure tt

  unfoldable pub on_conversation_created : Envelope V → M V ConsumeResult
  unfolding read_array push_members
  on_conversation_created env = do
    let p = env.payload
    members ← read_array p "memberIds"
    elim members [ none ↦ pure nack_drop | some vs ↦ do push_members p vs; pure ack ]

  unfoldable pub on_conversation_member_changed : Envelope V → M V ConsumeResult
  unfolding collect_array push_users get_uint64
  on_conversation_member_changed env = do
    let p = env.payload
    added ← collect_array p "addedIds" E.json.as_uint64 []
    removed ← collect_array p "removedIds" E.json.as_uint64 added
    users ← collect_array p "roleChanges" (λ v. get_uint64 E.json v "userId") removed
    push_users users "conversation.member_changed" p
    pure ack

  unfoldable pub on_envelope : Envelope V → M V ConsumeResult
  unfolding on_chat_msg_send on_chat_msg_replay on_chat_msg_recall on_friend_request
      on_friend_accept on_conversation_created on_conversation_member_changed
  on_envelope env =
      if env.type == "chat.msg.send"
      then on_chat_msg_send env
      else if env.type == "chat.msg.replay"
      then on_chat_msg_replay env
      else if env.type == "chat.msg.recall"
      then on_chat_msg_recall env
      else if env.type == "chat.friend.request"
      then on_friend_request env
      else if env.type == "chat.friend.accept"
      then on_friend_accept env
      else if env.type == "chat.conversation.created"
      then on_conversation_created env
      else if env.type == "chat.conversation.member_changed"
      then on_conversation_member_changed env
      else pure ack
