-- ===== src/Dispatch/MqToWs/Sending.antt =====
-- A message that was sent, from the broker to the clients: `on_chat_msg_send` as a whole.
use flz_chat.Common.{
  ℕ, ℤ, pos, String, ◌≡◌, refl, ◌∙◌, ap, inl, inr, Bool, true, false, not, ◌||◌, ◌&&◌, Option, none,
  some, List, [], ◌∷◌, ◌==◌, nat_eq, string_eq, Bool-cases, Option-cases,
}
use flz_chat.Json.Read.{get_string, get_int64, get_uint64}
use flz_chat.World.{World, Env, M, continue, for_each}
use flz_chat.Protocol.Send.{send_frame, send_text}
use flz_chat.Session.Conn.{OnlineConn}
use flz_chat.Dispatch.Pending.{PendingSend, take_pending}
use flz_chat.Mq.Envelope.{Envelope}
use flz_chat.Dispatch.MqToWs.{
  ack, deliver, schedule, push_to_conn, push_to_user, read_array, response, answer_conn,
  answer_sender, push_receivers, take, on_chat_msg_send,
}
use flz_chat.Dispatch.MqToWs.IdSet.{contains, HasNoRepeats}
use flz_chat.Dispatch.MqToWs.Receivers.{Reads, push_receivers_lem}

-- An action that throws nothing.
abbrev pub IsTotal : {V : Type 0} → M V (Unit {0}) → Type 0
IsTotal m = (w : World _) → (m w).0 ≡ some tt

pub for_each-IsTotal :
    {V A : Type 0} (xs : List A) (body : A → M V (Unit {0}))
    → ((a : A) → IsTotal (body a))
    → IsTotal (for_each xs body)
unfolding for_each continue
for_each-IsTotal [] body t w = refl
for_each-IsTotal (x ∷ xs) body t w = rw (t x w, continue) (for_each-IsTotal xs body t (body x w).1)

module _ {V : Type 0} (E : Env V) where
  deliver-IsTotal :
      (conn : OnlineConn) (type : String) (payload : V) (has_seq : Bool) (seq : ℤ)
      → IsTotal (deliver E conn type payload has_seq seq)
  unfolding deliver send_frame send_text continue
  deliver-IsTotal conn type payload has_seq seq w = elim (Option-cases conn.session) [
    | inl e ↦ rw (e, send_frame) refl
    | inr (s, e) ↦ rw (e, send_frame) refl
  ]

  push_to_conn-IsTotal :
      (conn : OnlineConn) (type : String) (payload : V) (has_seq : Bool) (seq : ℤ)
      → IsTotal (push_to_conn E conn type payload has_seq seq)
  unfolding push_to_conn schedule
  push_to_conn-IsTotal conn type payload has_seq seq w = elim (Option-cases conn.session) [
    | inl e ↦ rw (e, push_to_conn) refl
    | inr (s, e) ↦ elim (Option-cases conn.io_manager) [
      | inl f ↦ rw (e, push_to_conn, f) (deliver-IsTotal conn type payload has_seq seq w)
      | inr (iom, f) ↦ rw (e, push_to_conn, f) refl
    ]
  ]

  pub push_to_user-IsTotal :
      (uid : ℕ) (type : String) (payload : V) → IsTotal (push_to_user E uid type payload)
  unfolding push_to_user
  push_to_user-IsTotal uid type payload w =
      for_each-IsTotal _ _ (λ conn. push_to_conn-IsTotal conn type payload false (pos 0)) w

  answer_conn-IsTotal :
      (pending : PendingSend) (resp p : V) (conn : OnlineConn)
      → IsTotal (answer_conn E pending resp p conn)
  unfolding answer_conn
  answer_conn-IsTotal pending resp p conn w =
      elim (Bool-cases (conn.device_id == pending.sender_device_id)) [
        | inl e ↦
            rw e (push_to_conn-IsTotal conn "msg.send.resp" resp pending.has_seq pending.seq w)
        | inr e ↦ rw e (push_to_conn-IsTotal conn "msg.new" p false (pos 0) w)
      ]

  answer_sender-IsTotal :
      (pending : Option PendingSend) (sender_id : ℕ) (resp p : V)
      → IsTotal (answer_sender E pending sender_id resp p)
  unfolding answer_sender
  answer_sender-IsTotal none sender_id resp p w = refl
  answer_sender-IsTotal (some pending) sender_id resp p w =
      for_each-IsTotal _ _ (answer_conn-IsTotal pending resp p) _

  -- The process after the answer to the sender of a message.
  unfoldable pub answered : String → ℤ → ℕ → V → World V → World V
  answered id message_id sender_id p w =
      let (pending, rest) = take_pending id w.pending in
      (answer_sender E pending sender_id (response E id message_id) p
        (record w { pending = rest })).1

  -- The handler of a message whose fields can be read throws nothing and acknowledges it: the pending
  -- send is taken, the sender is answered, and then the message is pushed, one user after the other, to
  -- each receiver who is neither 0 nor the sender, once however often the user stands among the
  -- receivers, and to nobody else.
  pub on_chat_msg_send_lem :
      (env : Envelope V) (id : String) (message_id : ℤ) (sender_id : ℕ) (array : V) (us : List ℕ)
      (w : World V)
      → get_string E.json env.payload "clientMsgId" ≡ some id
      → get_int64 E.json env.payload "messageId" ≡ some message_id
      → get_uint64 E.json env.payload "senderId" ≡ some sender_id
      → E.json.is_member env.payload "receivers" ≡ some true
      → E.json.at env.payload "receivers" ≡ some array
      → E.json.is_array array ≡ true
      → Reads E (E.json.items array) us
      → (l : List ℕ) × (on_chat_msg_send E env w ≡ (
        some ack,
        (for_each l
            (λ uid. push_to_user E uid "msg.new" env.payload)
            (answered id message_id sender_id env.payload w)).1,
      ))
        × HasNoRepeats l
        × ((u : ℕ) → contains u l ≡ (contains u us && not (u == 0 || u == sender_id)))
  unfolding on_chat_msg_send answered take read_array continue
  on_chat_msg_send_lem env id message_id sender_id array us w a b c d e f r =
      let p = env.payload in
      let (pending, rest) = take_pending id w.pending in
      let w' = answered id message_id sender_id p w in
      let (l, same, once, exact) = push_receivers_lem E sender_id p (E.json.items array) us w' r in
      let total : (push_receivers E sender_id p (E.json.items array) [] w').0 ≡ some tt =
        ap (λ (x : Option (Unit {0}) × World V). x.0) same
        ∙ for_each-IsTotal l _ (λ uid. push_to_user-IsTotal uid "msg.new" p) w' in
      (
        l,
        rw
            (
              a,
              b,
              c,
              answer_sender-IsTotal pending sender_id (response E id message_id) p
                  (record w { pending = rest }),
              d,
              e,
              f,
              total,
              same,
            )
            refl,
        once,
        exact,
      )
