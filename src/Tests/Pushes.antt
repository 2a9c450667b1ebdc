-- ===== src/Tests/Pushes.antt =====
-- A message and a recall that come from the broker (chat/dispatch/mq_to_ws).
use flz_chat.Common.{
  ℕ, ◌≡◌, refl, not, ◌||◌, ◌&&◌, some, List, [], ◌∷◌, ◌==◌, nat_eq, string_eq, pos, true, ◌++◌,
  Bool-cases, inl, inr, lookup,
}
use flz_chat.Json.Read.{get_string, get_int64, get_uint64}
use flz_chat.Json.Values.{Json, text, number, object, array, item, end, field, empty, values}
use flz_chat.World.{World, for_each}
use flz_chat.Mq.Envelope.{Envelope}
use flz_chat.Dispatch.MqToWs.{
  ack, push_to_user, response, on_chat_msg_send, on_chat_msg_recall, on_conversation_member_changed,
}
use flz_chat.Dispatch.MqToWs.IdSet.{contains, HasNoRepeats}
use flz_chat.Dispatch.MqToWs.Frames.{IsOwned, concat_map, frames_for, answers_for, measured}
use flz_chat.Dispatch.MqToWs.Scheduled.{on_chat_msg_send_frames}
use flz_chat.Session.Conn.{OnlineConn}
use flz_chat.Session.Registry.{get_by_user}
use flz_chat.Dispatch.Pending.{take_pending}
use flz_chat.Dispatch.MqToWs.Recall.{on_chat_msg_recall_lem}
use flz_chat.Dispatch.MqToWs.Members.{absent, listed, on_conversation_member_changed_lem}
use flz_chat.Tests.Handlers.{service, phone, world}

-- The receivers are 7 twice, 0 and the sender 8.
abbrev pub receivers : Json
receivers = array (
    item (number (pos 7))
      (item (number (pos 0)) (item (number (pos 8)) (item (number (pos 7)) end))))

abbrev pub message : Envelope Json
message = record {
  msg_id = "e-2";
  version = pos 1;
  occurred_at = "";
  source = "";
  type = "chat.msg.send";
  payload = object (
      field "clientMsgId" (text "m1") (
        field "messageId" (number (pos 41)) (
          field "senderId" (number (pos 8))
            (field "operatorId" (number (pos 8)) (field "receivers" receivers empty)))));
}

abbrev pub ids : List ℕ
ids = 7 ∷ 0 ∷ 8 ∷ 7 ∷ []

-- The user 8 sent from a laptop and has a tablet too; all connections have an IOManager.
abbrev pub laptop : OnlineConn
laptop = record phone { user_id = 8; device_id = "laptop"; session = some 2; io_manager = some 5 }

abbrev tablet : OnlineConn
tablet = record laptop { device_id = "tablet"; session = some 3; io_manager = some 6 }

abbrev pub sent : World Json
sent = record world {
  registry = record {
    conns =
        (7, ("phone", record phone { io_manager = some 4 }) ∷ [])
        ∷ (8, ("laptop", laptop) ∷ ("tablet", tablet) ∷ [])
        ∷ [];
  };
  pending =
      (
        "m1",
        record {
          sender_user_id = 8;
          sender_device_id = "laptop";
          created_ms = pos 6900;
          has_seq = true;
          seq = pos 3;
        },
      )
      ∷ [];
}

pub sent-IsOwned : IsOwned sent.registry
unfolding get_by_user lookup
sent-IsOwned u = elim (Bool-cases (7 == u)) [
  | inl e ↦ rw (get_by_user, lookup, e) ((4, refl), tt)
  | inr e ↦ elim (Bool-cases (8 == u)) [
    | inl f ↦ rw (get_by_user, lookup, e, f) ((5, refl), ((6, refl), tt))
    | inr f ↦ rw (get_by_user, lookup, e, f) tt
  ]
]

on_chat_msg_send_frames_example :
    let p = message.payload in
    let (pending, rest) = take_pending "m1" sent.pending in
    let resp = response service.env "m1" (pos 41) in
    (l : List ℕ) × (on_chat_msg_send service.env message sent ≡ (
      some ack,
      record sent {
        pending = rest;
        metrics = measured service.env.now_ms pending sent.metrics;
        scheduled =
            (sent.scheduled ++ answers_for sent.registry pending 8 resp p)
            ++ concat_map (frames_for sent.registry "msg.new" p) l;
      },
    ))
    × HasNoRepeats l
    × ((u : ℕ) → contains u l ≡ (contains u ids && not (u == 0 || u == 8)))
unfolding get_string get_int64 get_uint64 values
on_chat_msg_send_frames_example =
    on_chat_msg_send_frames service.env message "m1" (pos 41) 8 receivers ids sent refl refl refl
      refl refl refl (refl, (refl, (refl, (refl, tt)))) sent-IsOwned

on_chat_msg_recall_lem_example :
    (l : List ℕ) × (on_chat_msg_recall service.env message world ≡ (
      some ack,
      (for_each l (λ uid. push_to_user service.env uid "msg.recall" message.payload) world).1,
    ))
    × HasNoRepeats l
    × ((u : ℕ) → contains u l ≡ ((contains u ids || u == 8) && not (u == 0)))
unfolding get_uint64 values
on_chat_msg_recall_lem_example =
    on_chat_msg_recall_lem service.env message 8 receivers ids world refl refl refl refl
      (refl, (refl, (refl, (refl, tt))))

-- Two users were added and one got another role; the event has no users who were removed.
abbrev change : Envelope Json
change = record message {
  type = "conversation.member_changed";
  payload = object (
      field "addedIds" (array (item (number (pos 9)) (item (number (pos 7)) end))) (
        field "roleChanges" (array (item (object (field "userId" (number (pos 7)) empty)) end))
          empty));
}

abbrev added : List ℕ
added = 9 ∷ 7 ∷ []

abbrev removed : List ℕ
removed = []

abbrev changed : List ℕ
changed = 7 ∷ []

on_conversation_member_changed_lem_example :
    (l : List ℕ) × (on_conversation_member_changed service.env change sent ≡ (
      some ack,
      (for_each l
          (λ uid. push_to_user service.env uid "conversation.member_changed" change.payload)
          sent).1,
    ))
    × HasNoRepeats l
    × ((u : ℕ)
        → contains u l
          ≡ ((contains u added || contains u removed || contains u changed) && not (u == 0)))
unfolding get_uint64 values
on_conversation_member_changed_lem_example =
    on_conversation_member_changed_lem service.env change added removed changed sent
      (listed (array (item (number (pos 9)) (item (number (pos 7)) end))) added refl refl refl
        (refl, (refl, tt)))
      (absent refl)
      (listed (array (item (object (field "userId" (number (pos 7)) empty)) end)) changed refl refl
        refl (refl, tt))
