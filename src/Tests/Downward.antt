-- ===== src/Tests/Downward.antt =====
-- A message that comes through the broker for a phone and for the laptop that sent it.
use flz_chat.Common.{
  ◌≡◌, refl, ◌&&◌, ◌||◌, not, ◌==◌, true, false, [], ◌∷◌, ◌++◌, some, pos, ◌+ℤ◌, Among, inl, lookup,
  insert, nat_eq, string_eq,
}
use flz_chat.Json.Read.{get_string, get_int64, get_uint64}
use flz_chat.Json.Values.{Json, text, number, object, empty, field, values}
use flz_chat.World.{Env, sent as frame_sent}
use flz_chat.Protocol.Send.{frame_text}
use flz_chat.Session.Registry.{get_by_user}
use flz_chat.Dispatch.Pending.{PendingSend, take_pending}
use flz_chat.Dispatch.MqToWs.{response, on_envelope}
use flz_chat.Util.Lru.{try_mark, new}
use flz_chat.Mq.Envelope.{from_string}
use flz_chat.Mq.AmqpClient.Views.{acked}
use flz_chat.Mq.Consumer.{MqConsumer, ConsumerEnv, first_cache, on_delivery}
use flz_chat.Mq.Consumer.Deliveries.{settled}
use flz_chat.Dispatch.MqToWs.IdSet.{contains}
use flz_chat.Delivery.Jobs.{run_scheduled}
use flz_chat.Delivery.Downward.{
  IsTaken, IsReadable, on_delivery-reaches_receivers, on_delivery-answers_sender,
}
use flz_chat.Tests.Handlers.{service, phone}
use flz_chat.Tests.Pushes.{receivers, message, ids, laptop, sent, sent-IsOwned}
use flz_chat.Tests.Consumer as Consumer

abbrev body : Json
body = object (
    field "msgId" (text "e-2") (
      field "version" (number (pos 1))
        (field "type" (text "chat.msg.send") (field "payload" message.payload empty))))

abbrev process : Env Json
process = record (service.env) { json = values (λ _. some body) (λ _. "{}") }

abbrev broker : ConsumerEnv Json
broker = record Consumer.broker { env = process; handler = some (on_envelope process) }

abbrev consumer : MqConsumer Json
consumer = record {
  running = true;
  client = Consumer.client;
  cache = first_cache;
  world = sent;
  late = [];
}

taken : IsTaken broker (pos 100) Consumer.delivery message consumer
unfolding from_string values try_mark new lookup insert ◌+ℤ◌
taken = record {
  cache = record first_cache {
    lru = record { id = 0; key = "e-2"; expire_at_ms = pos 86400100 } ∷ [];
    index = ("e-2", 0) ∷ [];
    next_id = 1;
  };
  read = refl;
  type = refl;
  fresh = refl;
  handler = refl;
  in_time = refl;
  owned = sent-IsOwned;
}

readable : IsReadable broker message "m1" (pos 41) 8 ids
unfolding get_string get_int64 get_uint64 values
readable = record {
  array = receivers;
  client_msg_id = refl;
  message = refl;
  sender = refl;
  has_receivers = refl;
  receivers = refl;
  listed = refl;
  ids = (refl, (refl, (refl, (refl, tt))));
}

is_connected : Among (record phone { io_manager = some 4 }) (get_by_user 7 consumer.world.registry)
unfolding get_by_user lookup
is_connected = inl refl

is_listed :
    (contains phone.user_id ids && not (phone.user_id == 0 || phone.user_id == laptop.user_id))
    ≡ true
unfolding contains
is_listed = refl

on_delivery-reaches_receivers_example :
    (c' : MqConsumer Json) × (on_delivery broker (pos 100) Consumer.delivery consumer ≡ some c')
    × (settled c' ≡ settled consumer ++ acked 1 ∷ [])
    × Among
        (frame_sent 1 (frame_text process "msg.new" message.payload false (pos 0)))
        (run_scheduled process c'.world).net
on_delivery-reaches_receivers_example =
    on_delivery-reaches_receivers broker (pos 100) Consumer.delivery message "m1" (pos 41) 8 ids
      consumer 7 (record phone { io_manager = some 4 }) 1 taken readable is_listed is_connected refl

abbrev waiting : PendingSend
waiting = record {
  sender_user_id = 8;
  sender_device_id = "laptop";
  created_ms = pos 6900;
  has_seq = true;
  seq = pos 3;
}

is_pending : (take_pending "m1" consumer.world.pending).0 ≡ some waiting
unfolding take_pending lookup
is_pending = refl

sends : Among laptop (get_by_user 8 consumer.world.registry)
unfolding get_by_user lookup
sends = inl refl

on_delivery-answers_sender_example :
    (c' : MqConsumer Json) × (on_delivery broker (pos 100) Consumer.delivery consumer ≡ some c')
    × (settled c' ≡ settled consumer ++ acked 1 ∷ [])
    × Among
        (frame_sent 2
          (frame_text process "msg.send.resp" (response process "m1" (pos 41)) true (pos 3)))
        (run_scheduled process c'.world).net
on_delivery-answers_sender_example =
    on_delivery-answers_sender broker (pos 100) Consumer.delivery message "m1" (pos 41) 8 ids
      consumer waiting laptop 2 taken readable is_pending sends refl refl
