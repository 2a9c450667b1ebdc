-- ===== src/Tests/Consumer.antt =====
-- A friend request that comes through the broker (chat/mq/consumer), and comes again.
use flz_chat.Common.{
  ◌≡◌, refl, ◌≢◌, ◌<◌, true, false, [], ◌∷◌, ◌++◌, some, pos, ◌+ℤ◌, ◌<ℤ◌, lookup, insert, nat_eq,
  string_eq, returned, thrown, arith,
}
use flz_chat.Json.Values.{Json, text, number, object, empty, field, values}
use flz_chat.World.{Env, continue, for_each}
use flz_chat.Protocol.Send.{send_frame}
use flz_chat.Session.Registry.{get_by_user}
use flz_chat.Util.Lru.{LruIdempotencyCache, try_mark, new}
use flz_chat.Util.Lru.Invariant.{IsValid}
use flz_chat.Util.Lru.Keys.{find_key}
use flz_chat.Util.Lru.Window.{IsTimely}
use flz_chat.Mq.Envelope.{Envelope, from_string}
use flz_chat.Dispatch.MqToWs.{on_envelope}
use flz_chat.Mq.Rabbit.{Rabbit, normal, status_ok, new_connection, socket_new, socket_open, login}
use flz_chat.Mq.AmqpClient.{AmqpClient}
use flz_chat.Mq.AmqpClient
use flz_chat.Mq.AmqpClient.Messages.{AmqpDelivery}
use flz_chat.Mq.AmqpClient.Views.{Settlement, acked}
use flz_chat.Mq.Consumer.{MqConsumer, ConsumerEnv, first_cache, on_marked, on_delivery}
use flz_chat.Mq.Consumer.Deliveries.{settled, tag_of, on_delivery_settles}
use flz_chat.Mq.Consumer.Redelivery.{Meanwhile, delivered, nothing, on_delivery_again}
use flz_chat.Tests.Handlers.{service, world}

abbrev payload : Json
payload = object (field "toUserId" (number (pos 7)) empty)

abbrev message : Json
message = object (
    field "msgId" (text "e-1") (
      field "version" (number (pos 1))
        (field "type" (text "chat.friend.request") (field "payload" payload empty))))

abbrev pub envelope : Envelope Json
envelope = record {
  msg_id = "e-1";
  version = pos 1;
  occurred_at = "";
  source = "";
  type = "chat.friend.request";
  payload = payload;
}

abbrev pub process : Env Json
process = record (service.env) { json = values (λ _. some message) (λ _. "{}") }

-- A broker that takes everything, and sends one message again and again.
abbrev pub rabbit : Rabbit
rabbit = record {
  new_connection = λ ks. some 1;
  socket_new = λ ks. some 2;
  socket_open = λ ks host port. status_ok;
  login = λ ks l. normal;
  rpc_reply = λ ks. normal;
  status = λ ks m. status_ok;
  consume_message = λ ks. (
    normal,
    record {
      delivery_tag = 1;
      routing_key = some "chat.friend";
      body = some "{}";
      message_id_flag = true;
      message_id = some "e-1";
    },
  );
  error_string2 = λ status. "error";
}

-- A client that is logged in on a connection.
abbrev pub client : AmqpClient
client = record {
  conn = some 1;
  socket = some 2;
  channel_id = 1;
  connected = true;
  calls =
      login (some 1) (AmqpClient.credentials process.config.rabbitmq) normal
      ∷ socket_open (some 2) "127.0.0.1" (pos 5672)
      ∷ socket_new (some 1) (some 2)
      ∷ new_connection (some 1)
      ∷ [];
}

-- No scheduler.
abbrev pub broker : ConsumerEnv Json
broker = record {
  env = process;
  rabbit = rabbit;
  handler = some (on_envelope process);
  has_scheduler = false;
  in_time = λ w env. true;
}

abbrev pub delivery : AmqpDelivery
delivery = record { delivery_tag = 1; routing_key = "chat.friend"; body = "{}"; message_id = "e-1" }

abbrev again : AmqpDelivery
again = record delivery { delivery_tag = 2 }

abbrev consumer : MqConsumer Json
consumer = record { running = true; client = client; cache = first_cache; world = world; late = [] }

abbrev pub marked : LruIdempotencyCache
marked = record first_cache {
  lru = record { id = 0; key = "e-1"; expire_at_ms = pos 86400100 } ∷ [];
  index = ("e-1", 0) ∷ [];
  next_id = 1;
}

abbrev after_first : MqConsumer Json
after_first = on_marked broker delivery envelope (true, record consumer { cache = marked })

cache-IsTimely : IsTimely first_cache (pos 0)
unfolding new lookup find_key
cache-IsTimely = record {
  valid = record {
    synced = record { linked = λ k. refl; distinct = tt; ascending = omega arith };
    bounded = omega arith;
  };
  sorted = tt;
  recent = tt;
  ttl_nonneg = omega arith;
}

reads : from_string process.json "{}" ≡ returned envelope
unfolding from_string values
reads = refl

reads_well : from_string process.json delivery.body ≢ thrown
reads_well h = ground (arith, reads, h)

is_new : try_mark first_cache envelope.msg_id (pos 100) ≡ some (true, marked)
unfolding try_mark new lookup insert ◌+ℤ◌
is_new = refl

first : on_delivery broker (pos 100) delivery consumer ≡ some after_first
unfolding on_delivery from_string values try_mark new lookup insert ◌+ℤ◌
first = refl

on_delivery_settles_example :
    (c' : MqConsumer Json) × (on_delivery broker (pos 100) delivery consumer ≡ some c')
    × (s : Settlement) × (tag_of s ≡ 1)
    × (settled c' ≡ settled consumer ++ s ∷ [])
    × IsValid c'.cache
on_delivery_settles_example =
    on_delivery_settles broker (pos 100) delivery consumer cache-IsTimely.valid reads_well

in_time : pos 5000 <ℤ pos 100 +ℤ first_cache.ttl_ms
unfolding new ◌+ℤ◌
in_time = omega arith

room : 1 < first_cache.capacity
unfolding new
room = omega arith

-- In between it comes once more, with another tag.
abbrev between : AmqpDelivery
between = record delivery { delivery_tag = 3 }

abbrev after_second : MqConsumer Json
after_second = on_marked broker between envelope (false, after_first)

second : on_delivery broker (pos 200) between after_first ≡ some after_second
unfolding on_delivery from_string values try_mark new lookup insert ◌+ℤ◌ on_envelope continue
    for_each get_by_user send_frame
second = refl

meanwhile : Meanwhile broker (pos 100) 1 (pos 5000) after_first after_second
meanwhile =
    delivered (pos 200) between after_second (omega arith) second
      (nothing (pos 200) (pos 5000) after_second (omega arith))

on_delivery_again_example :
    (c₃ : MqConsumer Json) × (on_delivery broker (pos 5000) again after_second ≡ some c₃)
    × (settled c₃ ≡ settled after_second ++ acked 2 ∷ [])
    × (c₃.late ≡ after_second.late)
    × (record (c₃.world) { metrics = after_second.world.metrics } ≡ after_second.world)
on_delivery_again_example =
    on_delivery_again broker (pos 0) (pos 100) (pos 5000) 1 delivery again envelope marked consumer
      after_first after_second (omega arith) in_time room cache-IsTimely reads refl is_new first
      meanwhile
