-- ===== src/Tests/Client.antt =====
-- The client of chat/mq/amqp_client and the life of its two threads at concrete states.
use flz_chat.Common.{
  ◌≡◌, refl, inl, true, false, [], some, pos, ◌+ℤ◌, lookup, insert, nat_eq, string_eq,
}
use flz_chat.Json.Values.{Json, values}
use flz_chat.Util.Lru.{new, try_mark}
use flz_chat.Mq.Envelope.{from_string}
use flz_chat.Mq.AmqpClient.{AmqpClient, connect}
use flz_chat.Mq.AmqpClient
use flz_chat.Mq.AmqpClient.Messages.{consume}
use flz_chat.Mq.AmqpClient.Handles.{live, IsOpen}
use flz_chat.Mq.AmqpClient.Connecting.{Connects, connect-Connects}
use flz_chat.Mq.Consumer.{MqConsumer, first_cache}
use flz_chat.Mq.Consumer
use flz_chat.Mq.Consumer.Lifecycle as Consuming
use flz_chat.Mq.PublisherThread.{PublisherThread}
use flz_chat.Mq.PublisherThread
use flz_chat.Mq.PublisherThread.Lifecycle as Publishing
use flz_chat.Tests.Handlers.{world}
use flz_chat.Tests.Consumer.{rabbit, client, process, broker, marked, delivery, envelope}
use flz_chat.Tests.Background.{busy, stamp}

is_open : IsOpen client
unfolding live
is_open = record { handle = 1; conn = refl; connected = refl; traced = refl }

connect-Connects_example : Connects (connect rabbit process.config.rabbitmq client)
connect-Connects_example = connect-Connects rabbit process.config.rabbitmq client (inl is_open)

abbrev pub idle : MqConsumer Json
idle = record {
  running = false;
  client = AmqpClient.new;
  cache = first_cache;
  world = world;
  late = [];
}

-- The client after the connection and the first delivery.
abbrev served : AmqpClient
served = (consume rabbit (pos 1000) (Consumer.attempt broker AmqpClient.new).1).1

abbrev handled : MqConsumer Json
handled =
    Consumer.on_marked broker delivery envelope
      (true, record idle { running = true; client = served; cache = marked })

first_round :
    Consumer.round broker (pos 100) true (Consumer.start idle, pos 1000) ≡ some (handled, pos 1000)
unfolding Consumer.round Consumer.start consume from_string values try_mark new lookup insert ◌+ℤ◌
    AmqpClient.continue
first_round = refl

runs : (Consumer.start idle).running ≡ true
unfolding Consumer.start
runs = refl

consumer-IsManaged_example : Consuming.IsManaged broker (Consumer.stop handled)
consumer-IsManaged_example = Consuming.consumer-IsManaged broker (
    Consuming.next
      (Consuming.next (Consuming.next (Consuming.first world) (Consuming.started idle)) (
        Consuming.worked (pos 100) true (pos 1000) (pos 1000) (Consumer.start idle) handled runs
          first_round))
      (Consuming.stopped handled))

abbrev pub waiting : PublisherThread Json
waiting = record { running = false; client = AmqpClient.new; world = busy }

runs_too : (PublisherThread.start waiting).running ≡ true
unfolding PublisherThread.start
runs_too = refl

abbrev sent_one : PublisherThread Json
sent_one = (PublisherThread.round process rabbit stamp (PublisherThread.start waiting, pos 1000)).0

publisher-IsManaged_example : Publishing.IsManaged process rabbit (PublisherThread.stop sent_one)
publisher-IsManaged_example = Publishing.publisher-IsManaged process rabbit (
    Publishing.next
      (Publishing.next (Publishing.next (Publishing.first busy) (Publishing.started waiting))
        (Publishing.worked stamp (pos 1000) (PublisherThread.start waiting) runs_too))
      (Publishing.stopped sent_one))
