-- ===== src/Tests/Startup.antt =====
-- The module (chat/my_module.cc) made ready and unloaded.
use flz_chat.Common.{◌≡◌, false, [], string_eq}
use flz_chat.Json.Values.{Json}
use flz_chat.Mq.AmqpClient.Handles.{IsClosed}
use flz_chat.Mq.PublisherThread.{PublisherThread}
use flz_chat.Mq.PublisherThread
use flz_chat.Mq.PublisherThread.Lifecycle as Publishing
use flz_chat.Mq.Consumer.{MqConsumer}
use flz_chat.Mq.Consumer
use flz_chat.Mq.Consumer.Lifecycle as Consuming
use flz_chat.MyModule.Startup.{Process, on_unload}
use flz_chat.MyModule.Ready.{on_unload-IsClosed}
use flz_chat.Tests.Handlers.{world}
use flz_chat.Tests.Consumer.{rabbit, process, broker}
use flz_chat.Tests.Background.{busy}
use flz_chat.Tests.Client.{idle, waiting}

abbrev loaded : Process Json
loaded = record { servlets = []; timers = []; publisher = waiting; consumer = idle }

abbrev running : Process Json
running = record loaded {
  publisher = PublisherThread.start waiting;
  consumer = Consumer.start idle;
}

on_unload-IsClosed_example :
    let p' = (on_unload running).1 in
    (p'.publisher.running ≡ false)
    × IsClosed p'.publisher.client
    × (p'.consumer.running ≡ false)
    × IsClosed p'.consumer.client
on_unload-IsClosed_example =
    on_unload-IsClosed process rabbit broker running
      (Publishing.next (Publishing.first busy) (Publishing.started waiting))
      (Consuming.next (Consuming.first world) (Consuming.started idle))
