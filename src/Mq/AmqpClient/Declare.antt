-- ===== src/Mq/AmqpClient/Declare.antt =====
-- The exchanges, queues and bindings that chat/mq/amqp_client and chat/mq/topology declare.
use flz_chat.Common.{pos, String, List, [], ◌∷◌, true, false}
use flz_chat.Mq.Rabbit.{FieldValue, utf8, i32, exchange_declare, queue_declare, queue_bind, Rabbit}
use flz_chat.Mq.AmqpClient.{Action, ◌>>◌, rpc}

abbrev delivery_args : List (String × FieldValue)
delivery_args =
    ("x-dead-letter-exchange", utf8 "chat.dlx") ∷ ("x-message-ttl", i32 (pos 86400000)) ∷ []

module _ (R : Rabbit) where
  -- A durable exchange.
  abbrev exchange : String → String → String → Action (Unit {0})
  exchange name kind = rpc R (exchange_declare name kind false true false false [])

  -- A durable queue.
  abbrev queue : String → List (String × FieldValue) → String → Action (Unit {0})
  queue name args = rpc R (queue_declare name false true false false args)

  abbrev bind : String → String → String → String → Action (Unit {0})
  bind name exchange_name key = rpc R (queue_bind name exchange_name key [])

  unfoldable pub declare_chat_topology : Action (Unit {0})
  declare_chat_topology = do
    exchange "chat.exchange" "topic" "declare chat.exchange"
    exchange "chat.dlx" "fanout" "declare chat.dlx"
    queue "chat.delivery.queue" delivery_args "declare chat.delivery.queue"
    bind "chat.delivery.queue" "chat.exchange" "chat.#" "bind chat.delivery.queue"
    queue "chat.dlq" [] "declare chat.dlq"
    bind "chat.dlq" "chat.dlx" "" "bind chat.dlq"

  unfoldable pub declare_business_exchange : Action (Unit {0})
  declare_business_exchange = exchange "business.exchange" "topic" "declare business.exchange"

  -- Topology
  unfoldable pub declare_for_publisher : Action (Unit {0})
  unfolding declare_business_exchange declare_chat_topology
  declare_for_publisher = do declare_business_exchange; declare_chat_topology

  unfoldable pub declare_for_consumer : Action (Unit {0})
  unfolding declare_chat_topology
  declare_for_consumer = declare_chat_topology
