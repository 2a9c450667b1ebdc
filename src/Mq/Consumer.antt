-- ===== src/Mq/Consumer.antt =====
-- chat/mq/consumer: the thread that takes messages from the broker.
--
-- The library, the handler and the scheduler are parameters. A loop of the thread is a step on its
-- state; `none` is the end of the thread by an exception that nothing catches, or a fault in the
-- cache of ids.
pub mod Deliveries
pub mod Redelivery
pub mod Rounds
pub mod Lifecycle
pub mod Handled
use mathlib.Core.Option
use flz_chat.Common.{
  ℕ, ℤ, pos, ◌*ℤ◌, leb_ℤ, Bool, true, false, not, ◌&&◌, String, Option, none, some, List, [], ◌∷◌,
  ◌++◌, Outcome, returned, failed, thrown, is_blank, to_u16, if◌then◌else◌,
}
use flz_chat.Metrics.{inc_mq_consume, inc_mq_reconnect}
use flz_chat.World.{World, Env, M}
use flz_chat.Util.Lru.{LruIdempotencyCache, new, try_mark}
use flz_chat.Mq.Envelope.{Envelope, from_string}
use flz_chat.Mq.Rabbit.{Rabbit}
use flz_chat.Mq.AmqpClient.{
  AmqpClient, Action, ◌>>=◌, ◌>>◌, is_returned, or_close, connect, open_channel, close,
}
use flz_chat.Mq.AmqpClient.Declare.{declare_for_consumer}
use flz_chat.Mq.AmqpClient.Messages.{
  AmqpDelivery, start_consume, ack as ack_delivery, nack, consume,
}
use flz_chat.Mq.AmqpClient.Views.{Settlement, acked, nacked}
use flz_chat.Dispatch.MqToWs.{ConsumeResult, ack, nack_requeue, nack_drop}

-- `m_running`, `m_client`, `m_idempotency`, `m_scheduler` and `m_handler`, the process, and the
-- handlers that were scheduled and have not run.
pub record MqConsumer (V : Type 0) : Type 0 where
  pub running : Bool
  pub client : AmqpClient
  pub cache : LruIdempotencyCache
  pub world : World V
  pub late : List (Envelope V)

-- The libraries; the handler that `Start` was given; whether there is a scheduler, and whether it has
-- run a handler when five seconds are over.
pub record ConsumerEnv (V : Type 0) : Type 0 where
  pub env : Env V
  pub rabbit : Rabbit
  pub handler : Option (Envelope V → M V ConsumeResult)
  pub has_scheduler : Bool
  pub in_time : World V → Envelope V → Bool

-- The cache of the constructor: a day for the last hundred thousand ids.
abbrev pub first_cache : LruIdempotencyCache
first_cache = new 100000 (pos 86400000)

abbrev pub min_ℤ : ℤ → ℤ → ℤ
min_ℤ a b = if leb_ℤ a b then a else b

module _ {V : Type 0} where
  unfoldable pub count : String → String → MqConsumer V → MqConsumer V
  count label result c = record c {
    world = record c.world { metrics = inc_mq_consume label result c.world.metrics };
  }

  -- `m_client.Close()`
  unfoldable pub disconnect : MqConsumer V → MqConsumer V
  unfolding close
  disconnect c = record c { client = close c.client }

  -- `Start`, whose thread then runs rounds.
  unfoldable pub start : MqConsumer V → MqConsumer V
  start c = if c.running then c else record c { running = true }

  -- `Stop`, after the thread has ended its round.
  unfoldable pub stop : MqConsumer V → MqConsumer V
  unfolding close
  stop c = if c.running then record c { running = false; client = close c.client } else c

module _ {V : Type 0} (E : ConsumerEnv V) where
  -- The steps of `EnsureConnected`.
  unfoldable pub attempt : Action (Unit {0})
  unfolding connect or_close open_channel declare_for_consumer start_consume
  attempt =
      let R = E.rabbit in
      let q = E.env.config.rabbitmq in
      (do
        connect R q
        or_close (open_channel R (to_u16 q.consumer_prefetch))
        or_close (declare_for_consumer R)
        or_close (start_consume R q.consumer_queue q.consumer_tag q.consumer_auto_ack))

  unfoldable pub ensure_connected : MqConsumer V → Bool × MqConsumer V
  unfolding attempt
  ensure_connected c =
      let (r, client) = attempt c.client in
      let c' : MqConsumer V = record c { client = client } in
      let counted : MqConsumer V = record c' {
        world = record c.world { metrics = inc_mq_reconnect "consumer" c.world.metrics };
      } in
      if c.client.connected
      then (true, c)
      else if is_returned r
      then (true, c')
      else (false, counted)

  -- `Ack` or `Nack`
  unfoldable pub answer : Settlement → Action (Unit {0})
  unfolding ack_delivery nack
  answer (acked tag) = ack_delivery E.rabbit tag
  answer (nacked tag requeue) = nack E.rabbit tag requeue

  unfoldable pub settle : Settlement → MqConsumer V → MqConsumer V
  unfolding answer
  settle s c = record c { client = (answer s c.client).1 }

  -- A settlement that closes the client if it fails.
  unfoldable pub settle_or_close : Settlement → MqConsumer V → MqConsumer V
  unfolding settle disconnect
  settle_or_close s c =
      if is_returned (answer s c.client).0 then settle s c else disconnect (settle s c)

  -- A handler that throws asks for the message again.
  abbrev pub result_of : Option ConsumeResult → ConsumeResult
  result_of r = Option.get_or r nack_requeue

  unfoldable pub dispatch_to_scheduler : Envelope V → MqConsumer V → ConsumeResult × MqConsumer V
  dispatch_to_scheduler env c = elim E.handler [
    | none ↦ (ack, c)
    | some h ↦
        if E.has_scheduler && not (E.in_time c.world env)
        then (nack_requeue, record c { late = c.late ++ env ∷ [] })
        else (result_of (h env c.world).0, record c { world = (h env c.world).1 })
  ]

  -- What the thread does with the result of the handler.
  unfoldable pub finish : AmqpDelivery → Envelope V → ConsumeResult → MqConsumer V → MqConsumer V
  unfolding count settle_or_close
  finish d env ack c = count env.type "ok" (settle_or_close (acked d.delivery_tag) c)
  finish d env nack_requeue c =
      count env.type "fail" (settle_or_close (nacked d.delivery_tag true) c)
  finish d env nack_drop c = count env.type "fail" (settle_or_close (nacked d.delivery_tag false) c)

  -- A message by whether its id is new.
  unfoldable pub on_marked : AmqpDelivery → Envelope V → Bool × MqConsumer V → MqConsumer V
  unfolding finish count settle dispatch_to_scheduler
  on_marked d env (false, c) = settle (acked d.delivery_tag) (count env.type "dup" c)
  on_marked d env (true, c) =
      let (result, c') = dispatch_to_scheduler env c in finish d env result c'

  unfoldable pub on_envelope_read :
      ℤ → AmqpDelivery → Envelope V → MqConsumer V → Option (MqConsumer V)
  unfolding on_marked
  on_envelope_read now_ms d env c = elim (try_mark c.cache env.msg_id now_ms) [
    | none ↦ none
    | some (fresh, cache) ↦ some (on_marked d env (fresh, record c { cache = cache }))
  ]

  unfoldable pub on_delivery : ℤ → AmqpDelivery → MqConsumer V → Option (MqConsumer V)
  unfolding on_envelope_read settle count
  on_delivery now_ms d c = elim (from_string E.env.json d.body) [
    | returned env ↦ on_envelope_read now_ms d env c
    | failed err ↦ some (settle (acked d.delivery_tag) (count d.routing_key "fail" c))
    | thrown ↦ none
  ]

  -- What a round does with what `Consume` gave, by whether the thread is still to run.
  unfoldable pub on_consumed :
      ℤ → Bool → Outcome AmqpDelivery → MqConsumer V → Option (MqConsumer V)
  unfolding on_delivery disconnect
  on_consumed now_ms false r c = some c
  on_consumed now_ms true (returned d) c = on_delivery now_ms d c
  on_consumed now_ms true (failed err) c = some (if is_blank err then c else disconnect c)
  on_consumed now_ms true thrown c = none

  -- What a round that is connected does.
  unfoldable pub take : ℤ → Bool → MqConsumer V → Option (MqConsumer V)
  unfolding on_consumed consume
  take now_ms keep_on c =
      let (r, client) = consume E.rabbit (pos 1000) c.client in
      on_consumed now_ms keep_on r (record c { client = client })

  unfoldable pub on_ensured : ℤ → Bool → ℤ → Bool × MqConsumer V → Option (MqConsumer V × ℤ)
  unfolding take
  on_ensured now_ms keep_on backoff (true, c) = elim (take now_ms keep_on c) [
    | none ↦ none
    | some next ↦ some (next, E.env.config.rabbitmq.reconnect_initial_backoff_ms)
  ]
  on_ensured now_ms keep_on backoff (false, c) =
      some (c, min_ℤ E.env.config.rabbitmq.reconnect_max_backoff_ms (backoff *ℤ pos 2))

  -- One round of the loop of `Run`, with the time to wait before the next attempt to connect, by
  -- whether `m_running` still holds after `Consume`.
  unfoldable pub round : ℤ → Bool → MqConsumer V × ℤ → Option (MqConsumer V × ℤ)
  unfolding ensure_connected on_ensured
  round now_ms keep_on (c, backoff) = on_ensured now_ms keep_on backoff (ensure_connected c)
