-- ===== src/Mq/PublisherThread.antt =====
-- The thread side of chat/mq/publisher: the loop that takes tasks from the queue to the broker, and
-- the start and stop of its thread. The ids of Uuid::V4 and the times of Iso8601Now are parameters.
pub mod Order
pub mod Lifecycle
pub mod Lossless
pub mod Unconnected
use flz_chat.Common.{
  ℕ, ℤ, pos, ◌*ℤ◌, leb_ℤ, Bool, true, false, String, List, [], ◌∷◌, if◌then◌else◌,
}
use flz_chat.Metrics.{inc_mq_publish, inc_mq_reconnect}
use flz_chat.World.{World, Env, Task}
use flz_chat.Mq.Rabbit.{Rabbit}
use flz_chat.Mq.AmqpClient.{
  AmqpClient, Action, ◌>>=◌, ◌>>◌, is_returned, or_close, connect, open_channel, close,
}
use flz_chat.Mq.AmqpClient.Declare.{declare_for_publisher}
use flz_chat.Mq.AmqpClient.Messages.{publish}
use flz_chat.Mq.Envelope.{build, to_string}
use flz_chat.Mq.Consumer.{min_ℤ}

-- `m_running`, `m_client`, and the process, which has `m_queue`.
pub record PublisherThread (V : Type 0) : Type 0 where
  pub running : Bool
  pub client : AmqpClient
  pub world : World V

-- The id and the time of an envelope.
pub record Stamp : Type 0 where
  pub uuid : String
  pub iso_now : String

module _ {V : Type 0} (E : Env V) (R : Rabbit) where
  -- `IncMqPublish`
  unfoldable pub count : Task V → String → PublisherThread V → PublisherThread V
  count t result p = record p {
    world = record p.world { metrics = inc_mq_publish t.routing_key result p.world.metrics };
  }

  -- The steps of `EnsureConnected`.
  unfoldable pub attempt : Action (Unit {0})
  unfolding connect or_close open_channel declare_for_publisher
  attempt = do
    connect R E.config.rabbitmq
    or_close (open_channel R 0)
    or_close (declare_for_publisher R)

  unfoldable pub ensure_connected : PublisherThread V → Bool × PublisherThread V
  unfolding attempt
  ensure_connected p =
      let (r, c) = attempt p.client in
      let p' : PublisherThread V = record p { client = c } in
      let counted : PublisherThread V = record p' {
        world = record p.world { metrics = inc_mq_reconnect "publisher" p.world.metrics };
      } in
      if p.client.connected
      then (true, p)
      else if is_returned r
      then (true, p')
      else (false, counted)

  -- `Publish` of a task on a connected client.
  unfoldable pub send : Stamp → Task V → PublisherThread V → PublisherThread V
  unfolding count publish close
  send s t p =
      let env = build E.json s.uuid s.iso_now "chat" t.routing_key t.payload in
      let body = to_string E.json env in
      let (r, c) =
        publish R "business.exchange" t.routing_key body t.priority env.msg_id p.client in
      if is_returned r
      then count t "ok" (record p { client = c })
      else record (count t "fail" (record p { client = c })) { client = close c }

  -- What the loop does with a task by the answer of `EnsureConnected`, and the time to wait that it
  -- leaves.
  unfoldable pub on_ensured : Stamp → Task V → ℤ → Bool × PublisherThread V → PublisherThread V × ℤ
  unfolding send count
  on_ensured s t backoff (true, p) = (send s t p, E.config.rabbitmq.reconnect_initial_backoff_ms)
  on_ensured s t backoff (false, p) =
      (count t "fail" p, min_ℤ E.config.rabbitmq.reconnect_max_backoff_ms (backoff *ℤ pos 2))

  -- What the loop does with the task that it took from the queue.
  unfoldable pub on_task : Stamp → Task V → ℤ → PublisherThread V → PublisherThread V × ℤ
  unfolding ensure_connected on_ensured
  on_task s t backoff p = on_ensured s t backoff (ensure_connected p)

  -- A round of `Run` at what stands in the queue.
  unfoldable pub take_task : Stamp → List (Task V) → ℤ → PublisherThread V → PublisherThread V × ℤ
  unfolding on_task
  take_task s [] backoff p = (p, backoff)
  take_task s (t ∷ ts) backoff p =
      on_task s t backoff (record p { world = record p.world { queue = ts } })

  unfoldable pub round : Stamp → PublisherThread V × ℤ → PublisherThread V × ℤ
  unfolding take_task
  round s (p, backoff) = take_task s p.world.queue backoff p

module _ {V : Type 0} where
  -- `Start`, whose thread then runs rounds.
  unfoldable pub start : PublisherThread V → PublisherThread V
  start p = if p.running then p else record p { running = true }

  -- `Stop`, after the thread has ended its round.
  unfoldable pub stop : PublisherThread V → PublisherThread V
  unfolding close
  stop p = if p.running then record p { running = false; client = close p.client } else p
