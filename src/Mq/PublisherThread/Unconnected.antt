-- ===== src/Mq/PublisherThread/Unconnected.antt =====
-- The publisher thread while the broker does not answer.
use flz_chat.Common.{ℤ, pos, ◌*ℤ◌, ◌≡◌, refl, sym, Bool, true, false, List, ◌∷◌, arith, subst}
use flz_chat.World.{Env, Task}
use flz_chat.Mq.Rabbit.{Rabbit, Method}
use flz_chat.Mq.AmqpClient.{is_returned}
use flz_chat.Mq.AmqpClient.Views.{published}
use flz_chat.Mq.Consumer.{min_ℤ}
use flz_chat.Mq.PublisherThread.{
  PublisherThread, Stamp, count, attempt, ensure_connected, on_ensured, on_task, round,
}
use flz_chat.Mq.PublisherThread.Order.{Says, ensure_connected-Says, round_first}

module _ {V : Type 0} (E : Env V) (R : Rabbit) where
  ensure_connected_down :
      (p : PublisherThread V)
      → p.client.connected ≡ false
      → is_returned (attempt E R p.client).0 ≡ false
      → (ensure_connected E R p).0 ≡ false
  unfolding ensure_connected
  ensure_connected_down p c f = ground arith

  on_ensured_down :
      (s : Stamp) (t : Task V) (backoff : ℤ) (l : List Method) (ts : List (Task V))
      (r : Bool × PublisherThread V)
      → r.0 ≡ false
      → Says E R l ts r.1
      → Says E R l ts (on_ensured E R s t backoff r).0
        × ((on_ensured E R s t backoff r).1
            ≡ min_ℤ E.config.rabbitmq.reconnect_max_backoff_ms (backoff *ℤ pos 2))
  unfolding on_ensured count
  on_ensured_down s t backoff l ts (true, p) d says = absurd (cc)
  on_ensured_down s t backoff l ts (false, p) d says = (says, refl)

  on_task_unconnected :
      (s : Stamp) (t : Task V) (backoff : ℤ) (p : PublisherThread V)
      → p.client.connected ≡ false
      → is_returned (attempt E R p.client).0 ≡ false
      → Says E R (published p.client.calls) p.world.queue (on_task E R s t backoff p).0
        × ((on_task E R s t backoff p).1
            ≡ min_ℤ E.config.rabbitmq.reconnect_max_backoff_ms (backoff *ℤ pos 2))
  unfolding on_task
  on_task_unconnected s t backoff p c f =
      on_ensured_down s t backoff _ _ (ensure_connected E R p) (ensure_connected_down p c f)
        (ensure_connected-Says E R p)

  -- A task that the thread takes is gone from the queue also if the client does not connect: nothing
  -- is published then, the task is not queued again, and the wait is doubled up to its maximum.
  pub round_unconnected :
      (s : Stamp) (t : Task V) (ts : List (Task V)) (p : PublisherThread V) (backoff : ℤ)
      → p.world.queue ≡ t ∷ ts
      → p.client.connected ≡ false
      → is_returned (attempt E R p.client).0 ≡ false
      → let (p', wait) = round E R s (p, backoff) in
        (published p'.client.calls ≡ published p.client.calls)
        × (p'.world.queue ≡ ts)
        × (wait ≡ min_ℤ E.config.rabbitmq.reconnect_max_backoff_ms (backoff *ℤ pos 2))
  round_unconnected s t ts p backoff e c f =
      let taken : PublisherThread V = record p { world = record p.world { queue = ts } } in
      let (says, wait) = on_task_unconnected s t backoff taken c f in
      subst
        (λ (x : PublisherThread V × ℤ).
          (published x.0.client.calls ≡ published p.client.calls)
          × (x.0.world.queue ≡ ts)
          × (x.1 ≡ min_ℤ E.config.rabbitmq.reconnect_max_backoff_ms (backoff *ℤ pos 2)))
        (sym (round_first E R s t ts p backoff e)) (says.0, says.1, wait)
