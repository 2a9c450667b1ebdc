-- ===== src/Mq/PublisherThread/Lifecycle.antt =====
-- The connection of the publisher thread, from the start of the process on.
use flz_chat.Common.{ℤ, ◌≡◌, refl, inl, inr, Bool, true, false, List, [], ◌∷◌, if_cases, arith}
use flz_chat.Mq.Envelope.{build, to_string}
use flz_chat.World.{World, Env, Task}
use flz_chat.Mq.Rabbit.{Rabbit}
use flz_chat.Mq.AmqpClient.{AmqpClient, Action, is_returned, connect, open_channel, close}
use flz_chat.Mq.AmqpClient
use flz_chat.Mq.AmqpClient.Messages.{publish}
use flz_chat.Mq.AmqpClient.Declare.{declare_for_publisher}
use flz_chat.Mq.AmqpClient.Handles.{live, IsOpen, IsClosed, IsSound}
use flz_chat.Mq.AmqpClient.Sound.{
  declare_for_publisher-KeepsOpen, open_channel-KeepsOpen, publish-KeepsOpen,
}
use flz_chat.Mq.AmqpClient.Connecting.{
  Connects, close-IsClosed, connect-Connects, or_close-Connects, continue-Connects,
  Connects-IsSound, Connects-IsOpen, connected-IsOpen,
}
use flz_chat.Mq.PublisherThread.{
  PublisherThread, Stamp, count, attempt, ensure_connected, send, on_ensured, on_task, take_task,
  round, start, stop,
}

module _ {V : Type 0} (E : Env V) (R : Rabbit) where
  attempt-Connects : (c : AmqpClient) → IsSound c → Connects (attempt E R c)
  unfolding attempt
  attempt-Connects c i =
      continue-Connects _ _ _ (connect-Connects R E.config.rabbitmq c i) λ _ c' o.
        continue-Connects _ _ _
          (or_close-Connects (open_channel R 0) (open_channel-KeepsOpen R 0) c' o)
          λ _. or_close-Connects (declare_for_publisher R) (declare_for_publisher-KeepsOpen R)

  -- What `EnsureConnected` leaves: an open client if it is connected, and a sound one.
  abbrev Ensured : Bool × PublisherThread V → Type 0
  Ensured (true, p) = IsOpen p.client
  Ensured (false, p) = IsSound p.client

  ensure_connected-Ensured :
      (p : PublisherThread V) → IsSound p.client → Ensured (ensure_connected E R p)
  unfolding ensure_connected
  ensure_connected-Ensured p i =
      let a = attempt E R p.client in
      if_cases Ensured p.client.connected (true, p) _ (λ e. connected-IsOpen p.client i e)
        (λ _.
          if_cases Ensured (is_returned a.0) (true, record p { client = a.1 }) _
            (λ e. Connects-IsOpen a.0 a.1 (attempt-Connects p.client i) e)
            (λ _. Connects-IsSound a.0 a.1 (attempt-Connects p.client i)))

  send-IsSound :
      (s : Stamp) (t : Task V) (p : PublisherThread V)
      → IsOpen p.client
      → IsSound (send E R s t p).client
  unfolding send count
  send-IsSound s t p o =
      let env = build E.json s.uuid s.iso_now "chat" t.routing_key t.payload in
      let body = to_string E.json env in
      let a = publish R "business.exchange" t.routing_key body t.priority env.msg_id p.client in
      let o' =
        publish-KeepsOpen R "business.exchange" t.routing_key body t.priority env.msg_id p.client
          o in
      if_cases (λ (x : PublisherThread V). IsSound x.client) (is_returned a.0) _ _ (λ _. inl o')
        (λ _. inr (close-IsClosed a.1 (inl o')))

  on_task-IsSound :
      (s : Stamp) (t : Task V) (backoff : ℤ) (p : PublisherThread V)
      → IsSound p.client
      → IsSound (on_task E R s t backoff p).0.client
  unfolding on_task on_ensured count
  on_task-IsSound s t backoff p i = go (ensure_connected E R p) (ensure_connected-Ensured p i)
    where
      go :
          (r : Bool × PublisherThread V)
          → Ensured r
          → IsSound (on_ensured E R s t backoff r).0.client
      go (true, p') o = send-IsSound s t p' o
      go (false, p') j = j

  take_task-IsSound :
      (s : Stamp) (ts : List (Task V)) (backoff : ℤ) (p : PublisherThread V)
      → IsSound p.client
      → IsSound (take_task E R s ts backoff p).0.client
  unfolding take_task
  take_task-IsSound s [] backoff p i = i
  take_task-IsSound s (t ∷ ts) backoff p i = on_task-IsSound s t backoff _ i

  on_task_running :
      (s : Stamp) (t : Task V) (backoff : ℤ) (p : PublisherThread V)
      → (on_task E R s t backoff p).0.running ≡ p.running
  unfolding on_task on_ensured ensure_connected send count
  on_task_running s t backoff p = ground arith

  take_task_running :
      (s : Stamp) (ts : List (Task V)) (backoff : ℤ) (p : PublisherThread V)
      → (take_task E R s ts backoff p).0.running ≡ p.running
  unfolding take_task
  take_task_running s [] backoff p = refl
  take_task_running s (t ∷ ts) backoff p = on_task_running s t backoff _

  -- What happens to the thread: it is started and stopped, it makes a round while it runs, and the
  -- handlers change the process.
  pub data Step : PublisherThread V → PublisherThread V → Type 0 where
    started : (p : PublisherThread V) → Step p (start p)
    stopped : (p : PublisherThread V) → Step p (stop p)
    worked :
        (s : Stamp) (backoff : ℤ) (p : PublisherThread V)
        → p.running ≡ true
        → Step p (round E R s (p, backoff)).0
    handled : (w : World V) (p : PublisherThread V) → Step p (record p { world = w })

  pub data Reach : PublisherThread V → Type 0 where
    first : (w : World V) → Reach (record { running = false; client = AmqpClient.new; world = w })
    next : {p q : PublisherThread V} → Reach p → Step p q → Reach q

  -- The client is sound, and has no connection while the thread does not run.
  pub record IsManaged (p : PublisherThread V) : Type 0 where
    pub sound : IsSound p.client
    pub idle : p.running ≡ false → IsClosed p.client

  Step-IsManaged : {p q : PublisherThread V} → Step p q → IsManaged p → IsManaged q
  unfolding start stop round
  Step-IsManaged (started p) m =
      if_cases IsManaged p.running p (record p { running = true }) (λ _. m)
        (λ _. record { sound = m.sound; idle = λ e. absurd (cc) })
  Step-IsManaged (stopped p) m =
      if_cases IsManaged p.running (record p { running = false; client = close p.client }) p
        (λ _. record {
          sound = inr (close-IsClosed p.client m.sound);
          idle = λ e. close-IsClosed p.client m.sound;
        })
        (λ _. m)
  Step-IsManaged (worked s backoff p r) m = record {
    sound = take_task-IsSound s p.world.queue backoff p m.sound;
    idle = λ e. absurd (cc (take_task_running s p.world.queue backoff p));
  }
  Step-IsManaged (handled w p) m = record { sound = m.sound; idle = m.idle }

  -- Whatever the broker answers, in any order of starts, stops, rounds and changes by handlers: the
  -- publisher's client uses a connection only after its login and until it is destroyed, loses none,
  -- and has none while the thread does not run.
  pub publisher-IsManaged : {p : PublisherThread V} → Reach p → IsManaged p
  unfolding live
  publisher-IsManaged (first w) = record {
    sound = inr (record { conn = refl; connected = refl; traced = refl });
    idle = λ _. record { conn = refl; connected = refl; traced = refl };
  }
  publisher-IsManaged (next r st) = Step-IsManaged st (publisher-IsManaged r)
