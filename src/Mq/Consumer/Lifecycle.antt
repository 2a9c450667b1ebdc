-- ===== src/Mq/Consumer/Lifecycle.antt =====
-- The connection of the consumer thread, from the start of the process on.
use flz_chat.Common.{ℤ, ◌≡◌, refl, subst, inr, Bool, true, false, some, List, [], if_cases}
use flz_chat.World.{World}
use flz_chat.Mq.Envelope.{Envelope}
use flz_chat.Mq.AmqpClient.{AmqpClient, Action, is_returned, connect, open_channel, close}
use flz_chat.Mq.AmqpClient
use flz_chat.Mq.AmqpClient.Handles.{live, IsClosed, IsSound}
use flz_chat.Mq.AmqpClient.Connecting.{close-IsClosed}
use flz_chat.Mq.Consumer.{MqConsumer, ConsumerEnv, first_cache, start, stop, round}
use flz_chat.Mq.Consumer.Rounds.{Sound, round-Sound}
use flz_chat.World.Keeps.{Every}

module _ {V : Type 0} (E : ConsumerEnv V) where
  -- What happens to the thread: it is started and stopped, it makes a round while it runs, and the
  -- handlers change the process.
  pub data Step : MqConsumer V → MqConsumer V → Type 0 where
    started : (c : MqConsumer V) → Step c (start c)
    stopped : (c : MqConsumer V) → Step c (stop c)
    worked :
        (now_ms : ℤ) (keep_on : Bool) (backoff wait : ℤ) (c next : MqConsumer V)
        → c.running ≡ true
        → round E now_ms keep_on (c, backoff) ≡ some (next, wait)
        → Step c next
    handled :
        (w : World V) (late : List (Envelope V)) (c : MqConsumer V)
        → Step c (record c { world = w; late = late })

  pub data Reach : MqConsumer V → Type 0 where
    first :
        (w : World V)
        → Reach (record {
          running = false;
          client = AmqpClient.new;
          cache = first_cache;
          world = w;
          late = [];
        })
    next : {c d : MqConsumer V} → Reach c → Step c d → Reach d

  -- The client is sound, and has no connection while the thread does not run.
  pub record IsManaged (c : MqConsumer V) : Type 0 where
    pub sound : IsSound c.client
    pub idle : c.running ≡ false → IsClosed c.client

  Step-IsManaged : {c d : MqConsumer V} → Step c d → IsManaged c → IsManaged d
  unfolding start stop
  Step-IsManaged (started c) m =
      if_cases IsManaged c.running c (record c { running = true }) (λ _. m)
        (λ _. record { sound = m.sound; idle = λ e. absurd (cc) })
  Step-IsManaged (stopped c) m =
      if_cases IsManaged c.running (record c { running = false; client = close c.client }) c
        (λ _. record {
          sound = inr (close-IsClosed c.client m.sound);
          idle = λ e. close-IsClosed c.client m.sound;
        })
        (λ _. m)
  Step-IsManaged (worked now_ms keep_on backoff wait c later r e) m =
      let (s, same) : Sound E c.running later =
        subst (Every (λ (n : MqConsumer V × ℤ). Sound E c.running n.0)) e
          (round-Sound E now_ms keep_on backoff c m.sound) in
      record { sound = s; idle = λ f. absurd (cc) }
  Step-IsManaged (handled w late c) m = record { sound = m.sound; idle = m.idle }

  -- Whatever the broker answers and sends, in any order of starts, stops, rounds and changes by
  -- handlers: the consumer's client uses a connection only after its login and until it is destroyed,
  -- loses none, and has none while the thread does not run.
  pub consumer-IsManaged : {c : MqConsumer V} → Reach c → IsManaged c
  unfolding live
  consumer-IsManaged (first w) = record {
    sound = inr (record { conn = refl; connected = refl; traced = refl });
    idle = λ _. record { conn = refl; connected = refl; traced = refl };
  }
  consumer-IsManaged (next r st) = Step-IsManaged st (consumer-IsManaged r)
