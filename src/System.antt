-- ===== src/System.antt =====
-- The whole process of chat/: what happens to it from its start on, as a relation between its states.
--
-- flz's server and its IOManagers are not under chat/. What is taken of them: `handle` and `onClose`
-- are only called for a connection whose `onConnect` answered 0, with the request that it left, and a
-- job that was scheduled runs at most once. Two things that happen are steps one after the other, since
-- each singleton of the process is locked while it is used.
pub mod LetIn
pub mod Sound
use flz_chat.Common.{
  ℕ, zero, suc, ℤ, pos, negsuc, ◌≡◌, Bool, true, false, String, Option, none, some, List, [], ◌∷◌,
  ◌++◌, Among,
}
use flz_chat.Metrics
use flz_chat.Session.Registry.{empty}
use flz_chat.World.{World, Env, Job}
use flz_chat.Util.Lru.{LruIdempotencyCache}
use flz_chat.Dispatch.MqToWs.{on_envelope}
use flz_chat.Servlet.{Request, ServletEnv, on_connect, on_close}
use flz_chat.Servlet.Messages.{handle}
use flz_chat.Servlet.Jobs.{run_job}
use flz_chat.MyModule.{on_timer}
use flz_chat.Mq.Envelope.{Envelope}
use flz_chat.Mq.Rabbit.{Rabbit}
use flz_chat.Mq.AmqpClient.{AmqpClient}
use flz_chat.Mq.AmqpClient
use flz_chat.Mq.PublisherThread.{
  PublisherThread, Stamp, round as publisher_round, start as start_publisher,
  stop as stop_publisher,
}
use flz_chat.Mq.Consumer.{
  MqConsumer, ConsumerEnv, first_cache, round as consumer_round, start as start_consumer,
  stop as stop_consumer,
}

-- The clocks, and the IOManager that a handler runs on.
pub record Moment : Type 0 where
  pub now_ms : ℤ
  pub iso_now : String
  pub time : ℤ
  pub this_io_manager : Option ℕ

-- A connection that a client opened.
pub record Opening : Type 0 where
  pub moment : Moment
  pub request : Request
  pub session : ℕ

-- The singletons, the two threads, the sessions that flz serves with their requests, and every
-- connection that was opened so far.
pub record System (V : Type 0) : Type 0 where
  pub world : World V
  pub publishing : Bool
  pub publisher : AmqpClient
  pub consuming : Bool
  pub consumer : AmqpClient
  pub cache : LruIdempotencyCache
  pub late : List (Envelope V)
  pub sessions : List (ℕ × Request)
  pub openings : List Opening

-- The process as it starts.
abbrev pub first_world : {V : Type 0} → World V
first_world = record {
  registry = empty;
  pending = [];
  queue = [];
  metrics = Metrics.new;
  net = [];
  scheduled = [];
  fallback_device_seq = 0;
}

abbrev pub first_system : {V : Type 0} → System V
first_system = record {
  world = first_world;
  publishing = false;
  publisher = AmqpClient.new;
  consuming = false;
  consumer = AmqpClient.new;
  cache = first_cache;
  late = [];
  sessions = [];
  openings = [];
}

-- The sessions that flz serves once `onConnect` has answered.
abbrev pub served : ℕ → Option (ℤ × Request) → List (ℕ × Request) → List (ℕ × Request)
served session none sessions = sessions
served session (some (pos zero, r)) sessions = (session, r) ∷ sessions
served session (some (pos (suc n), r)) sessions = sessions
served session (some (negsuc n, r)) sessions = sessions

module _ {V : Type 0} where
  -- The threads, with the process as it is.
  abbrev pub publisher_of : System V → PublisherThread V
  publisher_of s = record { running = s.publishing; client = s.publisher; world = s.world }

  abbrev pub consumer_of : System V → MqConsumer V
  consumer_of s = record {
    running = s.consuming;
    client = s.consumer;
    cache = s.cache;
    world = s.world;
    late = s.late;
  }

  abbrev pub with_publisher : PublisherThread V → System V → System V
  with_publisher p s = record s { publishing = p.running; publisher = p.client; world = p.world }

  abbrev pub with_consumer : MqConsumer V → System V → System V
  with_consumer c s = record s {
    consuming = c.running;
    consumer = c.client;
    cache = c.cache;
    world = c.world;
    late = c.late;
  }

  -- `Start` and `Stop` of the threads change nothing else.
  abbrev pub with_threads : PublisherThread V → MqConsumer V → System V → System V
  with_threads p c s = record s {
    publishing = p.running;
    publisher = p.client;
    consuming = c.running;
    consumer = c.client;
  }

-- What a handler finds at a moment.
abbrev pub at : {V : Type 0} → ServletEnv V → Moment → ServletEnv V
at E m = record E {
  env = record E.env {
    now_ms = m.now_ms;
    iso_now = m.iso_now;
    this_io_manager = m.this_io_manager;
  };
  time = m.time;
}

-- A client opens a connection.
abbrev pub opened : {V : Type 0} → ServletEnv V → Opening → System V → System V
opened E o s =
    let (answer, w) = on_connect (at E o.moment) o.request o.session s.world in
    record s { world = w; sessions = served o.session answer s.sessions; openings = o ∷ s.openings }

module _ {V : Type 0} (E : ServletEnv V) (C : ConsumerEnv V) where
  -- What the consumer thread finds: the dispatcher is its handler.
  abbrev pub consumer_at : Moment → Rabbit → ConsumerEnv V
  consumer_at m R = record C {
    env = (at E m).env;
    rabbit = R;
    handler = some (on_envelope (at E m).env);
  }

  -- What happens to the process: a client opens a connection, sends a message on one that is served and
  -- ends it; a job runs; the timer runs; a thread starts, stops or makes a round; a handler that was
  -- too late for the consumer runs.
  pub data Step : System V → System V → Type 0 where
    connected : (o : Opening) (s : System V) → Step s (opened E o s)
    said :
        (m : Moment) (r : Request) (message : Bool × String) (session : ℕ) (s : System V)
        → Among (session, r) s.sessions
        → Step s (record s { world = (handle (at E m) r message session s.world).1 })
    ended :
        (m : Moment) (r : Request) (session : ℕ) (before after : List (ℕ × Request)) (s : System V)
        → s.sessions ≡ before ++ (session, r) ∷ after
        → Step s (record s { world = (on_close (at E m) r s.world).1; sessions = before ++ after })
    ran :
        (m : Moment) (iom : ℕ) (job : Job V) (before after : List (ℕ × Job V)) (s : System V)
        → s.world.scheduled ≡ before ++ (iom, job) ∷ after
        → Step s (record s {
          world = (run_job (at E m).env job (record s.world { scheduled = before ++ after })).1;
        })
    ticked :
        (m : Moment) (s : System V)
        → Step s (record s { world = (on_timer (at E m).env s.world).1 })
    started :
        (s : System V)
        → Step s
            (with_threads (start_publisher (publisher_of s)) (start_consumer (consumer_of s)) s)
    stopped :
        (s : System V)
        → Step s (with_threads (stop_publisher (publisher_of s)) (stop_consumer (consumer_of s)) s)
    published :
        (m : Moment) (R : Rabbit) (stamp : Stamp) (backoff : ℤ) (s : System V)
        → s.publishing ≡ true
        → Step s
            (with_publisher (publisher_round (at E m).env R stamp (publisher_of s, backoff)).0 s)
    received :
        (m : Moment) (R : Rabbit) (keep_on : Bool) (backoff wait : ℤ) (c : MqConsumer V)
        (s : System V)
        → s.consuming ≡ true
        → consumer_round (consumer_at m R) m.now_ms keep_on (consumer_of s, backoff)
          ≡ some (c, wait)
        → Step s (with_consumer c s)
    caught_up :
        (m : Moment) (env : Envelope V) (before after : List (Envelope V)) (s : System V)
        → s.late ≡ before ++ env ∷ after
        → Step s
            (record s { world = (on_envelope (at E m).env env s.world).1; late = before ++ after })

  pub data Reach : System V → Type 0 where
    first : Reach first_system
    next : {s t : System V} → Reach s → Step s t → Reach t
