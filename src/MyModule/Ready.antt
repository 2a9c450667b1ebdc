-- ===== src/MyModule/Ready.antt =====
-- What the module has when it is ready, and what it leaves when it is unloaded.
use flz_chat.Common.{
  ℕ, ◌≡◌, refl, inl, Bool, true, false, String, Option, none, some, List, [], ◌∷◌, ◌++◌, All,
  All-mono, Among, Among-append_left, Among-append_right, if_cases,
}
use flz_chat.Config.{ChatConfig}
use flz_chat.World.{Env}
use flz_chat.Mq.Rabbit.{Rabbit}
use flz_chat.Mq.AmqpClient.Handles.{IsClosed}
use flz_chat.Mq.AmqpClient.Connecting.{close-IsClosed}
use flz_chat.Mq.PublisherThread.{PublisherThread, start as start_publisher, stop as stop_publisher}
use flz_chat.Mq.PublisherThread.Lifecycle as Publishing
use flz_chat.Mq.Consumer.{MqConsumer, ConsumerEnv, start as start_consumer, stop as stop_consumer}
use flz_chat.Mq.Consumer.Lifecycle as Consuming
use flz_chat.MyModule.Startup.{
  Application, Process, add_servlets, register, start_mq, stop_mq, on_unload, and_then,
  on_server_ready,
}

-- A server of the right class has a servlet under the path.
abbrev pub Serves : List (ℕ × String) → String → Option ℕ → Type 0
Serves servlets path none = Unit
Serves servlets path (some dispatch) = Among (dispatch, path) servlets

add_servlets-keeps :
    (path : String) (svrs : List (Option ℕ)) (servlets : List (ℕ × String)) (e : ℕ × String)
    → Among e servlets
    → Among e (add_servlets path svrs servlets)
unfolding add_servlets
add_servlets-keeps path [] servlets e a = a
add_servlets-keeps path (none ∷ svrs) servlets e a = add_servlets-keeps path svrs servlets e a
add_servlets-keeps path (some d ∷ svrs) servlets e a =
    add_servlets-keeps path svrs _ e (Among-append_left e servlets _ a)

add_servlets-Serves :
    (path : String) (svrs : List (Option ℕ)) (servlets : List (ℕ × String))
    → All (Serves (add_servlets path svrs servlets) path) svrs
unfolding add_servlets
add_servlets-Serves path [] servlets = tt
add_servlets-Serves path (none ∷ svrs) servlets = (tt, add_servlets-Serves path svrs servlets)
add_servlets-Serves path (some d ∷ svrs) servlets = (
  add_servlets-keeps path svrs _ (d, path) (Among-append_right (d, path) servlets _ (inl refl)),
  add_servlets-Serves path svrs (servlets ++ (d, path) ∷ []),
)

later-Serves :
    (path : String) (other : String) (more : List (Option ℕ)) (servlets : List (ℕ × String))
    (s : Option ℕ)
    → Serves servlets path s
    → Serves (add_servlets other more servlets) path s
later-Serves path other more servlets none h = tt
later-Serves path other more servlets (some d) h =
    add_servlets-keeps other more servlets (d, path) h

module _ {V : Type 0} where
  start_publisher_running : (p : PublisherThread V) → (start_publisher p).running ≡ true
  unfolding start_publisher
  start_publisher_running p =
      if_cases (λ (x : PublisherThread V). x.running ≡ true) p.running p _ (λ e. e) (λ _. refl)

  start_consumer_running : (c : MqConsumer V) → (start_consumer c).running ≡ true
  unfolding start_consumer
  start_consumer_running c =
      if_cases (λ (x : MqConsumer V). x.running ≡ true) c.running c _ (λ e. e) (λ _. refl)

  -- A process that is ready.
  pub record IsReady (config : ChatConfig) (http ws : List (Option ℕ)) (p : Process V)
      : Type 0 where
    pub metrics : All (Serves p.servlets "/metrics") http
    pub chat : All (Serves p.servlets config.chat.ws_path) ws
    pub publisher : p.publisher.running ≡ true
    pub consumer : p.consumer.running ≡ true
    pub timer : Among 10000 p.timers

  -- How `onServerReady` ends: ready if there are HTTP and WebSocket servers, else with the threads and
  -- the timers as they were.
  abbrev pub Ends :
      ChatConfig
      → Option (List (Option ℕ))
      → Option (List (Option ℕ))
      → Process V
      → Bool × Process V
      → Type 0
  Ends config (some http) (some ws) p (done, p') = (done ≡ true) × IsReady config http ws p'
  Ends config none ws p (done, p') =
      (done ≡ false)
      × (p'.publisher ≡ p.publisher)
      × (p'.consumer ≡ p.consumer)
      × (p'.timers ≡ p.timers)
  Ends config (some http) none p (done, p') =
      (done ≡ false)
      × (p'.publisher ≡ p.publisher)
      × (p'.consumer ≡ p.consumer)
      × (p'.timers ≡ p.timers)

  -- `onServerReady` succeeds exactly if there are HTTP and WebSocket servers. Then every HTTP server
  -- serves the metrics, every WebSocket server the chat under its path, both threads run and the timer
  -- is set; else it starts no thread and sets no timer.
  on_server_ready-Ends :
      (app : Application) (config : ChatConfig) (p : Process V)
      → Ends config (app.get_server "http") (app.get_server "ws") p (on_server_ready app config p)
  unfolding on_server_ready register start_mq and_then
  on_server_ready-Ends app config p = go (app.get_server "http") (app.get_server "ws")
    where
      go :
          (http ws : Option (List (Option ℕ)))
          → Ends config http ws p (
              and_then (register "/metrics" http p) (λ p.
                and_then (register config.chat.ws_path ws p) (λ p.
                  and_then
                    (start_mq p)
                    (λ p. (true, record p { timers = p.timers ++ 10000 ∷ [] })))))
      go none ws = (refl, refl, refl, refl)
      go (some http) none = (refl, refl, refl, refl)
      go (some http) (some ws) =
          let first = add_servlets "/metrics" http p.servlets in
          (
            refl,
            record {
              metrics =
                  All-mono (Serves first "/metrics") _
                    (later-Serves "/metrics" config.chat.ws_path ws first) http
                    (add_servlets-Serves "/metrics" http p.servlets);
              chat = add_servlets-Serves config.chat.ws_path ws first;
              publisher = start_publisher_running p.publisher;
              consumer = start_consumer_running p.consumer;
              timer = Among-append_right 10000 p.timers _ (inl refl);
            },
          )

  module _ (E : Env V) (R : Rabbit) (C : ConsumerEnv V) where
    -- After `onUnload` no thread runs and no connection to the broker is left, whatever the threads did
    -- since the start of the process.
    pub on_unload-IsClosed :
        (p : Process V)
        → Publishing.Reach E R p.publisher
        → Consuming.Reach C p.consumer
        → let p' = (on_unload p).1 in
          (p'.publisher.running ≡ false)
          × IsClosed p'.publisher.client
          × (p'.consumer.running ≡ false)
          × IsClosed p'.consumer.client
    unfolding on_unload stop_mq stop_publisher stop_consumer
    on_unload-IsClosed p a b =
        let m = Publishing.publisher-IsManaged E R a in
        let n = Consuming.consumer-IsManaged C b in
        let (r, c) =
          if_cases (λ (x : PublisherThread V). (x.running ≡ false) × IsClosed x.client)
            p.publisher.running _ p.publisher
            (λ _. (refl, close-IsClosed p.publisher.client m.sound)) (λ e. (e, m.idle e)) in
        let (s, d) =
          if_cases (λ (x : MqConsumer V). (x.running ≡ false) × IsClosed x.client)
            p.consumer.running _ p.consumer (λ _. (refl, close-IsClosed p.consumer.client n.sound))
            (λ e. (e, n.idle e)) in
        (r, c, s, d)
