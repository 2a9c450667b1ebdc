-- ===== src/MyModule/Startup.antt =====
-- chat/my_module.cc: how the module is loaded, made ready and unloaded.
--
-- The servers of the framework are a parameter. The two threads are kept each with its view of the
-- process, which nothing here changes.
use flz_chat.Common.{ℕ, Bool, true, false, String, Option, none, some, List, [], ◌∷◌, ◌++◌}
use flz_chat.Config.{ChatConfig, ConfigSource, load}
use flz_chat.Mq.PublisherThread.{PublisherThread, start as start_publisher, stop as stop_publisher}
use flz_chat.Mq.Consumer.{MqConsumer, start as start_consumer, stop as stop_consumer}

-- `Application::getServer(type, svrs)`: whether there are servers of a type, and for each the dispatch
-- of its servlets, or `none` if it is of another class.
pub record Application : Type 0 where
  pub get_server : String → Option (List (Option ℕ))

-- The servlets that were added to a dispatch under a path, the periods of the timers, and the threads.
pub record Process (V : Type 0) : Type 0 where
  pub servlets : List (ℕ × String)
  pub timers : List ℕ
  pub publisher : PublisherThread V
  pub consumer : MqConsumer V

-- The loop over the servers of a type.
unfoldable pub add_servlets : String → List (Option ℕ) → List (ℕ × String) → List (ℕ × String)
add_servlets path [] servlets = servlets
add_servlets path (none ∷ svrs) servlets = add_servlets path svrs servlets
add_servlets path (some dispatch ∷ svrs) servlets =
    add_servlets path svrs (servlets ++ (dispatch, path) ∷ [])

-- The settings, and whether `onLoad` succeeds.
unfoldable pub on_load : ConfigSource → ChatConfig × Bool
unfolding load
on_load src =
    let (config, error) = load src in
    elim error [ none ↦ (config, true) | some err ↦ (config, false) ]

module _ {V : Type 0} where
  -- `registerHttpServlets` and `registerWsServlets`
  unfoldable pub register : String → Option (List (Option ℕ)) → Process V → Bool × Process V
  unfolding add_servlets
  register path none p = (false, p)
  register path (some svrs) p = (true, record p { servlets = add_servlets path svrs p.servlets })

  unfoldable pub start_mq : Process V → Bool × Process V
  unfolding start_publisher start_consumer
  start_mq p = (
    true,
    record p { publisher = start_publisher p.publisher; consumer = start_consumer p.consumer },
  )

  unfoldable pub stop_mq : Process V → Process V
  unfolding stop_publisher stop_consumer
  stop_mq p = record p {
    consumer = stop_consumer p.consumer;
    publisher = stop_publisher p.publisher;
  }

  unfoldable pub on_unload : Process V → Bool × Process V
  unfolding stop_mq
  on_unload p = (true, stop_mq p)

  -- A step of `onServerReady` that returns if the step before failed.
  unfoldable pub and_then : Bool × Process V → (Process V → Bool × Process V) → Bool × Process V
  and_then (true, p) f = f p
  and_then (false, p) f = (false, p)

  unfoldable pub on_server_ready : Application → ChatConfig → Process V → Bool × Process V
  unfolding register start_mq and_then
  on_server_ready app config p = and_then (register "/metrics" (app.get_server "http") p) (λ p.
      and_then (register config.chat.ws_path (app.get_server "ws") p)
        (λ p. and_then (start_mq p) (λ p. (true, record p { timers = p.timers ++ 10000 ∷ [] }))))
