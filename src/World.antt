-- ===== src/World.antt =====
-- The state that the handlers of chat/ share, and how a handler runs on it.
--
-- The singletons of the process (registry, pending sends, publisher queue, metrics) are one record.
-- What leaves the process is kept as a trace; jobs handed to an IOManager are kept until they run.
pub mod Keeps
use flz_chat.Common.{ℕ, ℤ, Bool, String, Option, none, some, List, [], ◌∷◌}
use flz_chat.Json.{JsonOps}
use flz_chat.Config.{ChatConfig}
use flz_chat.Metrics.{ChatMetrics}
use flz_chat.Session.Conn.{OnlineConn}
use flz_chat.Session.Registry.{SessionRegistry}
use flz_chat.Dispatch.Pending.{PendingMap}

-- `MqPublisher::Task`
pub record Task (V : Type 0) : Type 0 where
  pub routing_key : String
  pub payload : V
  pub priority : ℕ

-- What is asked of a session: sendMessage with a text, whatever it answers, the sockets' pending calls
-- cancelled, a close.
pub data NetEvent : Type 0 where
  sent : ℕ → String → NetEvent
  cancelled : ℕ → NetEvent
  closed : ℕ → NetEvent

-- What is scheduled on an IOManager: a frame, counted in the metrics or not, or a close.
pub data Job (V : Type 0) : Type 0 where
  push : OnlineConn → String → V → Bool → ℤ → Job V
  kick : OnlineConn → V → Job V
  close : OnlineConn → Job V

pub record World (V : Type 0) : Type 0 where
  pub registry : SessionRegistry
  pub pending : PendingMap
  pub queue : List (Task V)
  pub metrics : ChatMetrics
  pub net : List NetEvent
  pub scheduled : List (ℕ × Job V)
  pub fallback_device_seq : ℕ

-- The libraries, the settings and the clock, as a handler finds them. What `sendMessage` answers and
-- whether a session has a socket may depend on all that happened before.
pub record Env (V : Type 0) : Type 0 where
  pub json : JsonOps V
  pub config : ChatConfig
  pub send_message : List NetEvent → ℕ → String → ℤ
  pub has_socket : List NetEvent → ℕ → Bool
  pub now_ms : ℤ
  pub iso_now : String
  pub this_io_manager : Option ℕ
  -- Whether FLZ_LOG_INFO evaluates what it logs.
  pub logs_info : Bool

-- A handler: `none` is an exception, with the state as it was when it was thrown.
abbrev pub M : Type 0 → Type 0 → Type 0
M V A = World V → Option A × World V

abbrev pub pure : {V A : Type 0} → A → M V A
pure a w = (some a, w)

-- What follows a call, on its result and the state that it leaves.
unfoldable pub continue : {V A B : Type 0} → Option A → World V → (A → M V B) → Option B × World V
continue none w f = (none, w)
continue (some a) w f = f a w

infixl 5 ◌>>=◌ ◌>>◌
abbrev pub ◌>>=◌ : {V A B : Type 0} → M V A → (A → M V B) → M V B
◌>>=◌ m f w = continue (m w).0 (m w).1 f

abbrev pub ◌>>◌ : {V A B : Type 0} → M V A → M V B → M V B
◌>>◌ m k = m >>= λ _. k

-- A library call that may throw.
abbrev pub throwing : {V A : Type 0} → Option A → M V A
throwing r w = (r, w)

-- A change of the state.
abbrev pub modify : {V : Type 0} → (World V → World V) → M V (Unit {0})
modify f w = (some tt, f w)

-- A range loop.
unfoldable pub for_each : {V A : Type 0} → List A → (A → M V (Unit {0})) → M V (Unit {0})
for_each [] body w = (some tt, w)
for_each (x ∷ xs) body w = continue (body x w).0 (body x w).1 (λ _. for_each xs body)
