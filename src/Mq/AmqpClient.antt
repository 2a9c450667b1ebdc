-- ===== src/Mq/AmqpClient.antt =====
-- chat/mq/amqp_client: the client that both threads use to talk to the broker.
--
-- A method is an action on the client: it returns, or fails with the text of `err`, and leaves the
-- client either way. The calls of librabbitmq are kept in it, the latest first.
pub mod Declare
pub mod Messages
pub mod Handles
pub mod Sound
pub mod Connecting
pub mod Views
pub mod Quiet
pub mod Willing
use Prim.Native.String.{◌++◌}
use flz_chat.Common.{
  ℕ, ℤ, Bool, true, false, String, Option, none, some, List, [], ◌∷◌, ltb, Outcome, returned,
  failed, thrown, to_decimal, if◌then◌else◌,
}
use flz_chat.Config.{RabbitMqConfig}
use flz_chat.Mq.Rabbit.{
  RpcReply, no_reply, normal, library_exception, connection_closed, channel_closed,
  server_exception, is_normal, status_ok, is_status, Method, channel_open, basic_qos, channel_close,
  Call, new_connection, socket_new, socket_open, login, send, get_rpc_reply, connection_close,
  destroy_connection, Rabbit, Login,
}

pub record AmqpClient : Type 0 where
  pub conn : Option ℕ
  pub socket : Option ℕ
  pub channel_id : ℕ
  pub connected : Bool
  pub calls : List Call

abbrev pub new : AmqpClient
new = record { conn = none; socket = none; channel_id = 1; connected = false; calls = [] }

abbrev pub Action : Type 0 → Type 0
Action A = AmqpClient → Outcome A × AmqpClient

unfoldable pub continue : {A B : Type 0} → Outcome A → (A → Action B) → Action B
continue (returned a) f c = f a c
continue (failed err) f c = (failed err, c)
continue thrown f c = (thrown, c)

infixl 5 ◌>>=◌ ◌>>◌
abbrev pub ◌>>=◌ : {A B : Type 0} → Action A → (A → Action B) → Action B
◌>>=◌ m f c = continue (m c).0 f (m c).1

abbrev pub ◌>>◌ : {A B : Type 0} → Action A → Action B → Action B
m >> k = m >>= λ _. k

abbrev pub pure : {A : Type 0} → A → Action A
pure a c = (returned a, c)

abbrev pub record_call : Call → AmqpClient → AmqpClient
record_call k c = record c { calls = k ∷ c.calls }

module _ (R : Rabbit) where
  unfoldable pub rpc_reply_to_text : RpcReply → String
  rpc_reply_to_text no_reply = "unknown rpc reply type=0"
  rpc_reply_to_text normal = "unknown rpc reply type=1"
  rpc_reply_to_text (library_exception e) = R.error_string2 e
  rpc_reply_to_text (connection_closed code) = "server connection close: code=" ++ to_decimal code
  rpc_reply_to_text (channel_closed code) = "server channel close: code=" ++ to_decimal code
  rpc_reply_to_text server_exception = "unknown rpc reply type=3"

  -- `CheckRpcReply`
  unfoldable pub check_rpc_reply : String → Action (Unit {0})
  unfolding rpc_reply_to_text
  check_rpc_reply op c =
      let r = R.rpc_reply c.calls in
      (
        if is_normal r then returned tt else failed (op ++ (" failed: " ++ rpc_reply_to_text r)),
        record_call (get_rpc_reply c.conn) c,
      )

  -- A method on the channel, and its reply.
  unfoldable pub rpc : Method → String → Action (Unit {0})
  unfolding check_rpc_reply
  rpc m op c = check_rpc_reply op (record_call (send c.conn c.channel_id m) c)

  -- `OpenChannel` on a connection with a login.
  unfoldable pub set_up_channel : ℕ → Action (Unit {0})
  unfolding rpc
  set_up_channel prefetch_count = do
    rpc channel_open "amqp_channel_open"
    if ltb 0 prefetch_count
        then rpc (basic_qos 0 prefetch_count false) "amqp_basic_qos"
        else pure tt

  unfoldable pub open_channel : ℕ → Action (Unit {0})
  unfolding set_up_channel
  open_channel prefetch_count c =
      if c.connected then set_up_channel prefetch_count c else (failed "not connected", c)

-- The calls of `Close`, by the connection that is there.
unfoldable pub hang_up : Option ℕ → AmqpClient → AmqpClient
hang_up none c = c
hang_up (some h) c =
    let closed =
      record_call (connection_close c.conn)
        (record_call (send c.conn c.channel_id channel_close) c) in
    record_call (destroy_connection c.conn) (if c.connected then closed else c)

unfoldable pub close : AmqpClient → AmqpClient
unfolding hang_up
close c = record (hang_up c.conn c) { conn = none; socket = none; connected = false }

-- The arguments of the login.
abbrev pub credentials : RabbitMqConfig → Login
credentials cfg = record {
  vhost = cfg.vhost;
  channel_max = 0;
  frame_max = cfg.frame_max;
  heartbeat = cfg.heartbeat;
  username = cfg.username;
  password = cfg.password;
}

module _ (R : Rabbit) (cfg : RabbitMqConfig) where
  -- `Connect` from the login on.
  unfoldable pub log_in : Action (Unit {0})
  unfolding rpc_reply_to_text close
  log_in c =
      let r = R.login c.calls (credentials cfg) in
      let c' = record_call (login c.conn (credentials cfg) r) c in
      if is_normal r
      then (returned tt, record c' { connected = true })
      else (failed (rpc_reply_to_text R r), close c')

  unfoldable pub open_socket : Action (Unit {0})
  unfolding log_in close
  open_socket c =
      let ret = R.socket_open c.calls cfg.host cfg.port in
      let c' = record_call (socket_open c.socket cfg.host cfg.port) c in
      if is_status ret status_ok then log_in c' else (failed (R.error_string2 ret), close c')

  -- `Connect` after `amqp_tcp_socket_new`.
  unfoldable pub with_socket : Option ℕ → Action (Unit {0})
  unfolding open_socket close
  with_socket none c = (failed "amqp_tcp_socket_new failed", close c)
  with_socket (some s) c = open_socket c

  -- `Connect` after `amqp_new_connection`.
  unfoldable pub with_connection : Option ℕ → Action (Unit {0})
  unfolding with_socket
  with_connection none c = (failed "amqp_new_connection failed", c)
  with_connection (some h) c =
      let r = R.socket_new c.calls in
      with_socket r (record_call (socket_new c.conn r) (record c { socket = r }))

  unfoldable pub connect : Action (Unit {0})
  unfolding with_connection close
  connect c =
      let closed = close c in
      let r = R.new_connection closed.calls in
      with_connection r (record_call (new_connection r) (record closed { conn = r }))

abbrev pub is_returned : {A : Type 0} → Outcome A → Bool
is_returned (returned a) = true
is_returned (failed err) = false
is_returned thrown = false

-- A step of `EnsureConnected` after which the client is closed if it fails.
unfoldable pub close_unless : {A : Type 0} → Outcome A → Action A
unfolding close
close_unless (returned a) c = (returned a, c)
close_unless (failed err) c = (failed err, close c)
close_unless thrown c = (thrown, close c)

unfoldable pub or_close : {A : Type 0} → Action A → Action A
unfolding close_unless
or_close m c = close_unless (m c).0 (m c).1
