-- ===== src/Mq/Rabbit.antt =====
-- librabbitmq as chat/mq/amqp_client uses it: the calls that reach it, and what it answers.
--
-- The library is a parameter. A handle is a number, and `none` is the null pointer.
use flz_chat.Common.{ℕ, ℤ, pos, negsuc, Bool, true, false, String, Option, List, ◌==◌, nat_eq}

-- `amqp_rpc_reply_t`, by its `reply_type` and, for an exception of the server, by `reply.id`.
pub data RpcReply : Type 0 where
  no_reply : RpcReply
  normal : RpcReply
  library_exception : ℤ → RpcReply
  connection_closed : ℕ → RpcReply
  channel_closed : ℕ → RpcReply
  server_exception : RpcReply

-- AMQP_STATUS_OK and AMQP_STATUS_TIMEOUT.
abbrev pub status_ok : ℤ
status_ok = pos 0

abbrev pub status_timeout : ℤ
status_timeout = negsuc 12

-- The value of an entry in a table of arguments.
pub data FieldValue : Type 0 where
  utf8 : String → FieldValue
  i32 : ℤ → FieldValue

pub record Login : Type 0 where
  pub vhost : String
  pub channel_max : ℕ
  pub frame_max : ℤ
  pub heartbeat : ℤ
  pub username : String
  pub password : String

pub record BasicProperties : Type 0 where
  pub content_type : String
  pub delivery_mode : ℕ
  pub priority : ℕ
  pub message_id : String

-- A method that is sent on a channel.
pub data Method : Type 0 where
  channel_open : Method
  basic_qos : (prefetch_size prefetch_count : ℕ) (global : Bool) → Method
  exchange_declare :
      (exchange kind : String) (passive durable auto_delete internal : Bool)
      → List (String × FieldValue)
      → Method
  queue_declare :
      (queue : String) (passive durable exclusive auto_delete : Bool)
      → List (String × FieldValue)
      → Method
  queue_bind : (queue exchange routing_key : String) → List (String × FieldValue) → Method
  basic_consume :
      (queue consumer_tag : String) (no_local no_ack exclusive : Bool)
      → List (String × FieldValue)
      → Method
  basic_publish :
      (exchange routing_key : String) (mandatory immediate : Bool) (props : BasicProperties)
      (body : String)
      → Method
  basic_ack : (delivery_tag : ℕ) (multiple : Bool) → Method
  basic_nack : (delivery_tag : ℕ) (multiple requeue : Bool) → Method
  channel_close : Method

-- A call with its connection or socket, and the answer where the monitor of the calls needs it.
pub data Call : Type 0 where
  new_connection : Option ℕ → Call
  socket_new : (conn : Option ℕ) (answer : Option ℕ) → Call
  socket_open : (socket : Option ℕ) (host : String) (port : ℤ) → Call
  login : (conn : Option ℕ) → Login → (answer : RpcReply) → Call
  send : (conn : Option ℕ) (channel : ℕ) → Method → Call
  get_rpc_reply : (conn : Option ℕ) → Call
  maybe_release_buffers : (conn : Option ℕ) → Call
  consume_message : (conn : Option ℕ) (seconds microseconds : ℤ) → Call
  destroy_envelope : Call
  connection_close : (conn : Option ℕ) → Call
  destroy_connection : (conn : Option ℕ) → Call

-- `amqp_envelope_t`: texts may be null, and the message id is set if its flag is.
pub record Received : Type 0 where
  pub delivery_tag : ℕ
  pub routing_key : Option String
  pub body : Option String
  pub message_id_flag : Bool
  pub message_id : Option String

-- What the library answers to a call, by the calls before it, the latest first.
pub record Rabbit : Type 0 where
  pub new_connection : List Call → Option ℕ
  pub socket_new : List Call → Option ℕ
  pub socket_open : List Call → String → ℤ → ℤ
  pub login : List Call → Login → RpcReply
  -- The reply to the method that was sent last.
  pub rpc_reply : List Call → RpcReply
  -- The status of a method that has no reply.
  pub status : List Call → Method → ℤ
  pub consume_message : List Call → RpcReply × Received
  pub error_string2 : ℤ → String

abbrev pub is_normal : RpcReply → Bool
is_normal normal = true
is_normal reply = false

-- `==` on statuses.
abbrev pub is_status : ℤ → ℤ → Bool
is_status (pos m) (pos n) = m == n
is_status (negsuc m) (negsuc n) = m == n
is_status (pos m) (negsuc n) = false
is_status (negsuc m) (pos n) = false
