-- ===== src/Config.antt =====
-- chat/config: the settings, where they come from, and the check at load.
--
-- flz::Config is a parameter: for a setting's name and default it gives the value in force.
pub mod Load
use flz_chat.Common.{
  ℕ, ◌+◌, Bool, true, false, ◌||◌, Option, none, some, String, ℤ, pos, leb_ℤ, ltb_ℤ, leb, size,
  strip_prefix, strip_last, is_blank, ◌==◌, string_eq, not, if◌then◌else◌,
}

pub record RabbitMqConfig : Type 0 where
  pub host : String
  pub port : ℤ
  pub vhost : String
  pub username : String
  pub password : String
  pub heartbeat : ℤ
  pub frame_max : ℤ
  pub publisher_confirm_select : Bool
  pub publisher_queue_capacity : ℤ
  pub consumer_queue : String
  pub consumer_prefetch : ℤ
  pub consumer_auto_ack : Bool
  pub consumer_tag : String
  pub reconnect_initial_backoff_ms : ℤ
  pub reconnect_max_backoff_ms : ℤ

pub record JwtConfig : Type 0 where
  pub algorithm : String
  pub secret : String
  pub issuer : String
  pub clock_skew_seconds : ℤ

pub record RedisConfig : Type 0 where
  pub enabled : Bool
  pub host : String
  pub port : ℤ
  pub password : String
  pub db : ℤ
  pub pool_size : ℤ
  pub idempotency_ttl_seconds : ℤ

pub record ChatRuntimeConfig : Type 0 where
  pub max_devices_per_user : ℤ
  pub heartbeat_interval_seconds : ℤ
  pub heartbeat_timeout_seconds : ℤ
  pub pending_send_ttl_seconds : ℤ
  pub ws_path : String
  pub frame_rate_limit_per_second : ℤ
  pub max_text_content_bytes : ℤ

pub record ChatConfig : Type 0 where
  pub rabbitmq : RabbitMqConfig
  pub jwt : JwtConfig
  pub redis : RedisConfig
  pub chat : ChatRuntimeConfig

-- `flz::Config::Lookup(name, default)->getValue()` for each type of value, and `getenv`.
pub record ConfigSource : Type 0 where
  pub string : String → String → String
  pub int : String → ℤ → ℤ
  pub bool : String → Bool → Bool
  pub getenv : String → Option String

abbrev pub env_prefix : String
env_prefix = "${ENV:"

unfoldable pub resolve_env : ConfigSource → String → String
unfolding size strip_prefix strip_last
resolve_env src value =
    if leb (size value) (size env_prefix + 1) then value else elim (strip_prefix env_prefix value) [
      | none ↦ value
      | some rest ↦ elim (strip_last b'}' rest) [
        | none ↦ value
        | some env_key ↦ elim (src.getenv env_key) [ none ↦ "" | some v ↦ v ]
      ]
    ]

unfoldable pub load_rabbitmq : ConfigSource → RabbitMqConfig
load_rabbitmq src = record {
  host = src.string "rabbitmq.host" "127.0.0.1";
  port = src.int "rabbitmq.port" (pos 5672);
  vhost = src.string "rabbitmq.vhost" "/";
  username = src.string "rabbitmq.username" "guest";
  password = src.string "rabbitmq.password" "guest";
  heartbeat = src.int "rabbitmq.heartbeat" (pos 30);
  frame_max = src.int "rabbitmq.frame_max" (pos 131072);
  publisher_confirm_select = src.bool "rabbitmq.publisher.confirm_select" true;
  publisher_queue_capacity = src.int "rabbitmq.publisher.queue_capacity" (pos 10000);
  consumer_queue = src.string "rabbitmq.consumer.queue" "chat.delivery.queue";
  consumer_prefetch = src.int "rabbitmq.consumer.prefetch" (pos 64);
  consumer_auto_ack = src.bool "rabbitmq.consumer.auto_ack" false;
  consumer_tag = src.string "rabbitmq.consumer.consumer_tag" "chat-svc-1";
  reconnect_initial_backoff_ms = src.int "rabbitmq.reconnect.initial_backoff_ms" (pos 1000);
  reconnect_max_backoff_ms = src.int "rabbitmq.reconnect.max_backoff_ms" (pos 30000);
}

unfoldable pub load_jwt : ConfigSource → JwtConfig
unfolding resolve_env
load_jwt src = record {
  algorithm = src.string "jwt.algorithm" "HS256";
  secret = resolve_env src (src.string "jwt.secret" "");
  issuer = src.string "jwt.issuer" "flz_chat_business";
  clock_skew_seconds = src.int "jwt.clock_skew_seconds" (pos 60);
}

unfoldable pub load_redis : ConfigSource → RedisConfig
load_redis src = record {
  enabled = src.bool "redis.enabled" false;
  host = src.string "redis.host" "127.0.0.1";
  port = src.int "redis.port" (pos 6379);
  password = src.string "redis.password" "";
  db = src.int "redis.db" (pos 0);
  pool_size = src.int "redis.pool_size" (pos 4);
  idempotency_ttl_seconds = src.int "redis.idempotency_ttl_seconds" (pos 86400);
}

unfoldable pub load_chat : ConfigSource → ChatRuntimeConfig
load_chat src = record {
  max_devices_per_user = src.int "chat.max_devices_per_user" (pos 5);
  heartbeat_interval_seconds = src.int "chat.heartbeat_interval_seconds" (pos 25);
  heartbeat_timeout_seconds = src.int "chat.heartbeat_timeout_seconds" (pos 75);
  pending_send_ttl_seconds = src.int "chat.pending_send_ttl_seconds" (pos 30);
  ws_path = src.string "chat.ws_path" "/flz/chat";
  frame_rate_limit_per_second = src.int "chat.frame_rate_limit_per_second" (pos 20);
  max_text_content_bytes = src.int "chat.max_text_content_bytes" (pos 8192);
}

-- The checks of `Load` in their order: the first that fails gives the error.
unfoldable pub check : ChatConfig → Option String
check c =
    if not (c.jwt.algorithm == "HS256")
    then some "jwt.algorithm must be HS256"
    else if is_blank c.jwt.secret
    then some "jwt.secret is empty"
    else if leb_ℤ c.chat.max_devices_per_user (pos 0)
        || leb_ℤ c.chat.heartbeat_timeout_seconds (pos 0)
        || leb_ℤ c.chat.heartbeat_interval_seconds (pos 0)
    then some "chat config has non-positive value"
    else if leb_ℤ c.chat.heartbeat_timeout_seconds c.chat.heartbeat_interval_seconds
    then some "heartbeat_timeout_seconds must be greater than heartbeat_interval_seconds"
    else if leb_ℤ c.rabbitmq.port (pos 0) || ltb_ℤ (pos 65535) c.rabbitmq.port
    then some "rabbitmq.port out of range"
    else none

-- The settings, and the error if `Load` returns false.
unfoldable pub load : ConfigSource → ChatConfig × Option String
unfolding load_rabbitmq load_jwt load_redis load_chat check
load src =
    let c : ChatConfig = record {
      rabbitmq = load_rabbitmq src;
      jwt = load_jwt src;
      redis = load_redis src;
      chat = load_chat src;
    } in
    (c, check c)
