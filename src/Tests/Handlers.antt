-- ===== src/Tests/Handlers.antt =====
-- The handlers of chat/chat_servlet and chat/dispatch on a process with one user, who has a phone.
use flz_chat.Common.{
  ◌≡◌, refl, ◌≢◌, ◌⊎◌, ◌&&◌, true, false, [], ◌∷◌, none, some, pos, negsuc, lookup, nat_eq,
  string_eq, ◌==◌, returned, if◌then◌else◌, arith,
}
use flz_chat.Config.{RabbitMqConfig, ChatConfig}
use flz_chat.Dispatch.WsToMq.{SendRequest, read_request, handle_msg_send}
use flz_chat.Dispatch.WsToMq.Tracked.{IsQueued, IsDropped, handle_msg_send-IsTracked}
use flz_chat.Json.Values.{values_laws, Json, text, number, object, empty, field, values}
use flz_chat.Metrics
use flz_chat.World.{World}
use flz_chat.Auth.Jwt.Verify.{JwtClaims}
use flz_chat.Session.Conn.{OnlineConn}
use flz_chat.Session.Registry.{get}
use flz_chat.Session.Registry.Admission.{Admission}
use flz_chat.Servlet.{Request, ServletEnv, authenticate, on_connect, identity, on_close}
use flz_chat.Servlet.Messages.{handle}
use flz_chat.Servlet.Access.{IsUntouched, on_connect-refused}
use flz_chat.Servlet.Closing.{get-on_close}
use flz_chat.Invariant.{IsConsistent}
use flz_chat.Invariant.Messages.{handle-IsConsistent}

abbrev rabbitmq : RabbitMqConfig
rabbitmq = record {
  host = "127.0.0.1";
  port = pos 5672;
  vhost = "/";
  username = "guest";
  password = "guest";
  heartbeat = pos 30;
  frame_max = pos 131072;
  publisher_confirm_select = true;
  publisher_queue_capacity = pos 2;
  consumer_queue = "chat.delivery.queue";
  consumer_prefetch = pos 64;
  consumer_auto_ack = false;
  consumer_tag = "chat-svc-1";
  reconnect_initial_backoff_ms = pos 1000;
  reconnect_max_backoff_ms = pos 30000;
}

abbrev pub config : ChatConfig
config = record {
  rabbitmq = rabbitmq;
  jwt = record {
    algorithm = "HS256";
    secret = "hush";
    issuer = "business";
    clock_skew_seconds = pos 60;
  };
  redis = record {
    enabled = false;
    host = "127.0.0.1";
    port = pos 6379;
    password = "";
    db = pos 0;
    pool_size = pos 4;
    idempotency_ttl_seconds = pos 86400;
  };
  chat = record {
    max_devices_per_user = pos 5;
    heartbeat_interval_seconds = pos 25;
    heartbeat_timeout_seconds = pos 75;
    pending_send_ttl_seconds = pos 30;
    ws_path = "/flz/chat";
    frame_rate_limit_per_second = pos 20;
    max_text_content_bytes = pos 8192;
  };
}

-- Every text is read as a frame that says good-bye.
abbrev pub service : ServletEnv Json
service = record {
  env = record {
    json = values (λ _. some (object (field "type" (text "bye") empty))) (λ _. "{}");
    config = config;
    send_message = λ events session text. pos 1;
    has_socket = λ events session. true;
    now_ms = pos 7000;
    iso_now = "2024-01-01T08:00:00+08:00";
    this_io_manager = none;
    logs_info = true;
  };
  base64 = record { encode = λ s. s; decode = λ s. s };
  hmac_sha256 = λ key signed. none;
  time = pos 7;
  atoi = λ s. if s == "7" then 7 else 0;
}

abbrev pub phone : OnlineConn
phone = record {
  user_id = 7;
  device_id = "phone";
  session = some 1;
  io_manager = none;
  login_at = pos 5000;
  last_active_ts = pos 5000;
  bucket_refill_ts = pos 5000;
  bucket_tokens = pos 20;
}

abbrev pub world : World Json
world = record {
  registry = record { conns = (7, ("phone", phone) ∷ []) ∷ [] };
  pending = [];
  queue = [];
  metrics = Metrics.new;
  net = [];
  scheduled = [];
  fallback_device_seq = 0;
}

-- Nothing is asked of a connection.
abbrev pub any : Admission
any uid session = Unit

pub world-IsConsistent : IsConsistent any service.env world
unfolding lookup
world-IsConsistent = record {
  registry = record {
    users = (refl, tt);
    buckets =
        (record { filled = omega arith; devices = (refl, tt); keyed = ((refl, refl), tt) }, tt);
  };
  admitted = ((tt, tt), tt);
  queue = omega arith;
  pending = tt;
}

-- A request without headers, and one that was let in as the phone.
abbrev stranger : Request
stranger = record { get_param = λ k. ""; get_header = λ k. "" }

abbrev known : Request
known = record {
  get_param = λ k. "";
  get_header = λ k. if k == "$uid" then "7" else if k == "$did" then "phone" else "";
}

let_in : identity service known ≡ some (7, "phone")
let_in = refl

handle-IsConsistent_example :
    IsConsistent any service.env (handle service known (true, "{}") 1 world).1
handle-IsConsistent_example =
    handle-IsConsistent any service known (true, "{}") 1 world world-IsConsistent

get-on_close_example : get 7 "phone" (on_close service known world).1.registry ≡ (
    if (phone.user_id == phone.user_id) && (phone.device_id == phone.device_id)
    then none
    else get 7 "phone" world.registry)
get-on_close_example = get-on_close service known 7 7 "phone" "phone" world let_in

no_claims : (claims : JwtClaims Json) → authenticate service stranger ≢ returned claims
unfolding authenticate
no_claims claims h = ground arith

on_connect-refused_example :
    let (result, w') = on_connect service stranger 2 world in
    ((result ≡ none) ⊎ (result ≡ some (negsuc 0, stranger))) × IsUntouched world w'
on_connect-refused_example = on_connect-refused service stranger 2 world no_claims

abbrev pub send_data : Json
send_data = object (
    field "clientMsgId" (text "m1")
      (field "conversationId" (number (pos 4)) (field "content" (text "hello") empty)))

handle_msg_send-IsTracked_example :
    let w' = (handle_msg_send service.env 7 "phone" (some 1) true (pos 3) send_data world).1 in
    ((q : SendRequest Json) × ((read_request service.env send_data world).0 ≡ some q)
      × IsQueued service.env q 7 "phone" true (pos 3) world w')
    ⊎ IsDropped service.env world w'
handle_msg_send-IsTracked_example =
    handle_msg_send-IsTracked service.env (values_laws _ _) 7 "phone" (some 1) true (pos 3)
      send_data world
