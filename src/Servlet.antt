-- ===== src/Servlet.antt =====
-- chat/chat_servlet: the handlers of a WebSocket connection.
--
-- flz's request, its header fields that the servlet sets, and TypeUtil::Atoi are parameters.
pub mod Jobs
pub mod Closing
pub mod Access
pub mod Messages
use Prim.Native.Nat.{◌+◌}
use Prim.Native.String.{◌++◌}
use flz_chat.Common.{
  ℕ, ◌%◌, ◌^◌, suc, ℤ, pos, negsuc, to_u64, Bool, true, false, not, ◌||◌, String, Option, none,
  some, List, [], ◌∷◌, size, strip_prefix, to_decimal, is_blank, Outcome, returned, failed, thrown,
  or_throw, ◌==◌, string_eq, nat_eq, if◌then◌else◌,
}
use flz_chat.Json.{JsonOps}
use flz_chat.World.{
  World, Env, M, NetEvent, closed, pure, throwing, modify, for_each, continue, ◌>>=◌, ◌>>◌,
}
use flz_chat.Metrics.{inc_ws_in, inc_ws_out, inc_jwt_verify_fail}
use flz_chat.Util.Base64Url.{Base64}
use flz_chat.Auth.Jwt.Verify.{JwtClaims, TokenEnv, verify}
use flz_chat.Protocol.Frames.{ClientFrame, parse_client_frame}
use flz_chat.Protocol.Send.{send_frame, send_error}
use flz_chat.Session.Conn.{OnlineConn, consume_token}
use flz_chat.Session.Conn
use flz_chat.Session.Registry.{add, remove, get, is_user_online, update, touch}
use flz_chat.Mq.Publisher.{publish_user_online, publish_user_offline}
use flz_chat.Dispatch.WsToMq.{handle_msg_send, handle_msg_ack, handle_msg_read}
use flz_chat.Servlet.Jobs.{note, send_kicked_on_owner, close_session_on_owner}

-- `getParam` and `getHeader`, and the header after `setHeader`.
pub record Request : Type 0 where
  pub get_param : String → String
  pub get_header : String → String

unfoldable pub set_header : String → String → Request → Request
set_header key value r = record r { get_header = λ k. if k == key then value else r.get_header k }

-- The libraries that only the servlet uses, and `time(nullptr)`.
pub record ServletEnv (V : Type 0) : Type 0 where
  pub env : Env V
  pub base64 : Base64
  pub hmac_sha256 : String → String → Option String
  pub time : ℤ
  pub atoi : String → ℕ

-- The text after a prefix, if there is any.
unfoldable pub after_prefix : String → String → Option String
unfolding strip_prefix
after_prefix prefix text = elim (strip_prefix prefix text) [
  | none ↦ none
  | some rest ↦ if is_blank rest then none else some rest
]

unfoldable pub extract_token : Request → String
unfolding after_prefix
extract_token r =
    let token = r.get_param "token" in
    let subprotocol : String =
      elim (after_prefix "bearer." (r.get_header "Sec-WebSocket-Protocol")) [
        | none ↦ ""
        | some t ↦ t
      ] in
    let bearer : String = elim (after_prefix "Bearer " (r.get_header "Authorization")) [
      | none ↦ subprotocol
      | some t ↦ t
    ] in
    if is_blank token then bearer else token

module _ {V : Type 0} (E : ServletEnv V) where
  abbrev pub token_env : TokenEnv V
  token_env = record {
    json = E.env.json;
    base64 = E.base64;
    hmac_sha256 = E.hmac_sha256;
    now = E.time;
    config = E.env.config.jwt;
  }

  -- The claims of the request's token; the error of a missing token is empty.
  unfoldable pub authenticate : Request → Outcome (JwtClaims V)
  unfolding extract_token verify
  authenticate r =
      if is_blank (extract_token r) then failed "" else verify token_env (extract_token r)

  unfoldable pub alloc_fallback_device_id : ℕ → M V String
  unfolding to_decimal
  alloc_fallback_device_id uid w =
      let seq = suc w.fallback_device_seq % 2 ^ 64 in
      (
        some ("device-" ++ (to_decimal uid ++ ("-" ++ to_decimal seq))),
        record w { fallback_device_seq = seq },
      )

  -- What `onConnect` does without a valid token.
  unfoldable pub refuse : ℕ → String → M V ℤ
  unfolding inc_jwt_verify_fail send_frame note
  refuse session err = do
    let J = E.env.json
    modify λ w. record w {
      metrics = inc_jwt_verify_fail (if is_blank err then "empty_token" else err) w.metrics;
    }
    let data_401 = J.put J.null "code" (J.int64 (pos 401))
    let payload = J.put data_401 "msg" (J.text (if is_blank err then "missing token" else err))
    send_frame E.env (some session) "auth_fail" payload false (pos 0)
    note E.env (closed session)
    pure (negsuc 0)

  -- A connection that leaves the table is told why, and closed.
  unfoldable pub kick_out : String → OnlineConn → M V (Unit {0})
  unfolding send_kicked_on_owner close_session_on_owner
  kick_out reason conn = do
    send_kicked_on_owner E.env conn reason
    close_session_on_owner E.env conn

  -- `Add`, and what it takes out of the table.
  unfoldable pub add_conn : OnlineConn → M V (Unit {0})
  unfolding add kick_out
  add_conn conn w =
      let a = add (some conn) (to_u64 E.env.config.chat.max_devices_per_user) w.registry in
      let replaced : M V (Unit {0}) = elim a.replaced [
        | none ↦ pure tt
        | some old ↦ kick_out "login_elsewhere" old
      ] in
      let evicted : M V (Unit {0}) = for_each a.evicted (kick_out "too_many_devices") in
      (do replaced; evicted) (record w { registry = a.registry })

  unfoldable pub device_id_of : JwtClaims V → M V String
  unfolding alloc_fallback_device_id
  device_id_of claims =
      if is_blank claims.device_id
      then alloc_fallback_device_id claims.user_id
      else pure claims.device_id

  -- `IsUserOnline`
  unfoldable pub read_online : ℕ → M V Bool
  unfolding is_user_online
  read_online uid w = (some (is_user_online uid w.registry), w)

  -- The decimal text of a signed integer.
  abbrev signed_text : ℤ → String
  signed_text (pos n) = to_decimal n
  signed_text (negsuc n) = "-" ++ to_decimal (suc n)

  abbrev pub identify : JwtClaims V → String → Request → Request
  identify claims device_id r =
      set_header "$exp" (signed_text claims.exp)
        (set_header "$did" device_id (set_header "$uid" (to_decimal claims.user_id) r))

  -- What `onConnect` does with valid claims.
  unfoldable pub accept : Request → ℕ → JwtClaims V → M V (ℤ × Request)
  unfolding device_id_of read_online add_conn send_frame inc_ws_out publish_user_online
  accept r session claims = do
    let J = E.env.json
    device_id ← device_id_of claims
    online ← read_online claims.user_id
    let rate = E.env.config.chat.frame_rate_limit_per_second
    let conn : OnlineConn =
        Conn.new claims.user_id device_id (some session) E.env.this_io_manager E.env.now_ms rate
    add_conn conn
    let user = J.put J.null "userId" (J.uint64 claims.user_id)
    let device = J.put user "deviceId" (J.text device_id)
    let payload = J.put device "serverTime" (J.text E.env.iso_now)
    send_frame E.env (some session) "auth_ok" payload false (pos 0)
    modify λ w. record w { metrics = inc_ws_out "auth_ok" w.metrics }
    let publishing : M V (Unit {0}) = do publish_user_online E.env claims.user_id; pure tt
    if online then pure tt else publishing
    pure (pos 0, identify claims device_id r)

  -- The result of `onConnect`, and the request with the headers that it sets.
  unfoldable pub on_connect : Request → ℕ → M V (ℤ × Request)
  unfolding authenticate refuse accept
  on_connect r session = elim (authenticate r) [
    | returned claims ↦ accept r session claims
    | failed err ↦ do code ← refuse session err; pure (code, r)
    | thrown ↦ throwing none
  ]

  -- The user and the device of a request that was let in.
  abbrev pub identity : Request → Option (ℕ × String)
  identity r =
      if E.atoi (r.get_header "$uid") == 0 || is_blank (r.get_header "$did")
      then none
      else some (E.atoi (r.get_header "$uid"), r.get_header "$did")

  unfoldable pub remove_conn : ℕ → String → M V (Unit {0})
  unfolding remove
  remove_conn uid did = modify λ w. record w { registry = (remove uid did w.registry).0 }

  unfoldable pub on_close : Request → M V ℤ
  unfolding remove_conn read_online publish_user_offline
  on_close r = elim (identity r) [
    | none ↦ pure (pos 0)
    | some (uid, did) ↦ do
      remove_conn uid did
      online ← read_online uid
      let publishing : M V (Unit {0}) = do publish_user_offline E.env uid; pure tt
      if online then pure tt else publishing
      pure (pos 0)
  ]
