-- ===== src/Servlet/Messages.antt =====
-- `handle` of chat/chat_servlet.cc: the messages of a client.
use flz_chat.Common.{
  ℕ, ℤ, pos, Bool, true, false, String, none, some, returned, failed, thrown, ◌==◌, string_eq,
  nat_eq, if◌then◌else◌,
}
use flz_chat.World.{M, pure, throwing, modify, ◌>>=◌, ◌>>◌}
use flz_chat.Metrics.{inc_ws_in, inc_ws_out}
use flz_chat.Protocol.Frames.{ClientFrame, parse_client_frame}
use flz_chat.Protocol.Send.{send_frame, send_error}
use flz_chat.Session.Conn.{consume_token}
use flz_chat.Session.Registry.{get, update, touch}
use flz_chat.Dispatch.WsToMq.{handle_msg_send, handle_msg_ack, handle_msg_read}
use flz_chat.Servlet.{Request, ServletEnv, identity}

module _ {V : Type 0} (E : ServletEnv V) where
  -- The rate limit, on the connection where it stands in the table; a frame of no connection passes.
  unfoldable pub admit : ℕ → String → M V Bool
  unfolding get consume_token update
  admit uid did w = elim (get uid did w.registry) [
    | none ↦ (some true, w)
    | some conn ↦
        let (conn', passed) =
          consume_token conn E.env.now_ms E.env.config.chat.frame_rate_limit_per_second in
        (some passed, record w { registry = update uid did conn' w.registry })
  ]

  unfoldable pub on_ping : ℕ → ClientFrame V → M V ℤ
  unfolding send_frame inc_ws_out
  on_ping session frame = do
    let J = E.env.json
    ts ← throwing (J.get frame.payload "ts" (J.int64 E.env.now_ms))
    send_frame E.env (some session) "pong" (J.put J.null "ts" ts) frame.has_seq frame.seq
    modify λ w. record w { metrics = inc_ws_out "pong" w.metrics }
    pure (pos 0)

  abbrev pub reply_error : ℕ → ℕ → String → Bool → ℤ → ℤ → M V ℤ
  reply_error session code msg has_seq seq result = do
    send_error E.env (some session) code msg has_seq seq
    pure result

  -- The frames by their type.
  unfoldable pub on_frame : ℕ → String → ℕ → ClientFrame V → M V ℤ
  unfolding on_ping handle_msg_send handle_msg_ack handle_msg_read
  on_frame uid did session frame =
      let s = some session in
      if frame.type == "ping"
      then on_ping session frame
      else if frame.type == "msg.send"
      then handle_msg_send E.env uid did s frame.has_seq frame.seq frame.payload
      else if frame.type == "msg.ack"
      then handle_msg_ack E.env uid s frame.has_seq frame.seq frame.payload
      else if frame.type == "msg.read"
      then handle_msg_read E.env uid s frame.has_seq frame.seq frame.payload
      else if frame.type == "bye"
      then pure (pos 1)
      else reply_error session 404 "unknown type" frame.has_seq frame.seq (pos 0)

  -- What `handle` does with a frame that the rate limit lets through.
  unfoldable pub on_text : ℕ → String → ℕ → String → M V ℤ
  unfolding touch parse_client_frame on_frame inc_ws_in
  on_text uid did session text = do
    modify λ w. record w { registry = touch uid did E.env.now_ms w.registry }
    elim (parse_client_frame E.env.json text) [
      | returned frame ↦ do
        modify λ w. record w { metrics = inc_ws_in frame.type w.metrics }
        on_frame uid did session frame
      | failed err ↦ reply_error session 400 err false (pos 0) (pos 0)
      | thrown ↦ throwing none
    ]

  -- A message: whether it is a text frame, and its bytes.
  unfoldable pub handle : Request → Bool × String → ℕ → M V ℤ
  unfolding admit on_text
  handle r (false, text) session =
      reply_error session 400 "text frame required" false (pos 0) (pos 1)
  handle r (true, text) session = elim (identity E r) [
    | none ↦ reply_error session 401 "unauthorized" false (pos 0) (pos 1)
    | some (uid, did) ↦ do
      passed ← admit uid did
      if passed
          then on_text uid did session text
          else reply_error session 429 "too many frames" false (pos 0) (pos 1)
  ]
