-- ===== src/Invariant/Messages.antt =====
-- The consistency of the state and `handle` of chat/chat_servlet.cc.
use flz_chat.Session.Registry.Admission.{
  Admission, update-Admits, touch-Admits, consume_token_session,
}
use flz_chat.Common.{
  ℕ, ℤ, pos, Bool, true, false, none, some, String, ◌==◌, nat_eq, string_eq, Outcome, returned,
  failed, thrown, Option-cases, inl, inr,
}
use flz_chat.World.{World, M, modify, throwing, ◌>>◌}
use flz_chat.World.Keeps.{Keeps}
use flz_chat.Metrics.{inc_ws_in}
use flz_chat.Session.Conn.{consume_token}
use flz_chat.Session.Registry.{get}
use flz_chat.Session.Registry.Updates.{update-IsValid, touch-IsValid, consume_token_keys}
use flz_chat.Protocol.Frames.{ClientFrame, parse_client_frame}
use flz_chat.Servlet.{Request, ServletEnv, identity}
use flz_chat.Servlet.Messages.{admit, on_ping, reply_error, on_frame, on_text, handle}
use flz_chat.Invariant.{
  IsConsistent, after, branch, others-IsConsistent, send_frame-IsConsistent,
  send_error-IsConsistent,
}
use flz_chat.Invariant.WsToMq.{
  handle_msg_send-IsConsistent, handle_msg_ack-IsConsistent, handle_msg_read-IsConsistent,
}

module _ {V : Type 0} (P : Admission) (E : ServletEnv V) where
  admit-IsConsistent : (uid : ℕ) (did : String) → Keeps (IsConsistent P E.env) (admit E uid did)
  unfolding admit
  admit-IsConsistent uid did w i = elim (Option-cases (get uid did w.registry)) [
    | inl e ↦ rw (e, admit) i
    | inr (c, e) ↦
        let rate = E.env.config.chat.frame_rate_limit_per_second in
        let (u, d) = consume_token_keys c E.env.now_ms rate in
        rw (e, admit)
          (record {
            registry =
                update-IsValid uid did (consume_token c E.env.now_ms rate).0 c w.registry e u d
                  i.registry;
            admitted =
                update-Admits P uid did (consume_token c E.env.now_ms rate).0 c w.registry e
                  (consume_token_session c E.env.now_ms rate) i.admitted;
            queue = i.queue;
            pending = i.pending;
          })
  ]

  reply_error-IsConsistent :
      (session code : ℕ) (msg : String) (has_seq : Bool) (seq result : ℤ)
      → Keeps (IsConsistent P E.env) (reply_error E session code msg has_seq seq result)
  reply_error-IsConsistent session code msg has_seq seq result w i =
      after P E.env _ _ _ (send_error-IsConsistent P E.env (some session) code msg has_seq seq w i)
        λ _ w i. i

  on_ping-IsConsistent :
      (session : ℕ) (frame : ClientFrame V) → Keeps (IsConsistent P E.env) (on_ping E session frame)
  unfolding on_ping
  on_ping-IsConsistent session frame w i = after P E.env _ _ _ i λ ts w i.
      after P E.env _ _ _
        (send_frame-IsConsistent P E.env (some session) "pong" _ frame.has_seq frame.seq w i)
        λ _ w i. after P E.env _ _ _ (others-IsConsistent P E.env i) λ _ w i. i

  on_frame-IsConsistent :
      (uid : ℕ) (did : String) (session : ℕ) (frame : ClientFrame V)
      → Keeps (IsConsistent P E.env) (on_frame E uid did session frame)
  unfolding on_frame
  on_frame-IsConsistent uid did session frame =
      let s = some session in
      branch P E.env (frame.type == "ping") _ _ (on_ping-IsConsistent session frame) (
        branch P E.env (frame.type == "msg.send") _ _
          (handle_msg_send-IsConsistent P E.env uid did s frame.has_seq frame.seq frame.payload)
          (branch P E.env (frame.type == "msg.ack") _ _
            (handle_msg_ack-IsConsistent P E.env uid s frame.has_seq frame.seq frame.payload)
            (branch P E.env (frame.type == "msg.read") _ _
              (handle_msg_read-IsConsistent P E.env uid s frame.has_seq frame.seq frame.payload)
              (branch P E.env (frame.type == "bye") _ _ (λ w i. i)
                (reply_error-IsConsistent session 404 "unknown type" frame.has_seq frame.seq
                  (pos 0))))))

  on_text-IsConsistent :
      (uid : ℕ) (did : String) (session : ℕ) (text : String)
      → Keeps (IsConsistent P E.env) (on_text E uid did session text)
  unfolding on_text
  on_text-IsConsistent uid did session text w i =
      after P E.env _ _ _
        (record {
          registry = touch-IsValid uid did E.env.now_ms w.registry i.registry;
          admitted = touch-Admits P uid did E.env.now_ms w.registry i.admitted;
          queue = i.queue;
          pending = i.pending;
        })
        λ _. parsed (parse_client_frame E.env.json text)
    where
      parsed :
          (o : Outcome (ClientFrame V))
          → Keeps (IsConsistent P E.env) (elim o as (λ _. M V ℤ) [
            | returned frame ↦ do
              modify λ w. record w { metrics = inc_ws_in frame.type w.metrics }
              on_frame E uid did session frame
            | failed err ↦ reply_error E session 400 err false (pos 0) (pos 0)
            | thrown ↦ throwing none
          ])
      parsed (returned frame) w i =
          after P E.env _ _ _ (others-IsConsistent P E.env i)
            λ _. on_frame-IsConsistent uid did session frame
      parsed (failed err) w i = reply_error-IsConsistent session 400 err false (pos 0) (pos 0) w i
      parsed thrown w i = i

  -- A message of a client leaves the state consistent, whatever it holds, also where its handler
  -- throws.
  pub handle-IsConsistent :
      (r : Request) (message : Bool × String) (session : ℕ) (w : World V)
      → IsConsistent P E.env w
      → IsConsistent P E.env (handle E r message session w).1
  unfolding handle
  handle-IsConsistent r (false, text) session w i =
      reply_error-IsConsistent session 400 "text frame required" false (pos 0) (pos 1) w i
  handle-IsConsistent r (true, text) session w i = elim (Option-cases (identity E r)) [
    | inl e ↦
        rw (e, handle)
          (reply_error-IsConsistent session 401 "unauthorized" false (pos 0) (pos 1) w i)
    | inr ((uid, did), e) ↦
        rw (e, handle)
          (after P E.env _ _ _ (admit-IsConsistent uid did w i) λ passed.
            branch P E.env passed _ _ (on_text-IsConsistent uid did session text)
              (reply_error-IsConsistent session 429 "too many frames" false (pos 0) (pos 1)))
  ]
