-- ===== src/Servlet/Jobs.antt =====
-- What chat/chat_servlet.cc and chat/dispatch/mq_to_ws.cc do on the IOManager of a connection.
use flz_chat.Common.{ℕ, pos, false, String, Option, none, some, [], ◌∷◌, ◌++◌, if◌then◌else◌}
use flz_chat.World.{Env, M, NetEvent, cancelled, closed, Job, push, kick, close, pure, modify, ◌>>◌}
use flz_chat.Protocol.Send.{send_frame}
use flz_chat.Session.Conn.{OnlineConn}
use flz_chat.Dispatch.MqToWs.{deliver, schedule}

module _ {V : Type 0} (E : Env V) where
  unfoldable pub note : NetEvent → M V (Unit {0})
  note e = modify λ w. record w { net = w.net ++ e ∷ [] }

  -- `getSocket()->cancelAll()`, where there is a socket.
  unfoldable pub cancel : ℕ → M V (Unit {0})
  unfolding note
  cancel s w = if E.has_socket w.net s then note (cancelled s) w else (some tt, w)

  unfoldable pub close_session_on_owner : OnlineConn → M V (Unit {0})
  unfolding note schedule
  close_session_on_owner conn = elim conn.session [
    | none ↦ pure tt
    | some s ↦ elim conn.io_manager [
      | none ↦ note (closed s)
      | some iom ↦ schedule E iom (close conn)
    ]
  ]

  abbrev kicked_data : String → V
  kicked_data reason = let J = E.json in J.put J.null "reason" (J.text reason)

  unfoldable pub send_kicked_on_owner : OnlineConn → String → M V (Unit {0})
  unfolding schedule
  send_kicked_on_owner conn reason = elim conn.session [
    | none ↦ pure tt
    | some s ↦ elim conn.io_manager [
      | some iom ↦ schedule E iom (kick conn (kicked_data reason))
      | none ↦ do send_frame E conn.session "kicked" (kicked_data reason) false (pos 0); pure tt
    ]
  ]

  unfoldable pub close_session : Option ℕ → M V (Unit {0})
  unfolding cancel note
  close_session none = pure tt
  close_session (some s) = do cancel s; note (closed s)

  -- A scheduled job, when its IOManager runs it.
  unfoldable pub run_job : Job V → M V (Unit {0})
  unfolding deliver close_session
  run_job (push conn type payload has_seq seq) = deliver E conn type payload has_seq seq
  run_job (kick conn payload) = do send_frame E conn.session "kicked" payload false (pos 0); pure tt
  run_job (close conn) = close_session conn.session
