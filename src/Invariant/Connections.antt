-- ===== src/Invariant/Connections.antt =====
-- The consistency of the state and the handlers of chat/chat_servlet.
use flz_chat.Session.Registry.Admission.{Admission, add-Admits, remove-Admits}
use flz_chat.Common.{
  ℕ, ℤ, pos, ◌≤◌, ◌≡◌, refl, to_u64, is_blank, false, Option, none, some, String, nat_eq, string_eq,
  Outcome, returned, failed, thrown, Option-cases, inl, inr,
}
use flz_chat.World.{World, M, NetEvent, pure, throwing, ◌>>=◌}
use flz_chat.World.Keeps.{Keeps, keeps_for_each}
use flz_chat.Auth.Jwt.Verify.{JwtClaims}
use flz_chat.Session.Conn.{OnlineConn}
use flz_chat.Session.Conn
use flz_chat.Session.Registry.{add}
use flz_chat.Session.Registry.Invariant.{add-IsValid, remove-IsValid}
use flz_chat.Mq.Publisher.{publish_user_online, publish_user_offline}
use flz_chat.Servlet.Jobs.{note, close_session_on_owner, send_kicked_on_owner}
use flz_chat.Servlet.{
  Request, ServletEnv, authenticate, alloc_fallback_device_id, refuse, kick_out, add_conn,
  device_id_of, read_online, accept, on_connect, identity, remove_conn, on_close,
}
use flz_chat.Invariant.{
  IsConsistent, after, branch, others-IsConsistent, publish-IsConsistent, send_frame-IsConsistent,
}
use flz_chat.Invariant.Pushes.{schedule-IsConsistent}

module _ {V : Type 0} (P : Admission) (E : ServletEnv V) where
  note-IsConsistent : (e : NetEvent) → Keeps (IsConsistent P E.env) (note E.env e)
  unfolding note
  note-IsConsistent e w i = others-IsConsistent P E.env i

  close_session_on_owner-IsConsistent :
      (conn : OnlineConn) → Keeps (IsConsistent P E.env) (close_session_on_owner E.env conn)
  unfolding close_session_on_owner
  close_session_on_owner-IsConsistent conn w i = elim (Option-cases conn.session) [
    | inl e ↦ rw (e, close_session_on_owner) i
    | inr (s, e) ↦ elim (Option-cases conn.io_manager) [
      | inl f ↦ rw (e, close_session_on_owner, f) (note-IsConsistent _ w i)
      | inr (iom, f) ↦ rw (e, close_session_on_owner, f) (schedule-IsConsistent P E.env iom _ w i)
    ]
  ]

  send_kicked_on_owner-IsConsistent :
      (conn : OnlineConn) (reason : String)
      → Keeps (IsConsistent P E.env) (send_kicked_on_owner E.env conn reason)
  unfolding send_kicked_on_owner
  send_kicked_on_owner-IsConsistent conn reason w i = elim (Option-cases conn.session) [
    | inl e ↦ rw (e, send_kicked_on_owner) i
    | inr (s, e) ↦ elim (Option-cases conn.io_manager) [
      | inl f ↦
          rw (e, send_kicked_on_owner, f)
            (after P E.env _ _ _ (send_frame-IsConsistent P E.env _ "kicked" _ false (pos 0) w i)
              λ _ w i. i)
      | inr (iom, f) ↦ rw (e, send_kicked_on_owner, f) (schedule-IsConsistent P E.env iom _ w i)
    ]
  ]

  kick_out-IsConsistent :
      (reason : String) (conn : OnlineConn) → Keeps (IsConsistent P E.env) (kick_out E reason conn)
  unfolding kick_out
  kick_out-IsConsistent reason conn w i =
      after P E.env _ _ _ (send_kicked_on_owner-IsConsistent conn reason w i)
        λ _. close_session_on_owner-IsConsistent conn

  refuse-IsConsistent :
      (session : ℕ) (err : String) → Keeps (IsConsistent P E.env) (refuse E session err)
  unfolding refuse
  refuse-IsConsistent session err w i = after P E.env _ _ _ (others-IsConsistent P E.env i) λ _ w i.
      after P E.env _ _ _
        (send_frame-IsConsistent P E.env (some session) "auth_fail" _ false (pos 0) w i)
        λ _ w i. after P E.env _ _ _ (note-IsConsistent _ w i) λ _ w i. i

  kick_replaced :
      (replaced : Option OnlineConn)
      → Keeps (IsConsistent P E.env) (elim replaced as (λ _. M V (Unit {0})) [
        | none ↦ pure tt
        | some old ↦ kick_out E "login_elsewhere" old
      ])
  kick_replaced none w i = i
  kick_replaced (some old) w i = kick_out-IsConsistent "login_elsewhere" old w i

  add_conn-IsConsistent :
      (conn : OnlineConn)
      → 1 ≤ to_u64 E.env.config.chat.max_devices_per_user
      → P conn.user_id conn.session
      → Keeps (IsConsistent P E.env) (add_conn E conn)
  unfolding add_conn
  add_conn-IsConsistent conn p admitted w i =
      let a = add (some conn) (to_u64 E.env.config.chat.max_devices_per_user) w.registry in
      let v =
        add-IsValid (some conn) (to_u64 E.env.config.chat.max_devices_per_user) w.registry p
          i.registry in
      after P E.env _ _ _
        (kick_replaced a.replaced _ (record {
          registry = v;
          admitted =
              add-Admits P conn (to_u64 E.env.config.chat.max_devices_per_user) w.registry admitted
                i.admitted;
          queue = i.queue;
          pending = i.pending;
        }))
        λ _.
          keeps_for_each (IsConsistent P E.env) a.evicted _
            (kick_out-IsConsistent "too_many_devices")

  device_id_of-IsConsistent :
      (claims : JwtClaims V) → Keeps (IsConsistent P E.env) (device_id_of E claims)
  unfolding device_id_of alloc_fallback_device_id
  device_id_of-IsConsistent claims =
      branch P E.env (is_blank claims.device_id) _ _ (λ w i. others-IsConsistent P E.env i)
        (λ w i. i)

  read_online-IsConsistent : (uid : ℕ) → Keeps (IsConsistent P E.env) (read_online E uid)
  unfolding read_online
  read_online-IsConsistent uid w i = i

  accept-IsConsistent :
      (r : Request) (session : ℕ) (claims : JwtClaims V)
      → 1 ≤ to_u64 E.env.config.chat.max_devices_per_user
      → P claims.user_id (some session)
      → Keeps (IsConsistent P E.env) (accept E r session claims)
  unfolding accept publish_user_online Conn.new
  accept-IsConsistent r session claims p admitted w i =
      after P E.env _ _ _ (device_id_of-IsConsistent claims w i) λ device_id w i.
        after P E.env _ _ _ (read_online-IsConsistent claims.user_id w i) λ online w i.
          let rate = E.env.config.chat.frame_rate_limit_per_second in
          let conn =
            Conn.new claims.user_id device_id (some session) E.env.this_io_manager E.env.now_ms
              rate in
          after P E.env _ _ _ (add_conn-IsConsistent conn p admitted w i) λ _ w i.
            after P E.env _ _ _
              (send_frame-IsConsistent P E.env (some session) "auth_ok" _ false (pos 0) w i)
              λ _ w i. after P E.env _ _ _ (others-IsConsistent P E.env i) λ _ w i.
                after P E.env _ _ _
                  (branch P E.env online _ _ (λ w i. i)
                    (λ w i.
                      after P E.env _ _ _
                        (publish-IsConsistent P E.env "business.user.online" _ 5 w i) λ _ w i. i)
                    w i)
                  λ _ w i. i

  -- A connection that is opened leaves the state consistent, whether it is let in, refused or the
  -- handler throws, if the limit on the devices of a user is positive and the user of a valid token has
  -- the property with the new session.
  pub on_connect-IsConsistent :
      (r : Request) (session : ℕ) (w : World V)
      → 1 ≤ to_u64 E.env.config.chat.max_devices_per_user
      → ((claims : JwtClaims V)
          → authenticate E r ≡ returned claims
          → P claims.user_id (some session))
      → IsConsistent P E.env w
      → IsConsistent P E.env (on_connect E r session w).1
  unfolding on_connect
  on_connect-IsConsistent r session w p h i = outcome (authenticate E r) refl w i
    where
      outcome :
          (o : Outcome (JwtClaims V))
          → authenticate E r ≡ o
          → Keeps (IsConsistent P E.env) (elim o as (λ _. M V (ℤ × Request)) [
            | returned claims ↦ accept E r session claims
            | failed err ↦ do code ← refuse E session err; pure (code, r)
            | thrown ↦ throwing none
          ])
      outcome (returned claims) e w i = accept-IsConsistent r session claims p (h claims e) w i
      outcome (failed err) e w i =
          after P E.env _ _ _ (refuse-IsConsistent session err w i) λ code w i. i
      outcome thrown e w i = i

  remove_conn-IsConsistent :
      (uid : ℕ) (did : String) → Keeps (IsConsistent P E.env) (remove_conn E uid did)
  unfolding remove_conn
  remove_conn-IsConsistent uid did w i = record {
    registry = remove-IsValid uid did w.registry i.registry;
    admitted = remove-Admits P uid did w.registry i.admitted;
    queue = i.queue;
    pending = i.pending;
  }

  -- A connection that is closed leaves the state consistent.
  pub on_close-IsConsistent :
      (r : Request) (w : World V) → IsConsistent P E.env w → IsConsistent P E.env (on_close E r w).1
  unfolding on_close publish_user_offline
  on_close-IsConsistent r w i = elim (Option-cases (identity E r)) [
    | inl e ↦ rw (e, on_close) i
    | inr ((uid, did), e) ↦
        rw (e, on_close)
          (after P E.env _ _ _ (remove_conn-IsConsistent uid did w i) λ _ w i.
            after P E.env _ _ _ (read_online-IsConsistent uid w i) λ online w i.
              after P E.env _ _ _
                (branch P E.env online _ _ (λ w i. i)
                  (λ w i.
                    after P E.env _ _ _
                      (publish-IsConsistent P E.env "business.user.offline" _ 5 w i) λ _ w i. i)
                  w i)
                λ _ w i. i)
  ]
