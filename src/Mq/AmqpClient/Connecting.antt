-- ===== src/Mq/AmqpClient/Connecting.antt =====
-- `Connect` and `Close` of chat/mq/amqp_client: how they leave the connection.
use flz_chat.Common.{
  ℕ, ◌≡◌, refl, subst, sym, inl, inr, Bool, true, false, Option, none, some, List, ◌∷◌, nat_eq,
  beq_refl, Outcome, returned, failed, thrown, if◌then◌else◌, if_cases,
}
use flz_chat.Config.{RabbitMqConfig}
use flz_chat.Mq.Rabbit.{
  is_normal, status_ok, is_status, channel_close, Call, new_connection, socket_open, login, send,
  connection_close, destroy_connection, Rabbit,
}
use flz_chat.Mq.AmqpClient.{
  AmqpClient, is_returned, Action, continue, record_call, hang_up, close, log_in, open_socket,
  with_socket, with_connection, connect, close_unless, or_close, credentials, rpc_reply_to_text,
}
use flz_chat.Mq.AmqpClient.Handles.{
  Live, follow_live, follow, live, IsOpen, IsClosed, IsSound, KeepsOpen,
}

-- A client with a connection that the calls leave there, with a login or not.
record IsHeld (c : AmqpClient) : Type 0 where
  handle : ℕ
  conn : c.conn ≡ some handle
  traced :
      live c.calls
      ≡ some (some (record { conn = handle; socket = c.socket; logged_in = c.connected }))

abbrev at : ℕ → Option ℕ → Bool → Option Live
at h s b = some (record { conn = h; socket = s; logged_in = b })

live_next :
    (k : Call) (ks : List Call) (s t : Option Live)
    → live ks ≡ some s
    → follow (some s) k ≡ some t
    → live (k ∷ ks) ≡ some t
unfolding live
live_next k ks s t h e = rw h e

hang_up-IsHeld :
    (c : AmqpClient) (h : ℕ) (b : Bool)
    → c.connected ≡ b
    → c.conn ≡ some h
    → live c.calls ≡ some (at h c.socket b)
    → live (hang_up (some h) c).calls ≡ some none
unfolding hang_up follow follow_live
hang_up-IsHeld c h b q e t =
    subst
      (λ (x : Bool).
        let closed =
          record_call (connection_close c.conn)
            (record_call (send c.conn c.channel_id channel_close) c) in
        live (record_call (destroy_connection c.conn) (if x then closed else c)).calls ≡ some none)
      (sym q) (closing b t)
  where
    closing :
        (x : Bool)
        → live c.calls ≡ some (at h c.socket x)
        → let closed =
            record_call
              (connection_close c.conn)
              (record_call (send c.conn c.channel_id channel_close) c) in
          live (record_call (destroy_connection c.conn) (if x then closed else c)).calls ≡ some none
    closing true t =
        live_next _ _ (at h c.socket false) none
          (live_next _ _ (at h c.socket true) (at h c.socket false)
            (live_next _ _ (at h c.socket true) (at h c.socket true) t (rw (e, beq_refl h) refl))
            (rw (e, beq_refl h) refl))
          (rw (e, beq_refl h) refl)
    closing false t = live_next _ _ (at h c.socket false) none t (rw (e, beq_refl h) refl)

close-IsHeld : (c : AmqpClient) → IsHeld c → IsClosed (close c)
unfolding close
close-IsHeld c h = record {
  conn = refl;
  connected = refl;
  traced =
      subst (λ (m : Option ℕ). live (hang_up m c).calls ≡ some none) (sym h.conn)
        (hang_up-IsHeld c h.handle c.connected refl h.conn h.traced);
}

-- `Close` leaves no connection: what was made is destroyed, and nothing else is.
pub close-IsClosed : (c : AmqpClient) → IsSound c → IsClosed (close c)
unfolding close hang_up
close-IsClosed c (inl o) = close-IsHeld c (record {
  handle = o.handle;
  conn = o.conn;
  traced =
      subst
        (λ (b : Bool).
          live c.calls ≡ some (some (record { conn = o.handle; socket = c.socket; logged_in = b })))
        (sym o.connected) o.traced;
})
close-IsClosed c (inr z) = record {
  conn = refl;
  connected = refl;
  traced = subst (λ (m : Option ℕ). live (hang_up m c).calls ≡ some none) (sym z.conn) z.traced;
}

-- How an attempt to connect may end: with a login, or with an error and without a connection.
abbrev pub Connects : Outcome (Unit {0}) × AmqpClient → Type 0
Connects (returned r, c) = IsOpen c
Connects (failed err, c) = IsClosed c
Connects (thrown, c) = IsClosed c

module _ (R : Rabbit) (cfg : RabbitMqConfig) where
  log_in-Connects :
      (c : AmqpClient) (h s : ℕ)
      → c.conn ≡ some h
      → c.socket ≡ some s
      → c.connected ≡ false
      → live c.calls ≡ some (at h c.socket false)
      → Connects (log_in R cfg c)
  unfolding log_in follow follow_live
  log_in-Connects c h s e f d t =
      let r = R.login c.calls (credentials cfg) in
      let c' = record_call (login c.conn (credentials cfg) r) c in
      if_cases Connects (is_normal r) (returned tt, record c' { connected = true })
        (failed (rpc_reply_to_text R r), close c')
        (λ q. record {
          handle = h;
          conn = e;
          connected = refl;
          traced =
              live_next (login c.conn (credentials cfg) r) c.calls (at h c.socket false)
                (at h c.socket true) t (rw (e, f, q, beq_refl h) refl);
        })
        (λ q. close-IsHeld c' (record {
          handle = h;
          conn = e;
          traced =
              live_next (login c.conn (credentials cfg) r) c.calls (at h c.socket false)
                (at h c.socket c.connected) t (rw (e, f, q, d, beq_refl h) refl);
        }))

  open_socket-Connects :
      (c : AmqpClient) (h s : ℕ)
      → c.conn ≡ some h
      → c.socket ≡ some s
      → c.connected ≡ false
      → live c.calls ≡ some (at h c.socket false)
      → Connects (open_socket R cfg c)
  unfolding open_socket follow follow_live
  open_socket-Connects c h s e f d t =
      let c' = record_call (socket_open c.socket cfg.host cfg.port) c in
      let ret = R.socket_open c.calls cfg.host cfg.port in
      let opened : live c'.calls ≡ some (at h c.socket false) =
        live_next (socket_open c.socket cfg.host cfg.port) c.calls (at h c.socket false)
          (at h c.socket false) t (rw (f, beq_refl s) refl) in
      if_cases Connects (is_status ret status_ok) (log_in R cfg c')
        (failed (R.error_string2 ret), close c') (λ q. log_in-Connects c' h s e f d opened)
        (λ q. close-IsHeld c' (record {
          handle = h;
          conn = e;
          traced = subst (λ (b : Bool). live c'.calls ≡ some (at h c.socket b)) (sym d) opened;
        }))

  with_socket-Connects :
      (r : Option ℕ) (c : AmqpClient) (h : ℕ)
      → c.conn ≡ some h
      → c.socket ≡ r
      → c.connected ≡ false
      → live c.calls ≡ some (at h c.socket false)
      → Connects (with_socket R cfg r c)
  unfolding with_socket
  with_socket-Connects none c h e f d t = close-IsHeld c (record {
    handle = h;
    conn = e;
    traced = subst (λ (b : Bool). live c.calls ≡ some (at h c.socket b)) (sym d) t;
  })
  with_socket-Connects (some s) c h e f d t = open_socket-Connects c h s e f d t

  with_connection-Connects :
      (r : Option ℕ) (c : AmqpClient)
      → c.conn ≡ r
      → c.socket ≡ none
      → c.connected ≡ false
      → live c.calls ≡ follow (some none) (new_connection r)
      → Connects (with_connection R cfg r c)
  unfolding with_connection follow follow_live
  with_connection-Connects none c e f d t = record { conn = e; connected = d; traced = t }
  with_connection-Connects (some h) c e f d t =
      with_socket-Connects (R.socket_new c.calls) _ h e refl d (
        live_next _ _ (at h none false) (at h (R.socket_new c.calls) false) t
          (rw (e, beq_refl h) refl))

  -- `Connect`, also on a client that has a connection, ends with a login, or with an error and no
  -- connection: whatever fails on the way, what was made is destroyed, and only that.
  pub connect-Connects : (c : AmqpClient) → IsSound c → Connects (connect R cfg c)
  unfolding connect close live
  connect-Connects c i =
      with_connection-Connects (R.new_connection (close c).calls) _ refl refl refl
        (rw (close-IsClosed c i).traced refl)

close_unless-Connects :
    (r : Outcome (Unit {0})) (c : AmqpClient) → IsOpen c → Connects (close_unless r c)
unfolding close_unless
close_unless-Connects (returned a) c o = o
close_unless-Connects (failed err) c o = close-IsClosed c (inl o)
close_unless-Connects thrown c o = close-IsClosed c (inl o)

pub or_close-Connects :
    (m : Action (Unit {0})) → KeepsOpen m → (c : AmqpClient) → IsOpen c → Connects (or_close m c)
unfolding or_close
or_close-Connects m k c o = close_unless-Connects (m c).0 (m c).1 (k c o)

pub continue-Connects :
    (r : Outcome (Unit {0})) (c : AmqpClient) (f : Unit {0} → Action (Unit {0}))
    → Connects (r, c)
    → ((a : Unit {0}) (c' : AmqpClient) → IsOpen c' → Connects (f a c'))
    → Connects (continue r f c)
unfolding continue
continue-Connects (returned a) c f o k = k a c o
continue-Connects (failed err) c f o k = o
continue-Connects thrown c f o k = o

pub Connects-IsSound : (r : Outcome (Unit {0})) (c : AmqpClient) → Connects (r, c) → IsSound c
Connects-IsSound (returned a) c o = inl o
Connects-IsSound (failed err) c o = inr o
Connects-IsSound thrown c o = inr o

-- A client that is connected has a connection in use.
pub connected-IsOpen : (c : AmqpClient) → IsSound c → c.connected ≡ true → IsOpen c
connected-IsOpen c (inl o) e = o
connected-IsOpen c (inr z) e = absurd (cc z.connected)

pub Connects-IsOpen :
    (r : Outcome (Unit {0})) (c : AmqpClient) → Connects (r, c) → is_returned r ≡ true → IsOpen c
Connects-IsOpen (returned a) c o e = o
Connects-IsOpen (failed err) c o e = absurd (cc)
Connects-IsOpen thrown c o e = absurd (cc)
