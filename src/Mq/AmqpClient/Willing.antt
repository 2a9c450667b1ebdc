-- ===== src/Mq/AmqpClient/Willing.antt =====
-- chat/mq/amqp_client at a broker that takes everything.
use flz_chat.Common.{
  ℕ, ℤ, String, ◌≡◌, refl, subst, sym, true, Option, some, List, Outcome, returned, nat_eq,
}
use flz_chat.Config.{RabbitMqConfig}
use flz_chat.Mq.Rabbit.{normal, status_ok, Method, Call, Login, Rabbit}
use flz_chat.Mq.AmqpClient.{
  AmqpClient, Action, continue, rpc, check_rpc_reply, set_up_channel, open_channel, close_unless,
  or_close, credentials, log_in, open_socket, with_socket, with_connection, connect,
}
use flz_chat.Mq.AmqpClient.Declare.{
  declare_chat_topology, declare_business_exchange, declare_for_publisher,
}
use flz_chat.Mq.AmqpClient.Messages.{send_method}

-- The library gives a connection and a socket, and all its answers are good ones.
pub record IsWilling (R : Rabbit) : Type 0 where
  pub new_connection : (ks : List Call) → (h : ℕ) × (R.new_connection ks ≡ some h)
  pub socket_new : (ks : List Call) → (h : ℕ) × (R.socket_new ks ≡ some h)
  pub socket_open :
      (ks : List Call) (host : String) (port : ℤ) → R.socket_open ks host port ≡ status_ok
  pub login : (ks : List Call) (l : Login) → R.login ks l ≡ normal
  pub rpc_reply : (ks : List Call) → R.rpc_reply ks ≡ normal
  pub status : (ks : List Call) (m : Method) → R.status ks m ≡ status_ok

-- A call of `Connect` that returned a connected client.
abbrev pub IsConnected : Outcome (Unit {0}) × AmqpClient → Type 0
IsConnected r = (r.0 ≡ returned tt) × (r.1.connected ≡ true)

-- An action that returns, and leaves the client connected if it was.
pub record Succeeds (m : Action (Unit {0})) : Type 0 where
  pub result : (c : AmqpClient) → c.connected ≡ true → (m c).0 ≡ returned tt
  pub connected : (c : AmqpClient) → c.connected ≡ true → (m c).1.connected ≡ true

pub Succeeds-bind :
    (m : Action (Unit {0})) (f : Unit {0} → Action (Unit {0}))
    → Succeeds m
    → Succeeds (f tt)
    → Succeeds (λ c. continue (m c).0 f (m c).1)
unfolding continue
Succeeds-bind m f s t = record {
  result = λ c e. rw (s.result c e, continue) (t.result (m c).1 (s.connected c e));
  connected = λ c e. rw (s.result c e, continue) (t.connected (m c).1 (s.connected c e));
}

pub Succeeds-or_close : (m : Action (Unit {0})) → Succeeds m → Succeeds (or_close m)
unfolding or_close close_unless
Succeeds-or_close m s = record {
  result = λ c e. rw (s.result c e, close_unless) refl;
  connected = λ c e. rw (s.result c e, close_unless) (s.connected c e);
}

module _ (R : Rabbit) (w : IsWilling R) where
  rpc-Succeeds : (m : Method) (op : String) → Succeeds (rpc R m op)
  unfolding rpc check_rpc_reply
  rpc-Succeeds m op = record { result = λ c e. rw (w.rpc_reply _) refl; connected = λ c e. e }

  declare_chat_topology-Succeeds : Succeeds (declare_chat_topology R)
  unfolding declare_chat_topology
  declare_chat_topology-Succeeds = Succeeds-bind _ _ (rpc-Succeeds _ _) (
      Succeeds-bind _ _ (rpc-Succeeds _ _) (
        Succeeds-bind _ _ (rpc-Succeeds _ _) (
          Succeeds-bind _ _ (rpc-Succeeds _ _)
            (Succeeds-bind _ _ (rpc-Succeeds _ _) (rpc-Succeeds _ _)))))

  pub declare_for_publisher-Succeeds : Succeeds (declare_for_publisher R)
  unfolding declare_for_publisher declare_business_exchange
  declare_for_publisher-Succeeds =
      Succeeds-bind _ _ (rpc-Succeeds _ _) declare_chat_topology-Succeeds

  pub open_channel_0-Succeeds : Succeeds (open_channel R 0)
  unfolding open_channel set_up_channel continue rpc check_rpc_reply
  open_channel_0-Succeeds = record {
    result = λ c e. rw (e, w.rpc_reply _, continue) refl;
    connected = λ c e. rw (e, w.rpc_reply _, continue) refl;
  }

  module _ (cfg : RabbitMqConfig) where
    log_in-willing : (c : AmqpClient) → IsConnected (log_in R cfg c)
    unfolding log_in
    log_in-willing c = rw (w.login c.calls (credentials cfg)) (refl, refl)

    with_socket-willing :
        (r : Option ℕ) (s : ℕ) (c : AmqpClient) → r ≡ some s → IsConnected (with_socket R cfg r c)
    unfolding with_socket open_socket
    with_socket-willing r s c e =
        subst (λ (x : Option ℕ). IsConnected (with_socket R cfg x c)) (sym e)
          (rw (w.socket_open c.calls cfg.host cfg.port) (log_in-willing _))

    with_connection-willing :
        (r : Option ℕ) (h : ℕ) (c : AmqpClient)
        → r ≡ some h
        → IsConnected (with_connection R cfg r c)
    unfolding with_connection
    with_connection-willing r h c e =
        subst (λ (x : Option ℕ). IsConnected (with_connection R cfg x c)) (sym e)
          (let (s, f) = w.socket_new c.calls in with_socket-willing _ s _ f)

    pub connect-willing : (c : AmqpClient) → IsConnected (connect R cfg c)
    unfolding connect
    connect-willing c = let (h, e) = w.new_connection _ in with_connection-willing _ h _ e

  pub send_method-willing : (m : Method) (c : AmqpClient) → (send_method R m c).0 ≡ returned tt
  unfolding send_method
  send_method-willing m c = rw (w.status c.calls m) refl
