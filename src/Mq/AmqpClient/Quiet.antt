-- ===== src/Mq/AmqpClient/Quiet.antt =====
-- The methods of chat/mq/amqp_client that neither publish nor answer a delivery.
use flz_chat.Common.{
  ℕ, ℤ, String, ◌≡◌, refl, Bool, true, false, Option, none, some, List, [], Outcome, returned,
  failed, thrown, ltb, if_cases, Bool-cases, inl, inr,
}
use flz_chat.Config.{RabbitMqConfig}
use flz_chat.Mq.Rabbit.{
  RpcReply, no_reply, normal, library_exception, connection_closed, channel_closed,
  server_exception, is_normal, status_ok, is_status, Method, channel_open, basic_qos, basic_consume,
  channel_close, Call, socket_open, login, send, connection_close, Received, Rabbit,
}
use flz_chat.Mq.AmqpClient.{
  AmqpClient, Action, continue, record_call, rpc, check_rpc_reply, set_up_channel, open_channel,
  hang_up, close, close_unless, or_close, credentials, rpc_reply_to_text, log_in, open_socket,
  with_socket, with_connection, connect,
}
use flz_chat.Mq.AmqpClient.Declare.{
  declare_chat_topology, declare_business_exchange, declare_for_publisher, declare_for_consumer,
}
use flz_chat.Mq.AmqpClient.Messages.{start_consume, consumed, consume}
use flz_chat.Mq.AmqpClient.Views.{is_quiet_method, IsUnmoved, KeepsCalls}

module _ (P : List Call → Type 0) (q : IsUnmoved P) where
  pub bind-KeepsCalls :
      {A B : Type 0} (m : Action A) (f : A → Action B)
      → KeepsCalls P m
      → ((a : A) → KeepsCalls P (f a))
      → KeepsCalls P (λ c. continue (m c).0 f (m c).1)
  unfolding continue
  bind-KeepsCalls m f k l c o = go (m c).0 (m c).1 (k c o)
    where
      go : (r : Outcome _) (c' : AmqpClient) → P c'.calls → P (continue r f c').1.calls
      go (returned a) c' o' = l a c' o'
      go (failed err) c' o' = o'
      go thrown c' o' = o'

  hang_up-quiet : (m : Option ℕ) (c : AmqpClient) → P c.calls → P (hang_up m c).calls
  unfolding hang_up
  hang_up-quiet none c o = o
  hang_up-quiet (some h) c o =
      let closed =
        record_call (connection_close c.conn)
          (record_call (send c.conn c.channel_id channel_close) c) in
      q _ _ refl (
        if_cases (λ (x : AmqpClient). P x.calls) c.connected closed c
          (λ _. q _ _ refl (q _ _ refl o)) (λ _. o))

  pub close-quiet : (c : AmqpClient) → P c.calls → P (close c).calls
  unfolding close
  close-quiet c o = hang_up-quiet c.conn c o

  pub or_close-quiet : {A : Type 0} (m : Action A) → KeepsCalls P m → KeepsCalls P (or_close m)
  unfolding or_close close_unless
  or_close-quiet {A} m k c o = go (m c).0 (m c).1 (k c o)
    where
      go : (r : Outcome A) (c' : AmqpClient) → P c'.calls → P (close_unless r c').1.calls
      go (returned a) c' o' = o'
      go (failed err) c' o' = close-quiet c' o'
      go thrown c' o' = close-quiet c' o'

  module _ (R : Rabbit) where
    rpc-quiet : (m : Method) (op : String) → is_quiet_method m ≡ true → KeepsCalls P (rpc R m op)
    unfolding rpc check_rpc_reply
    rpc-quiet m op e c o = q _ _ refl (q _ _ e o)

    declare_chat_topology-quiet : KeepsCalls P (declare_chat_topology R)
    unfolding declare_chat_topology
    declare_chat_topology-quiet = bind-KeepsCalls _ _ (rpc-quiet _ _ refl) λ _.
        bind-KeepsCalls _ _ (rpc-quiet _ _ refl) λ _. bind-KeepsCalls _ _ (rpc-quiet _ _ refl) λ _.
          bind-KeepsCalls _ _ (rpc-quiet _ _ refl)
            λ _. bind-KeepsCalls _ _ (rpc-quiet _ _ refl) λ _. rpc-quiet _ _ refl

    pub declare_for_publisher-quiet : KeepsCalls P (declare_for_publisher R)
    unfolding declare_for_publisher declare_business_exchange
    declare_for_publisher-quiet =
        bind-KeepsCalls _ _ (rpc-quiet _ _ refl) λ _. declare_chat_topology-quiet

    pub declare_for_consumer-quiet : KeepsCalls P (declare_for_consumer R)
    unfolding declare_for_consumer
    declare_for_consumer-quiet = declare_chat_topology-quiet

    pub start_consume-quiet :
        (queue tag : String) (auto : Bool) → KeepsCalls P (start_consume R queue tag auto)
    unfolding start_consume
    start_consume-quiet queue tag auto =
        rpc-quiet (basic_consume queue tag false auto false []) "amqp_basic_consume" refl

    set_up_channel-quiet : (n : ℕ) → KeepsCalls P (set_up_channel R n)
    unfolding set_up_channel
    set_up_channel-quiet n =
        bind-KeepsCalls (rpc R channel_open "amqp_channel_open") _
          (rpc-quiet channel_open "amqp_channel_open" refl)
          (λ _ c o. elim (Bool-cases (ltb 0 n)) [
            | inl e ↦ rw e (rpc-quiet (basic_qos 0 n false) "amqp_basic_qos" refl c o)
            | inr e ↦ rw e o
          ])

    pub open_channel-quiet : (n : ℕ) → KeepsCalls P (open_channel R n)
    unfolding open_channel
    open_channel-quiet n c o =
        if_cases (λ (x : Outcome (Unit {0}) × AmqpClient). P x.1.calls) c.connected
          (set_up_channel R n c) (failed "not connected", c) (λ _. set_up_channel-quiet n c o)
          (λ _. o)

    consumed-quiet : (r : RpcReply) (e : Received) → KeepsCalls P (consumed R r e)
    unfolding consumed
    consumed-quiet normal e c o = q _ _ refl o
    consumed-quiet no_reply e c o = o
    consumed-quiet (library_exception s) e c o = o
    consumed-quiet (connection_closed code) e c o = o
    consumed-quiet (channel_closed code) e c o = o
    consumed-quiet server_exception e c o = o

    pub consume-quiet : (timeout_ms : ℤ) → KeepsCalls P (consume R timeout_ms)
    unfolding consume
    consume-quiet timeout_ms c o = consumed-quiet _ _ _ (q _ _ refl (q _ _ refl o))

    module _ (cfg : RabbitMqConfig) where
      log_in-quiet : KeepsCalls P (log_in R cfg)
      unfolding log_in
      log_in-quiet c o =
          let r = R.login c.calls (credentials cfg) in
          let c' = record_call (login c.conn (credentials cfg) r) c in
          if_cases (λ (x : Outcome (Unit {0}) × AmqpClient). P x.1.calls) (is_normal r)
            (returned tt, record c' { connected = true }) (failed (rpc_reply_to_text R r), close c')
            (λ _. q _ _ refl o) (λ _. close-quiet c' (q _ _ refl o))

      open_socket-quiet : KeepsCalls P (open_socket R cfg)
      unfolding open_socket
      open_socket-quiet c o =
          let c' = record_call (socket_open c.socket cfg.host cfg.port) c in
          let ret = R.socket_open c.calls cfg.host cfg.port in
          if_cases (λ (x : Outcome (Unit {0}) × AmqpClient). P x.1.calls) (is_status ret status_ok)
            (log_in R cfg c') (failed (R.error_string2 ret), close c')
            (λ _. log_in-quiet c' (q _ _ refl o)) (λ _. close-quiet c' (q _ _ refl o))

      with_socket-quiet : (r : Option ℕ) → KeepsCalls P (with_socket R cfg r)
      unfolding with_socket
      with_socket-quiet none c o = close-quiet c o
      with_socket-quiet (some s) c o = open_socket-quiet c o

      with_connection-quiet : (r : Option ℕ) → KeepsCalls P (with_connection R cfg r)
      unfolding with_connection
      with_connection-quiet none c o = o
      with_connection-quiet (some h) c o = with_socket-quiet _ _ (q _ _ refl o)

      pub connect-quiet : KeepsCalls P (connect R cfg)
      unfolding connect
      connect-quiet c o = with_connection-quiet _ _ (q _ _ refl (close-quiet c o))
