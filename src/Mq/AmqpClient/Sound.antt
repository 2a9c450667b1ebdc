-- ===== src/Mq/AmqpClient/Sound.antt =====
-- Every method of chat/mq/amqp_client leaves the client with a login or without a connection.
use flz_chat.Common.{
  ℕ, ℤ, String, ◌≡◌, refl, subst, sym, inl, inr, Bool, false, [], nat_eq, Bool-cases, failed, ltb,
  if◌then◌else◌,
}
use flz_chat.Mq.Rabbit.{
  RpcReply, no_reply, normal, library_exception, connection_closed, channel_closed,
  server_exception, Method, channel_open, basic_qos, basic_consume, Rabbit, Received,
}
use flz_chat.Mq.AmqpClient.{AmqpClient, rpc, set_up_channel, open_channel}
use flz_chat.Mq.AmqpClient.Declare.{
  declare_chat_topology, declare_business_exchange, declare_for_publisher, declare_for_consumer,
}
use flz_chat.Mq.AmqpClient.Messages.{
  start_consume, send_method, publish, consumed, consume, ack, nack,
}
use flz_chat.Mq.AmqpClient.Handles.{
  IsOpen, IsClosed, KeepsOpen, KeepsOpen-bind, send-IsOpen, rpc-KeepsOpen,
  maybe_release_buffers-IsOpen, consume_message-IsOpen, destroy_envelope-IsOpen,
}

module _ (R : Rabbit) where
  pub declare_chat_topology-KeepsOpen : KeepsOpen (declare_chat_topology R)
  unfolding declare_chat_topology
  declare_chat_topology-KeepsOpen = KeepsOpen-bind _ _ (rpc-KeepsOpen R _ _) λ _.
      KeepsOpen-bind _ _ (rpc-KeepsOpen R _ _) λ _. KeepsOpen-bind _ _ (rpc-KeepsOpen R _ _) λ _.
        KeepsOpen-bind _ _ (rpc-KeepsOpen R _ _)
          λ _. KeepsOpen-bind _ _ (rpc-KeepsOpen R _ _) λ _. rpc-KeepsOpen R _ _

  pub declare_for_publisher-KeepsOpen : KeepsOpen (declare_for_publisher R)
  unfolding declare_for_publisher declare_business_exchange
  declare_for_publisher-KeepsOpen =
      KeepsOpen-bind _ _ (rpc-KeepsOpen R _ _) λ _. declare_chat_topology-KeepsOpen

  pub declare_for_consumer-KeepsOpen : KeepsOpen (declare_for_consumer R)
  unfolding declare_for_consumer
  declare_for_consumer-KeepsOpen = declare_chat_topology-KeepsOpen

  pub start_consume-KeepsOpen :
      (q tag : String) (auto : Bool) → KeepsOpen (start_consume R q tag auto)
  unfolding start_consume
  start_consume-KeepsOpen q tag auto =
      rpc-KeepsOpen R (basic_consume q tag false auto false []) "amqp_basic_consume"

  send_method-KeepsOpen : (m : Method) → KeepsOpen (send_method R m)
  unfolding send_method
  send_method-KeepsOpen m c o = send-IsOpen m c o

  pub publish-KeepsOpen :
      (exchange routing_key body : String) (priority : ℕ) (message_id : String)
      → KeepsOpen (publish R exchange routing_key body priority message_id)
  unfolding publish
  publish-KeepsOpen exchange routing_key body priority message_id = send_method-KeepsOpen _

  pub ack-KeepsOpen : (tag : ℕ) → KeepsOpen (ack R tag)
  unfolding ack
  ack-KeepsOpen tag = send_method-KeepsOpen _

  pub nack-KeepsOpen : (tag : ℕ) (requeue : Bool) → KeepsOpen (nack R tag requeue)
  unfolding nack
  nack-KeepsOpen tag requeue = send_method-KeepsOpen _

  consumed-KeepsOpen : (r : RpcReply) (e : Received) → KeepsOpen (consumed R r e)
  unfolding consumed
  consumed-KeepsOpen normal e c o = destroy_envelope-IsOpen c o
  consumed-KeepsOpen no_reply e c o = o
  consumed-KeepsOpen (library_exception s) e c o = o
  consumed-KeepsOpen (connection_closed code) e c o = o
  consumed-KeepsOpen (channel_closed code) e c o = o
  consumed-KeepsOpen server_exception e c o = o

  pub consume-KeepsOpen : (timeout_ms : ℤ) → KeepsOpen (consume R timeout_ms)
  unfolding consume
  consume-KeepsOpen timeout_ms c o =
      consumed-KeepsOpen _ _ _ (consume_message-IsOpen _ _ _ (maybe_release_buffers-IsOpen c o))

  set_up_channel-KeepsOpen : (n : ℕ) → KeepsOpen (set_up_channel R n)
  unfolding set_up_channel
  set_up_channel-KeepsOpen n =
      KeepsOpen-bind (rpc R channel_open "amqp_channel_open") _
        (rpc-KeepsOpen R channel_open "amqp_channel_open")
        (λ _ c o. elim (Bool-cases (ltb 0 n)) [
          | inl q ↦ rw q (rpc-KeepsOpen R (basic_qos 0 n false) "amqp_basic_qos" c o)
          | inr q ↦ rw q o
        ])

  pub open_channel-KeepsOpen : (n : ℕ) → KeepsOpen (open_channel R n)
  unfolding open_channel
  open_channel-KeepsOpen n c o =
      subst
        (λ (b : Bool). IsOpen (if b then set_up_channel R n c else (failed "not connected", c)).1)
        (sym o.connected) (set_up_channel-KeepsOpen n c o)

  -- Without a connection `OpenChannel` makes no call.
  pub open_channel_closed :
      (n : ℕ) (c : AmqpClient) → IsClosed c → open_channel R n c ≡ (failed "not connected", c)
  unfolding open_channel
  open_channel_closed n c o = rw o.connected refl
