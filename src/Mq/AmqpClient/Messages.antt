-- ===== src/Mq/AmqpClient/Messages.antt =====
-- What chat/mq/amqp_client sends, takes and answers on an open channel.
use flz_chat.Common.{
  ℕ, ℤ, Bool, false, String, Option, none, some, [], returned, failed, quot_ℤ, rem_ℤ, pos, ◌*ℤ◌,
  if◌then◌else◌,
}
use flz_chat.Mq.Rabbit.{
  RpcReply, no_reply, normal, library_exception, connection_closed, channel_closed,
  server_exception, status_ok, status_timeout, is_status, BasicProperties, Method, basic_consume,
  basic_publish, basic_ack, basic_nack, send, maybe_release_buffers, consume_message,
  destroy_envelope, Received, Rabbit,
}
use flz_chat.Mq.AmqpClient.{Action, record_call, rpc, rpc_reply_to_text}

pub record AmqpDelivery : Type 0 where
  pub delivery_tag : ℕ
  pub routing_key : String
  pub body : String
  pub message_id : String

-- `AmqpBytesToString`
abbrev pub bytes_to_string : Option String → String
bytes_to_string none = ""
bytes_to_string (some s) = s

unfoldable pub read_envelope : Received → AmqpDelivery
read_envelope e = record {
  delivery_tag = e.delivery_tag;
  routing_key = bytes_to_string e.routing_key;
  body = bytes_to_string e.body;
  message_id = if e.message_id_flag then bytes_to_string e.message_id else "";
}

module _ (R : Rabbit) where
  unfoldable pub start_consume : String → String → Bool → Action (Unit {0})
  unfolding rpc
  start_consume queue consumer_tag auto_ack =
      rpc R (basic_consume queue consumer_tag false auto_ack false []) "amqp_basic_consume"

  -- A method that has a status in place of a reply.
  unfoldable pub send_method : Method → Action (Unit {0})
  send_method m c =
      let ret = R.status c.calls m in
      (
        if is_status ret status_ok then returned tt else failed (R.error_string2 ret),
        record_call (send c.conn c.channel_id m) c,
      )

  unfoldable pub publish : String → String → String → ℕ → String → Action (Unit {0})
  unfolding send_method
  publish exchange routing_key body priority message_id =
      let props : BasicProperties = record {
        content_type = "application/json";
        delivery_mode = 2;
        priority = priority;
        message_id = message_id;
      } in
      send_method (basic_publish exchange routing_key false false props body)

  -- What `Consume` makes of a reply.
  unfoldable pub consumed : RpcReply → Received → Action AmqpDelivery
  unfolding read_envelope
  consumed normal e c = (returned (read_envelope e), record_call destroy_envelope c)
  consumed (library_exception status) e c = (
    failed (
        if is_status status status_timeout
        then ""
        else rpc_reply_to_text R (library_exception status)),
    c,
  )
  consumed no_reply e c = (failed (rpc_reply_to_text R no_reply), c)
  consumed (connection_closed code) e c = (failed (rpc_reply_to_text R (connection_closed code)), c)
  consumed (channel_closed code) e c = (failed (rpc_reply_to_text R (channel_closed code)), c)
  consumed server_exception e c = (failed (rpc_reply_to_text R server_exception), c)

  -- A failure without a text is a timeout, which leaves `err` as it was.
  unfoldable pub consume : ℤ → Action AmqpDelivery
  unfolding consumed
  consume timeout_ms c =
      let released = record_call (maybe_release_buffers c.conn) c in
      let (reply, e) = R.consume_message released.calls in
      let microseconds = rem_ℤ timeout_ms 1000 *ℤ pos 1000 in
      consumed reply e
        (record_call (consume_message c.conn (quot_ℤ timeout_ms 1000) microseconds) released)

  unfoldable pub ack : ℕ → Action (Unit {0})
  unfolding send_method
  ack delivery_tag = send_method (basic_ack delivery_tag false)

  unfoldable pub nack : ℕ → Bool → Action (Unit {0})
  unfolding send_method
  nack delivery_tag requeue = send_method (basic_nack delivery_tag false requeue)
