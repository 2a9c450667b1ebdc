-- ===== src/Mq/Publisher.antt =====
-- The queue side of chat/mq/publisher: what handlers hand to the publisher thread.
use flz_chat.Common.{
  ℕ, ℤ, leb, to_u64, Bool, true, false, String, some, [], ◌∷◌, ◌++◌, length, if◌then◌else◌,
}
use flz_chat.Metrics.{inc_mq_publish}
use flz_chat.World.{Env, M}

module _ {V : Type 0} (E : Env V) where
  -- `static_cast<size_t>(publisher_queue_capacity)`
  abbrev pub capacity : ℕ
  capacity = to_u64 E.config.rabbitmq.publisher_queue_capacity

  -- `false` if the queue is full.
  unfoldable pub publish : String → V → ℕ → M V Bool
  publish routing_key payload priority w =
      if leb capacity (length w.queue)
      then (some false, record w { metrics = inc_mq_publish routing_key "fail" w.metrics })
      else (
        some true,
        record w {
          queue =
              w.queue
              ++ record { routing_key = routing_key; payload = payload; priority = priority } ∷ [];
        },
      )

  abbrev user_payload : ℕ → V
  user_payload user_id = let J = E.json in J.put J.null "userId" (J.uint64 user_id)

  unfoldable pub publish_user_online : ℕ → M V Bool
  unfolding publish
  publish_user_online user_id = publish "business.user.online" (user_payload user_id) 5

  unfoldable pub publish_user_offline : ℕ → M V Bool
  unfolding publish
  publish_user_offline user_id = publish "business.user.offline" (user_payload user_id) 5

  abbrev ack_payload : ℤ → ℕ → V
  ack_payload message_id receiver_id =
      let J = E.json in
      J.put
        (J.put (J.put J.null "messageId" (J.int64 message_id)) "receiverId" (J.uint64 receiver_id))
        "ackAt" (J.text E.iso_now)

  unfoldable pub publish_msg_ack : ℤ → ℕ → M V Bool
  unfolding publish
  publish_msg_ack message_id receiver_id =
      publish "business.msg.ack" (ack_payload message_id receiver_id) 0
