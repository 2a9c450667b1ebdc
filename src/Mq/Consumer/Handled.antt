-- ===== src/Mq/Consumer/Handled.antt =====
-- A message that chat/mq/consumer hands to its handler, which acknowledges it.
use flz_chat.Common.{
  ℤ, ◌≡◌, refl, ap, true, false, not, ◌&&◌, some, [], ◌∷◌, ◌++◌, returned, if_cases,
}
use flz_chat.Metrics.{inc_mq_consume}
use flz_chat.World.{World, M}
use flz_chat.Util.Lru.{LruIdempotencyCache, try_mark}
use flz_chat.Mq.Envelope.{Envelope, from_string}
use flz_chat.Dispatch.MqToWs.{ConsumeResult, ack}
use flz_chat.Mq.AmqpClient.{is_returned}
use flz_chat.Mq.AmqpClient.Messages.{AmqpDelivery}
use flz_chat.Mq.AmqpClient.Views.{Settlement, acked}
use flz_chat.Mq.Consumer.{
  MqConsumer, ConsumerEnv, count, disconnect, answer, settle, settle_or_close,
  dispatch_to_scheduler, finish, on_marked, on_envelope_read, on_delivery,
}
use flz_chat.Mq.Consumer.Deliveries.{settled, settle_or_close_lem}

module _ {V : Type 0} (E : ConsumerEnv V) where
  pub settle_or_close_world :
      (s : Settlement) (c : MqConsumer V) → (settle_or_close E s c).world ≡ c.world
  unfolding settle_or_close disconnect settle
  settle_or_close_world s c =
      if_cases (λ (x : MqConsumer V). x.world ≡ c.world) (is_returned (answer E s c.client).0)
        (settle E s c) (disconnect (settle E s c)) (λ _. refl) (λ _. refl)

  -- What a message that was handled leaves.
  pub record IsHandled (d : AmqpDelivery) (env : Envelope V) (w : World V) (c c' : MqConsumer V)
      : Type 0 where
    pub world : c'.world ≡ record w { metrics = inc_mq_consume env.type "ok" w.metrics }
    pub answered : settled c' ≡ settled c ++ acked d.delivery_tag ∷ []

  -- A new message whose handler acknowledges it in time is acknowledged, and leaves the process as the
  -- handler does, with the message counted.
  pub on_delivery-IsHandled :
      (now_ms : ℤ) (d : AmqpDelivery) (env : Envelope V) (cache : LruIdempotencyCache)
      (h : Envelope V → M V ConsumeResult) (w : World V) (c : MqConsumer V)
      → from_string E.env.json d.body ≡ returned env
      → try_mark c.cache env.msg_id now_ms ≡ some (true, cache)
      → E.handler ≡ some h
      → (E.has_scheduler && not (E.in_time c.world env)) ≡ false
      → h env c.world ≡ (some ack, w)
      → (c' : MqConsumer V) × (on_delivery E now_ms d c ≡ some c') × IsHandled d env w c c'
  unfolding on_delivery on_envelope_read on_marked dispatch_to_scheduler finish count
  on_delivery-IsHandled now_ms d env cache h w c r m e q a =
      let marked : MqConsumer V = record c { cache = cache } in
      let handled : MqConsumer V = record marked { world = w } in
      let dispatched : dispatch_to_scheduler E env marked ≡ (ack, handled) =
        rw (dispatch_to_scheduler, e, q, a) refl in
      let c' = count env.type "ok" (settle_or_close E (acked d.delivery_tag) handled) in
      let finished : on_marked E d env (true, marked) ≡ c' =
        ap (λ (x : ConsumeResult × MqConsumer V). finish E d env x.0 x.1) dispatched in
      (
        c',
        rw (r, on_delivery, on_envelope_read, m) (ap (λ (x : MqConsumer V). some x) finished),
        record {
          world =
              ap (λ (v : World V). record v { metrics = inc_mq_consume env.type "ok" v.metrics })
                (settle_or_close_world (acked d.delivery_tag) handled);
          answered = (settle_or_close_lem E (acked d.delivery_tag) handled).0;
        },
      )
