-- ===== src/Mq/Consumer/Deliveries.antt =====
-- The answers to the broker for the messages that chat/mq/consumer takes.
use flz_chat.Common.{
  ℕ, ℤ, ◌≡◌, refl, ◌∙◌, ap, subst, sym, ◌≢◌, Bool, true, false, not, ◌&&◌, some, List, [], ◌∷◌,
  ◌++◌, inl, inr, Outcome, returned, failed, thrown, Option-cases, Bool-cases, if_cases,
}
use flz_chat.Util.Lru.{LruIdempotencyCache}
use flz_chat.Util.Lru.Invariant.{IsValid, mark_spec, try_mark-mark_spec, mark_spec-IsValid}
use flz_chat.Mq.Envelope.{Envelope, from_string}
use flz_chat.Dispatch.MqToWs.{ConsumeResult, ack, nack_requeue, nack_drop}
use flz_chat.Mq.AmqpClient.{AmqpClient, is_returned}
use flz_chat.Mq.AmqpClient.Messages.{AmqpDelivery, send_method, ack as ack_delivery, nack}
use flz_chat.Mq.AmqpClient.Views.{Settlement, acked, nacked, settlements, settlements_unmoved}
use flz_chat.Mq.AmqpClient.Quiet.{close-quiet}
use flz_chat.Mq.Consumer.{
  MqConsumer, ConsumerEnv, count, disconnect, answer, settle, settle_or_close,
  dispatch_to_scheduler, finish, on_marked, on_envelope_read, on_delivery,
}

abbrev pub tag_of : Settlement → ℕ
tag_of (acked tag) = tag
tag_of (nacked tag requeue) = tag

-- What the thread has answered to the broker.
abbrev pub settled : {V : Type 0} → MqConsumer V → List Settlement
settled c = settlements c.client.calls

-- The state after a message differs in its settlements by one of that message, and the cache of ids
-- is the one that it should be.
pub record IsSettled {V : Type 0} (d : AmqpDelivery) (cache : LruIdempotencyCache)
    (c c' : MqConsumer V) : Type 0 where
  pub settlement : Settlement
  pub tag : tag_of settlement ≡ d.delivery_tag
  pub once : settled c' ≡ settled c ++ settlement ∷ []
  pub cache_kept : c'.cache ≡ cache

module _ {V : Type 0} (E : ConsumerEnv V) where
  answer-settlements :
      (s : Settlement) (c : AmqpClient)
      → settlements (answer E s c).1.calls ≡ settlements c.calls ++ s ∷ []
  unfolding answer ack_delivery nack send_method settlements
  answer-settlements (acked tag) c = refl
  answer-settlements (nacked tag requeue) c = refl

  pub settle_lem :
      (s : Settlement) (c : MqConsumer V)
      → (settled (settle E s c) ≡ settled c ++ s ∷ []) × ((settle E s c).cache ≡ c.cache)
  unfolding settle
  settle_lem s c = (answer-settlements s c.client, refl)

  pub settle_or_close_lem :
      (s : Settlement) (c : MqConsumer V)
      → (settled (settle_or_close E s c) ≡ settled c ++ s ∷ [])
        × ((settle_or_close E s c).cache ≡ c.cache)
  unfolding settle_or_close disconnect settle
  settle_or_close_lem s c =
      let l = settled c ++ s ∷ [] in
      if_cases (λ (x : MqConsumer V). (settled x ≡ l) × (x.cache ≡ c.cache))
        (is_returned (answer E s c.client).0) (settle E s c) (disconnect (settle E s c))
        (λ _. settle_lem s c)
        (λ _. (
          close-quiet (λ ks. settlements ks ≡ l) (settlements_unmoved l) (answer E s c.client).1
              (answer-settlements s c.client),
          refl,
        ))

  finish-IsSettled :
      (d : AmqpDelivery) (env : Envelope V) (r : ConsumeResult) (c : MqConsumer V)
      → IsSettled d c.cache c (finish E d env r c)
  unfolding finish
  finish-IsSettled d env ack c =
      let (s, k) = settle_or_close_lem (acked d.delivery_tag) c in
      record { settlement = acked d.delivery_tag; tag = refl; once = s; cache_kept = k }
  finish-IsSettled d env nack_requeue c =
      let (s, k) = settle_or_close_lem (nacked d.delivery_tag true) c in
      record { settlement = nacked d.delivery_tag true; tag = refl; once = s; cache_kept = k }
  finish-IsSettled d env nack_drop c =
      let (s, k) = settle_or_close_lem (nacked d.delivery_tag false) c in
      record { settlement = nacked d.delivery_tag false; tag = refl; once = s; cache_kept = k }

  dispatch_to_scheduler_lem :
      (env : Envelope V) (c : MqConsumer V)
      → let c' = (dispatch_to_scheduler E env c).1 in
        (settled c' ≡ settled c) × (c'.cache ≡ c.cache)
  unfolding dispatch_to_scheduler
  dispatch_to_scheduler_lem env c = elim (Option-cases E.handler) [
    | inl e ↦ rw (e, dispatch_to_scheduler) (refl, refl)
    | inr (h, e) ↦ elim (Bool-cases (E.has_scheduler && not (E.in_time c.world env))) [
      | inl q ↦ rw (e, dispatch_to_scheduler, q) (refl, refl)
      | inr q ↦ rw (e, dispatch_to_scheduler, q) (refl, refl)
    ]
  ]

  on_marked-IsSettled :
      (d : AmqpDelivery) (env : Envelope V) (fresh : Bool) (c : MqConsumer V)
      → IsSettled d c.cache c (on_marked E d env (fresh, c))
  unfolding on_marked count
  on_marked-IsSettled d env false c =
      let (s, k) = settle_lem (acked d.delivery_tag) (count env.type "dup" c) in
      record { settlement = acked d.delivery_tag; tag = refl; once = s; cache_kept = k }
  on_marked-IsSettled d env true c =
      let (s, k) = dispatch_to_scheduler_lem env c in
      let f =
        finish-IsSettled d env (dispatch_to_scheduler E env c).0
          (dispatch_to_scheduler E env c).1 in
      record {
        settlement = f.settlement;
        tag = f.tag;
        once = f.once ∙ ap (λ (l : List Settlement). l ++ f.settlement ∷ []) s;
        cache_kept = f.cache_kept ∙ k;
      }

  pub on_marked_cache :
      (d : AmqpDelivery) (env : Envelope V) (fresh : Bool) (c : MqConsumer V)
      → (on_marked E d env (fresh, c)).cache ≡ c.cache
  on_marked_cache d env fresh c = (on_marked-IsSettled d env fresh c).cache_kept

  -- A message whose text can be read without an exception is handled to its end, without a fault in
  -- the cache of ids: the broker gets one answer for it, an acknowledgement or a refusal under its tag,
  -- and the cache stays valid.
  pub on_delivery_settles :
      (now_ms : ℤ) (d : AmqpDelivery) (c : MqConsumer V)
      → IsValid c.cache
      → from_string E.env.json d.body ≢ thrown
      → (c' : MqConsumer V) × (on_delivery E now_ms d c ≡ some c')
        × (s : Settlement) × (tag_of s ≡ d.delivery_tag)
        × (settled c' ≡ settled c ++ s ∷ [])
        × IsValid c'.cache
  unfolding on_delivery on_envelope_read settle count
  on_delivery_settles now_ms d c v h = go (from_string E.env.json d.body) refl
    where
      go :
          (o : Outcome (Envelope V))
          → from_string E.env.json d.body ≡ o
          → (c' : MqConsumer V) × (on_delivery E now_ms d c ≡ some c')
            × (s : Settlement) × (tag_of s ≡ d.delivery_tag)
            × (settled c' ≡ settled c ++ s ∷ [])
            × IsValid c'.cache
      go (returned env) e =
          let (fresh, cache) = mark_spec c.cache env.msg_id now_ms in
          let p = on_marked-IsSettled d env fresh (record c { cache = cache }) in
          (
            on_marked E d env (fresh, record c { cache = cache }),
            rw (e, on_delivery, on_envelope_read, try_mark-mark_spec c.cache env.msg_id now_ms v)
                refl,
            p.settlement,
            p.tag,
            p.once,
            subst IsValid (sym p.cache_kept) (mark_spec-IsValid c.cache env.msg_id now_ms v),
          )
      go (failed err) e = (
        settle E (acked d.delivery_tag) (count d.routing_key "fail" c),
        rw (e, on_delivery) refl,
        acked d.delivery_tag,
        refl,
        (settle_lem (acked d.delivery_tag) (count d.routing_key "fail" c)).0,
        v,
      )
      go thrown e = absurd (h e)
