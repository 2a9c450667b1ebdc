-- ===== src/Mq/Consumer/Rounds.antt =====
-- The connection of the consumer thread in a round of chat/mq/consumer.
use flz_chat.Common.{
  ℤ, pos, ◌≡◌, refl, inl, inr, Bool, true, false, not, ◌&&◌, Option, none, some, Outcome, returned,
  failed, thrown, if_cases, Bool-cases, Option-cases, is_blank, to_u16,
}
use flz_chat.World.Keeps.{Every}
use flz_chat.Util.Lru.{LruIdempotencyCache, try_mark}
use flz_chat.Mq.Envelope.{Envelope, from_string}
use flz_chat.Dispatch.MqToWs.{ConsumeResult, ack, nack_requeue, nack_drop}
use flz_chat.Mq.AmqpClient.{AmqpClient, is_returned, open_channel}
use flz_chat.Mq.AmqpClient.Declare.{declare_for_consumer}
use flz_chat.Mq.AmqpClient.Messages.{AmqpDelivery, start_consume}
use flz_chat.Mq.AmqpClient.Views.{Settlement, acked, nacked}
use flz_chat.Mq.AmqpClient.Handles.{IsOpen, IsSound, KeepsOpen}
use flz_chat.Mq.AmqpClient.Sound.{
  declare_for_consumer-KeepsOpen, open_channel-KeepsOpen, start_consume-KeepsOpen, ack-KeepsOpen,
  nack-KeepsOpen, consume-KeepsOpen,
}
use flz_chat.Mq.AmqpClient.Connecting.{
  Connects, close-IsClosed, connect-Connects, or_close-Connects, continue-Connects,
  Connects-IsSound, Connects-IsOpen, connected-IsOpen,
}
use flz_chat.Mq.Consumer.{
  MqConsumer, ConsumerEnv, count, disconnect, attempt, ensure_connected, answer, settle,
  settle_or_close, dispatch_to_scheduler, finish, on_marked, on_envelope_read, on_delivery,
  on_consumed, take, on_ensured, round,
}

module _ {V : Type 0} (E : ConsumerEnv V) where
  attempt-Connects : (c : AmqpClient) → IsSound c → Connects (attempt E c)
  unfolding attempt
  attempt-Connects c i =
      let R = E.rabbit in
      let q = E.env.config.rabbitmq in
      let n = to_u16 q.consumer_prefetch in
      let subscribe = start_consume R q.consumer_queue q.consumer_tag q.consumer_auto_ack in
      continue-Connects _ _ _ (connect-Connects R q c i) λ _ c' o.
        continue-Connects _ _ _
          (or_close-Connects (open_channel R n) (open_channel-KeepsOpen R n) c' o)
          λ _ c'' o'.
            continue-Connects _ _ _
              (or_close-Connects (declare_for_consumer R) (declare_for_consumer-KeepsOpen R) c'' o')
              λ _. or_close-Connects subscribe (start_consume-KeepsOpen R _ _ _)

  -- What `EnsureConnected` leaves: an open client if it is connected, and a sound one.
  abbrev Ensured : Bool → Bool × MqConsumer V → Type 0
  Ensured r (true, c) = IsOpen c.client × (c.running ≡ r)
  Ensured r (false, c) = IsSound c.client × (c.running ≡ r)

  -- A client that is open or sound, in a thread that runs or not as before.
  abbrev Open : Bool → MqConsumer V → Type 0
  Open r c = IsOpen c.client × (c.running ≡ r)

  abbrev pub Sound : Bool → MqConsumer V → Type 0
  Sound r c = IsSound c.client × (c.running ≡ r)

  ensure_connected-Ensured :
      (c : MqConsumer V) → IsSound c.client → Ensured c.running (ensure_connected E c)
  unfolding ensure_connected
  ensure_connected-Ensured c i =
      let a = attempt E c.client in
      if_cases (Ensured c.running) c.client.connected (true, c) _
        (λ e. (connected-IsOpen c.client i e, refl))
        (λ _.
          if_cases (Ensured c.running) (is_returned a.0) (true, record c { client = a.1 }) _
            (λ e. (Connects-IsOpen a.0 a.1 (attempt-Connects c.client i) e, refl))
            (λ _. (Connects-IsSound a.0 a.1 (attempt-Connects c.client i), refl)))

  answer-KeepsOpen : (s : Settlement) → KeepsOpen (answer E s)
  unfolding answer
  answer-KeepsOpen (acked tag) = ack-KeepsOpen E.rabbit tag
  answer-KeepsOpen (nacked tag requeue) = nack-KeepsOpen E.rabbit tag requeue

  settle-Open : (r : Bool) (s : Settlement) (c : MqConsumer V) → Open r c → Open r (settle E s c)
  unfolding settle
  settle-Open r s c (o, e) = (answer-KeepsOpen s c.client o, e)

  settle_or_close-Sound :
      (r : Bool) (s : Settlement) (c : MqConsumer V) → Open r c → Sound r (settle_or_close E s c)
  unfolding settle_or_close disconnect
  settle_or_close-Sound r s c o =
      let (o', e) = settle-Open r s c o in
      if_cases (Sound r) (is_returned (answer E s c.client).0) (settle E s c)
        (disconnect (settle E s c)) (λ _. (inl o', e))
        (λ _. (inr (close-IsClosed (settle E s c).client (inl o')), e))

  finish-Sound :
      (r : Bool) (d : AmqpDelivery) (env : Envelope V) (result : ConsumeResult) (c : MqConsumer V)
      → Open r c
      → Sound r (finish E d env result c)
  unfolding finish count
  finish-Sound r d env ack c o = settle_or_close-Sound r (acked d.delivery_tag) c o
  finish-Sound r d env nack_requeue c o = settle_or_close-Sound r (nacked d.delivery_tag true) c o
  finish-Sound r d env nack_drop c o = settle_or_close-Sound r (nacked d.delivery_tag false) c o

  dispatch-Open :
      (r : Bool) (env : Envelope V) (c : MqConsumer V)
      → Open r c
      → Open r (dispatch_to_scheduler E env c).1
  unfolding dispatch_to_scheduler
  dispatch-Open r env c o = elim (Option-cases E.handler) [
    | inl e ↦ rw (e, dispatch_to_scheduler) o
    | inr (h, e) ↦ elim (Bool-cases (E.has_scheduler && not (E.in_time c.world env))) [
      | inl q ↦ rw (e, dispatch_to_scheduler, q) o
      | inr q ↦ rw (e, dispatch_to_scheduler, q) o
    ]
  ]

  on_marked-Sound :
      (r : Bool) (d : AmqpDelivery) (env : Envelope V) (fresh : Bool) (c : MqConsumer V)
      → Open r c
      → Sound r (on_marked E d env (fresh, c))
  unfolding on_marked count
  on_marked-Sound r d env false c o =
      let (o', e) = settle-Open r (acked d.delivery_tag) (count env.type "dup" c) o in (inl o', e)
  on_marked-Sound r d env true c o = finish-Sound r d env _ _ (dispatch-Open r env c o)

  on_delivery-Sound :
      (r : Bool) (now_ms : ℤ) (d : AmqpDelivery) (c : MqConsumer V)
      → Open r c
      → Every (Sound r) (on_delivery E now_ms d c)
  unfolding on_delivery on_envelope_read count
  on_delivery-Sound r now_ms d c o = go (from_string E.env.json d.body)
    where
      marked :
          (env : Envelope V) (m : Option (Bool × LruIdempotencyCache))
          → Every (Sound r) (elim m as (λ _. Option (MqConsumer V)) [
            | none ↦ none
            | some (fresh, cache) ↦ some (on_marked E d env (fresh, record c { cache = cache }))
          ])
      marked env none = tt
      marked env (some (fresh, cache)) =
          on_marked-Sound r d env fresh (record c { cache = cache }) o

      go :
          (x : Outcome (Envelope V))
          → Every (Sound r) (elim x as (λ _. Option (MqConsumer V)) [
            | returned env ↦ on_envelope_read E now_ms d env c
            | failed err ↦ some (settle E (acked d.delivery_tag) (count d.routing_key "fail" c))
            | thrown ↦ none
          ])
      go (returned env) = marked env (try_mark c.cache env.msg_id now_ms)
      go (failed err) =
          let (o', e) = settle-Open r (acked d.delivery_tag) (count d.routing_key "fail" c) o in
          (inl o', e)
      go thrown = tt

  on_consumed-Sound :
      (r : Bool) (now_ms : ℤ) (keep_on : Bool) (x : Outcome AmqpDelivery) (c : MqConsumer V)
      → Open r c
      → Every (Sound r) (on_consumed E now_ms keep_on x c)
  unfolding on_consumed disconnect
  on_consumed-Sound r now_ms false x c (o, e) = (inl o, e)
  on_consumed-Sound r now_ms true (returned d) c o = on_delivery-Sound r now_ms d c o
  on_consumed-Sound r now_ms true (failed err) c (o, e) =
      if_cases (Sound r) (is_blank err) c (disconnect c) (λ _. (inl o, e))
        (λ _. (inr (close-IsClosed c.client (inl o)), e))
  on_consumed-Sound r now_ms true thrown c o = tt

  Every-elim :
      {A B : Type 0} (P : B → Type 0) (o : Option A) (f : A → B)
      → Every (λ a. P (f a)) o
      → Every P (elim o as (λ _. Option B) [ none ↦ none | some a ↦ some (f a) ])
  Every-elim P none f e = tt
  Every-elim P (some a) f e = e

  on_ensured-Sound :
      (r : Bool) (now_ms : ℤ) (keep_on : Bool) (backoff : ℤ) (x : Bool × MqConsumer V)
      → Ensured r x
      → Every (λ (n : MqConsumer V × ℤ). Sound r n.0) (on_ensured E now_ms keep_on backoff x)
  unfolding on_ensured take
  on_ensured-Sound r now_ms keep_on backoff (true, c) (o, e) =
      Every-elim (λ (n : MqConsumer V × ℤ). Sound r n.0) (take E now_ms keep_on c) _
        (on_consumed-Sound r now_ms keep_on _ _
          (consume-KeepsOpen E.rabbit (pos 1000) c.client o, e))
  on_ensured-Sound r now_ms keep_on backoff (false, c) o = o

  -- A round that ends leaves the client sound, and does not start or stop the thread.
  pub round-Sound :
      (now_ms : ℤ) (keep_on : Bool) (backoff : ℤ) (c : MqConsumer V)
      → IsSound c.client
      → Every (λ (n : MqConsumer V × ℤ). Sound c.running n.0) (round E now_ms keep_on (c, backoff))
  unfolding round
  round-Sound now_ms keep_on backoff c i =
      on_ensured-Sound c.running now_ms keep_on backoff (ensure_connected E c)
        (ensure_connected-Ensured c i)
