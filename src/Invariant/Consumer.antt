-- ===== src/Invariant/Consumer.antt =====
-- The consistency of the state and the rounds of the thread of chat/mq/consumer.
use flz_chat.Session.Registry.Admission.{Admission}
use flz_chat.Common.{
  if_cases, is_blank, if◌then◌else◌, ℤ, pos, ◌*ℤ◌, ◌≤ℤ◌, ◌<ℤ◌, ◌≡◌, refl, ◌∙◌, subst, sym, Bool,
  true, false, not, ◌&&◌, String, some, inl, inr, Outcome, returned, failed, thrown, Option-cases,
  Bool-cases, arith,
}
use flz_chat.Util.Lru.Invariant.{IsValid, mark_spec, try_mark-mark_spec, mark_spec-IsValid}
use flz_chat.Mq.Envelope.{Envelope, from_string}
use flz_chat.Dispatch.MqToWs.{ConsumeResult, ack, nack_requeue, nack_drop, on_envelope}
use flz_chat.Mq.AmqpClient.{is_returned}
use flz_chat.Mq.AmqpClient.Messages.{AmqpDelivery, consume}
use flz_chat.Mq.AmqpClient.Views.{Settlement, acked, nacked}
use flz_chat.Mq.Consumer.{
  MqConsumer, ConsumerEnv, count, disconnect, settle, settle_or_close, attempt, ensure_connected,
  dispatch_to_scheduler, finish, on_marked, on_envelope_read, on_delivery, on_consumed, take,
  on_ensured, round,
}
use flz_chat.Mq.Consumer.Deliveries.{on_marked_cache}
use flz_chat.Invariant.{IsConsistent, others-IsConsistent}
use flz_chat.Mq.Consumer.Handled.{settle_or_close_world}
use flz_chat.Invariant.MqToWs.{on_envelope-IsConsistent}

-- The process is consistent, and the cache of ids valid.
pub record IsReady {V : Type 0} (P : Admission) (E : ConsumerEnv V) (c : MqConsumer V)
    : Type 0 where
  pub world : IsConsistent P E.env c.world
  pub cache : IsValid c.cache

module _ {V : Type 0} (P : Admission) (E : ConsumerEnv V) where
  settled-IsConsistent :
      (s : Settlement) (label result : String) (c : MqConsumer V)
      → IsConsistent P E.env c.world
      → IsConsistent P E.env (count label result (settle_or_close E s c)).world
  unfolding count
  settled-IsConsistent s label result c i =
      others-IsConsistent P E.env
        (subst (IsConsistent P E.env) (sym (settle_or_close_world E s c)) i)

  finish-IsConsistent :
      (d : AmqpDelivery) (env : Envelope V) (r : ConsumeResult) (c : MqConsumer V)
      → IsConsistent P E.env c.world
      → IsConsistent P E.env (finish E d env r c).world
  unfolding finish
  finish-IsConsistent d env ack c i = settled-IsConsistent (acked d.delivery_tag) _ _ c i
  finish-IsConsistent d env nack_requeue c i =
      settled-IsConsistent (nacked d.delivery_tag true) _ _ c i
  finish-IsConsistent d env nack_drop c i =
      settled-IsConsistent (nacked d.delivery_tag false) _ _ c i

  dispatch-IsConsistent :
      (env : Envelope V) (c : MqConsumer V)
      → E.handler ≡ some (on_envelope E.env)
      → IsConsistent P E.env c.world
      → IsConsistent P E.env (dispatch_to_scheduler E env c).1.world
  unfolding dispatch_to_scheduler
  dispatch-IsConsistent env c h i =
      elim (Bool-cases (E.has_scheduler && not (E.in_time c.world env))) [
        | inl q ↦ rw (h, dispatch_to_scheduler, q) i
        | inr q ↦ rw (h, dispatch_to_scheduler, q) (on_envelope-IsConsistent P E.env env c.world i)
      ]

  on_marked-IsConsistent :
      (d : AmqpDelivery) (env : Envelope V) (fresh : Bool) (c : MqConsumer V)
      → E.handler ≡ some (on_envelope E.env)
      → IsConsistent P E.env c.world
      → IsConsistent P E.env (on_marked E d env (fresh, c)).world
  unfolding on_marked settle count
  on_marked-IsConsistent d env false c h i = others-IsConsistent P E.env i
  on_marked-IsConsistent d env true c h i =
      finish-IsConsistent d env _ _ (dispatch-IsConsistent env c h i)

  on_envelope_read-IsReady :
      (now_ms : ℤ) (d : AmqpDelivery) (env : Envelope V) (c next : MqConsumer V)
      → E.handler ≡ some (on_envelope E.env)
      → IsReady P E c
      → on_envelope_read E now_ms d env c ≡ some next
      → IsReady P E next
  unfolding on_envelope_read
  on_envelope_read-IsReady now_ms d env c next h i e =
      let (fresh, cache) = mark_spec c.cache env.msg_id now_ms in
      let marked = record c { cache = cache } in
      let same : some (on_marked E d env (fresh, marked)) ≡ some next =
        sym (rw (on_envelope_read, try_mark-mark_spec c.cache env.msg_id now_ms i.cache) refl)
        ∙ e in
      let reached : on_marked E d env (fresh, marked) ≡ next = cc in
      subst (IsReady P E) reached (record {
        world = on_marked-IsConsistent d env fresh marked h i.world;
        cache =
            subst IsValid (sym (on_marked_cache E d env fresh marked))
              (mark_spec-IsValid c.cache env.msg_id now_ms i.cache);
      })

  on_delivery-IsReady :
      (now_ms : ℤ) (d : AmqpDelivery) (c next : MqConsumer V)
      → E.handler ≡ some (on_envelope E.env)
      → IsReady P E c
      → on_delivery E now_ms d c ≡ some next
      → IsReady P E next
  unfolding on_delivery settle count
  on_delivery-IsReady now_ms d c next h i e = go (from_string E.env.json d.body) refl
    where
      go : (o : Outcome (Envelope V)) → from_string E.env.json d.body ≡ o → IsReady P E next
      go (returned env) f =
          on_envelope_read-IsReady now_ms d env c next h i (rw (f, on_delivery) at e)
      go (failed err) f =
          let dropped = settle E (acked d.delivery_tag) (count d.routing_key "fail" c) in
          let step : some dropped ≡ some next = sym (rw (on_delivery, f) refl) ∙ e in
          let same : dropped ≡ next = cc in
          subst (IsReady P E) same
            (record { world = others-IsConsistent P E.env i.world; cache = i.cache })
      go thrown f = absurd (ground (arith, e, f))

  on_consumed-IsReady :
      (now_ms : ℤ) (keep_on : Bool) (r : Outcome AmqpDelivery) (c next : MqConsumer V)
      → E.handler ≡ some (on_envelope E.env)
      → IsReady P E c
      → on_consumed E now_ms keep_on r c ≡ some next
      → IsReady P E next
  unfolding on_consumed disconnect
  on_consumed-IsReady now_ms false r c next h i e =
      let same : c ≡ next = cc in subst (IsReady P E) same i
  on_consumed-IsReady now_ms true (returned d) c next h i e =
      on_delivery-IsReady now_ms d c next h i e
  on_consumed-IsReady now_ms true (failed err) c next h i e =
      let same : (if is_blank err then c else disconnect c) ≡ next = cc in
      subst (IsReady P E) same (
        if_cases (IsReady P E) (is_blank err) c (disconnect c) (λ _. i)
          (λ _. record { world = i.world; cache = i.cache }))
  on_consumed-IsReady now_ms true thrown c next h i e = absurd (cc)

  ensure_connected-IsReady :
      (c : MqConsumer V) → IsReady P E c → IsReady P E (ensure_connected E c).1
  unfolding ensure_connected
  ensure_connected-IsReady c i =
      if_cases (λ (x : Bool × MqConsumer V). IsReady P E x.1) c.client.connected (true, c) _
        (λ _. i)
        (λ _.
          if_cases (λ (x : Bool × MqConsumer V). IsReady P E x.1)
            (is_returned (attempt E c.client).0) _ _
            (λ _. record { world = i.world; cache = i.cache })
            (λ _. record { world = others-IsConsistent P E.env i.world; cache = i.cache }))

  first_of : {A : Type 0} {p q : A × ℤ} → some p ≡ some q → p.0 ≡ q.0
  first_of e = cc

  on_ensured-IsReady :
      (now_ms : ℤ) (keep_on : Bool) (backoff : ℤ) (x : Bool × MqConsumer V) (next : MqConsumer V)
      (wait : ℤ)
      → E.handler ≡ some (on_envelope E.env)
      → IsReady P E x.1
      → on_ensured E now_ms keep_on backoff x ≡ some (next, wait)
      → IsReady P E next
  unfolding on_ensured take
  on_ensured-IsReady now_ms keep_on backoff (true, c) next wait h i e =
      elim (Option-cases (take E now_ms keep_on c)) [
        | inl f ↦ absurd (ground (arith, e))
        | inr (n, f) ↦
            let r = consume E.rabbit (pos 1000) c.client in
            let initial = E.env.config.rabbitmq.reconnect_initial_backoff_ms in
            let step : some (n, initial) ≡ some (next, wait) = sym (rw (on_ensured, f) refl) ∙ e in
            let same : n ≡ next = first_of step in
            subst (IsReady P E) same (
              on_consumed-IsReady now_ms keep_on r.0 (record c { client = r.1 }) n h
                (record { world = i.world; cache = i.cache }) f)
      ]
  on_ensured-IsReady now_ms keep_on backoff (false, c) next wait h i e =
      let same : c ≡ next = first_of e in subst (IsReady P E) same i

  -- A round of the consumer thread that runs to its end, with the dispatcher as its handler, leaves
  -- the process consistent and the cache of ids valid, whatever the broker answers and sends.
  pub round-IsReady :
      (now_ms : ℤ) (keep_on : Bool) (c next : MqConsumer V) (backoff wait : ℤ)
      → E.handler ≡ some (on_envelope E.env)
      → IsReady P E c
      → round E now_ms keep_on (c, backoff) ≡ some (next, wait)
      → IsReady P E next
  unfolding round
  round-IsReady now_ms keep_on c next backoff wait h i e =
      on_ensured-IsReady now_ms keep_on backoff (ensure_connected E c) next wait h
        (ensure_connected-IsReady c i) e

  within :
      (now_ms : ℤ) (keep_on : Bool) (x : Bool × MqConsumer V) (next : MqConsumer V)
      (backoff wait : ℤ)
      → pos 0 <ℤ E.env.config.rabbitmq.reconnect_initial_backoff_ms
      → E.env.config.rabbitmq.reconnect_initial_backoff_ms
        ≤ℤ E.env.config.rabbitmq.reconnect_max_backoff_ms
      → pos 0 <ℤ backoff
      → on_ensured E now_ms keep_on backoff x ≡ some (next, wait)
      → (pos 0 <ℤ wait) × (wait ≤ℤ E.env.config.rabbitmq.reconnect_max_backoff_ms)
  unfolding on_ensured ◌*ℤ◌
  within now_ms keep_on (true, c) next backoff wait p q r e =
      elim (Option-cases (take E now_ms keep_on c)) [
        | inl f ↦ absurd (ground arith)
        | inr (n, f) ↦ ground arith
      ]
  within now_ms keep_on (false, c) next backoff wait p q r e = ground arith

  -- The time to wait stays positive and within its bound, if the settings start it so.
  round-backoff :
      (now_ms : ℤ) (keep_on : Bool) (c next : MqConsumer V) (backoff wait : ℤ)
      → pos 0 <ℤ E.env.config.rabbitmq.reconnect_initial_backoff_ms
      → E.env.config.rabbitmq.reconnect_initial_backoff_ms
        ≤ℤ E.env.config.rabbitmq.reconnect_max_backoff_ms
      → pos 0 <ℤ backoff
      → round E now_ms keep_on (c, backoff) ≡ some (next, wait)
      → (pos 0 <ℤ wait) × (wait ≤ℤ E.env.config.rabbitmq.reconnect_max_backoff_ms)
  unfolding round
  round-backoff now_ms keep_on c next backoff wait p q r e =
      within now_ms keep_on (ensure_connected E c) next backoff wait p q r e
