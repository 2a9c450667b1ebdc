-- ===== src/Mq/Consumer/Redelivery.antt =====
-- A message that the broker delivers again.
use flz_chat.Common.{
  ◌<◌, ◌≤◌, ◌⊎◌, ℕ, suc, Bool, Outcome, failed, thrown, List, length, ℤ, ◌+ℤ◌, ◌≤ℤ◌, ◌<ℤ◌, ◌≡◌,
  refl, ◌∙◌, ap, sym, subst, ◌≢◌, true, false, String, some, [], ◌∷◌, ◌++◌, inl, inr, string_eq,
  returned, Option-cases, Bool-cases, bind_inv, or_throw, arith,
}
use flz_chat.Json.{JsonOps}
use flz_chat.Util.Lru.{LruIdempotencyCache, try_mark}
use flz_chat.Util.Lru.Window.{IsTimely}
use flz_chat.Util.Lru.Duplicates.{Rising, Rising-mono, run, run-try_mark_again}
use flz_chat.Mq.Envelope.{Envelope, read_fields, check_fields, from_json, from_string}
use flz_chat.Mq.AmqpClient.Messages.{AmqpDelivery}
use flz_chat.Mq.AmqpClient.Views.{acked}
use flz_chat.Mq.Consumer.{
  MqConsumer, ConsumerEnv, count, settle, on_marked, on_envelope_read, on_delivery,
}
use flz_chat.Mq.Consumer.Deliveries.{settled, settle_lem, on_marked_cache}

module _ {V : Type 0} (J : JsonOps V) where
  check_fields-returned :
      (read env : Envelope V) → check_fields J read ≡ returned env → env.msg_id ≢ ""
  unfolding check_fields
  check_fields-returned read env h e =
      ground (arith, string_eq.beq_iff env.msg_id "", string_eq.beq_iff read.msg_id "")

  from_json-returned : (v : V) (env : Envelope V) → from_json J v ≡ returned env → env.msg_id ≢ ""
  unfolding from_json
  from_json-returned v env h = elim (Bool-cases (J.is_object v)) [
    | inl o ↦
        bind_inv (or_throw (read_fields J v)) (check_fields J) (rw (o, from_json) at h)
          λ read f g. check_fields-returned read env g
    | inr o ↦ absurd (ground arith)
  ]

  -- An envelope that is read has an id.
  from_string-returned :
      (text : String) (env : Envelope V) → from_string J text ≡ returned env → env.msg_id ≢ ""
  unfolding from_string
  from_string-returned text env h = elim (Option-cases (J.from_string text)) [
    | inl e ↦ absurd (ground arith)
    | inr (v, e) ↦ from_json-returned v env (rw (e, from_string) at h)
  ]

module _ {V : Type 0} (E : ConsumerEnv V) where
  -- What may happen between two deliveries, from the first time to the second: any number of changes
  -- that keep the cache of ids, and the given number of other deliveries, at times that do not fall.
  pub data Meanwhile : ℤ → ℕ → ℤ → MqConsumer V → MqConsumer V → Type 0 where
    nothing : (lo hi : ℤ) (c : MqConsumer V) → lo ≤ℤ hi → Meanwhile lo 0 hi c c
    changed :
        {lo hi : ℤ} {n : ℕ} {c e : MqConsumer V} (d : MqConsumer V)
        → d.cache ≡ c.cache
        → Meanwhile lo n hi d e
        → Meanwhile lo n hi c e
    delivered :
        {lo hi : ℤ} {n : ℕ} {c e : MqConsumer V} (now : ℤ) (m : AmqpDelivery) (d : MqConsumer V)
        → lo ≤ℤ now
        → on_delivery E now m c ≡ some d
        → Meanwhile now n hi d e
        → Meanwhile lo (suc n) hi c e

  some_inv : {A : Type 0} {a b : A} → some a ≡ some b → a ≡ b
  some_inv e = cc

  -- A delivery leaves the cache as it is, or as a call of TryMark does.
  on_delivery_cache :
      (now : ℤ) (m : AmqpDelivery) (c d : MqConsumer V)
      → on_delivery E now m c ≡ some d
      → (d.cache ≡ c.cache)
        ⊎ ((key : String) × (fresh : Bool) × (try_mark c.cache key now ≡ some (fresh, d.cache)))
  unfolding on_delivery on_envelope_read settle count
  on_delivery_cache now m c d h = go (from_string E.env.json m.body) refl
    where
      go :
          (o : Outcome (Envelope V))
          → from_string E.env.json m.body ≡ o
          → (d.cache ≡ c.cache)
            ⊎ ((key : String) × (fresh : Bool) × (try_mark c.cache key now ≡ some (fresh, d.cache)))
      go (returned env) e = elim (Option-cases (try_mark c.cache env.msg_id now)) [
        | inl f ↦ absurd (ground (arith, rw (e, f, on_delivery, on_envelope_read) at h))
        | inr ((fresh, cache), f) ↦
            let same : on_marked E m env (fresh, record c { cache = cache }) ≡ d =
              some_inv (rw (e, f, on_delivery, on_envelope_read) at h) in
            let kept : cache ≡ d.cache =
              sym (on_marked_cache E m env fresh (record c { cache = cache }))
              ∙ ap (λ (x : MqConsumer V). x.cache) same in
            inr (env.msg_id, fresh, f ∙ ap (λ (k : LruIdempotencyCache). some (fresh, k)) kept)
      ]
      go (failed err) e =
          let dropped = settle E (acked m.delivery_tag) (count m.routing_key "fail" c) in
          let same : dropped ≡ d = some_inv (rw (e, on_delivery) at h) in
          inl (ap (λ (x : MqConsumer V). x.cache) (sym same))
      go thrown e = absurd (ground (arith, rw (e, on_delivery) at h))

  -- So other deliveries are as many calls of TryMark, or fewer.
  Meanwhile-run :
      {lo hi : ℤ} {n : ℕ} {c d : MqConsumer V}
      → Meanwhile lo n hi c d
      → (calls : List (ℤ × String)) × (length calls ≤ n)
        × Rising lo calls hi
        × (run calls c.cache ≡ some d.cache)
  unfolding run
  Meanwhile-run (nothing lo hi c h) = ([], omega arith, h, refl)
  Meanwhile-run (changed d e m) =
      let (calls, few, rising, ran) = Meanwhile-run m in
      (calls, few, rising, ap (run calls) (sym e) ∙ ran)
  Meanwhile-run (delivered {c = c} now m d h e rest) =
      let (calls, few, rising, ran) = Meanwhile-run rest in
      elim (on_delivery_cache now m c d e) [
        | inl kept ↦ (
          calls,
          omega (arith, few),
          Rising-mono _ now _ calls h rising,
          ap (run calls) (sym kept) ∙ ran,
        )
        | inr (key, fresh, marked) ↦
            ((now, key) ∷ calls, omega (arith, few), (h, rising), rw (run, marked) ran)
      ]

  -- A message is delivered again before its id expires, and between the two deliveries, at times that
  -- do not fall, there were fewer other deliveries than the cache of ids has room for, and any changes
  -- that keep the cache. If the message was new at first, to a valid cache without an entry of a later
  -- time, and its handling came to an end, then whatever its handler answered, the second delivery is
  -- only acknowledged: no handler runs, and of the process only the metrics change.
  pub on_delivery_again :
      (t now later : ℤ) (others : ℕ) (d d' : AmqpDelivery) (env : Envelope V)
      (cache : LruIdempotencyCache) (c c₁ c₂ : MqConsumer V)
      → t ≤ℤ now
      → later <ℤ now +ℤ c.cache.ttl_ms
      → others < c.cache.capacity
      → IsTimely c.cache t
      → from_string E.env.json d.body ≡ returned env
      → d'.body ≡ d.body
      → try_mark c.cache env.msg_id now ≡ some (true, cache)
      → on_delivery E now d c ≡ some c₁
      → Meanwhile now others later c₁ c₂
      → (c₃ : MqConsumer V) × (on_delivery E later d' c₂ ≡ some c₃)
        × (settled c₃ ≡ settled c₂ ++ acked d'.delivery_tag ∷ [])
        × (c₃.late ≡ c₂.late)
        × (record c₃.world { metrics = c₂.world.metrics } ≡ c₂.world)
  unfolding on_delivery on_envelope_read on_marked settle count
  on_delivery_again t now later others d d' env cache c c₁ c₂ p r s v e b m h between =
      let (calls, few, rising, ran) = Meanwhile-run between in
      let (k₂, ran', k₃, refused) =
        run-try_mark_again c.cache env.msg_id t now later calls cache
          (from_string-returned E.env.json d.body env e) p v m (omega (arith, few, s)) rising r in
      let same : on_marked E d env (true, record c { cache = cache }) ≡ c₁ =
        some_inv (sym (rw (on_delivery, e, on_envelope_read, m) refl) ∙ h) in
      let kept : c₁.cache ≡ cache =
        ap (λ (x : MqConsumer V). x.cache) (sym same)
        ∙ on_marked_cache E d env true (record c { cache = cache }) in
      let reached : k₂ ≡ c₂.cache = some_inv (sym ran' ∙ (ap (run calls) (sym kept) ∙ ran)) in
      let again : try_mark c₂.cache env.msg_id later ≡ some (false, k₃) =
        subst (λ (k : LruIdempotencyCache). try_mark k env.msg_id later ≡ some (false, k₃)) reached
          refused in
      let marked = record c₂ { cache = k₃ } in
      (
        on_marked E d' env (false, marked),
        rw (on_delivery, b, e, on_envelope_read, again) refl,
        (settle_lem E (acked d'.delivery_tag) (count env.type "dup" marked)).0,
        refl,
        refl,
      )
