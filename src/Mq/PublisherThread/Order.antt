-- ===== src/Mq/PublisherThread/Order.antt =====
-- What reaches the broker, in which order.
use flz_chat.Common.{
  ℤ, ◌≡◌, refl, ◌∙◌, sym, ap, inl, inr, Bool, true, false, List, [], ◌∷◌, ◌++◌, length, arith,
  subst, if_cases, ◌⊎◌,
}
use mathlib.Core.List.{append_assoc, append-nil}
use flz_chat.World.{Env, Task}
use flz_chat.Mq.Rabbit.{Rabbit, Method, basic_publish, Call}
use flz_chat.Mq.AmqpClient.{AmqpClient, is_returned, connect, open_channel, or_close}
use flz_chat.Mq.AmqpClient.Declare.{declare_for_publisher}
use flz_chat.Mq.AmqpClient.Messages.{send_method, publish}
use flz_chat.Mq.AmqpClient.Views.{published, published_unmoved, IsUnmoved}
use flz_chat.Mq.AmqpClient.Quiet.{
  bind-KeepsCalls, or_close-quiet, connect-quiet, open_channel-quiet, declare_for_publisher-quiet,
  close-quiet,
}
use flz_chat.Mq.Envelope.{build, to_string}
use flz_chat.Mq.PublisherThread.{
  PublisherThread, Stamp, count, attempt, ensure_connected, send, on_ensured, on_task, take_task,
  round,
}

-- The first list is the second with some items left out.
pub data IsSelection {ℓ} {A : Type ℓ} : List A → List A → Type ℓ where
  none_left : IsSelection [] []
  kept : (a : A) {xs ys : List A} → IsSelection xs ys → IsSelection (a ∷ xs) (a ∷ ys)
  dropped : (a : A) {xs ys : List A} → IsSelection xs ys → IsSelection xs (a ∷ ys)

module _ {V : Type 0} (E : Env V) where
  -- The message that stands for a task.
  abbrev pub message_of : Stamp → Task V → Method
  message_of s t =
      let env = build E.json s.uuid s.iso_now "chat" t.routing_key t.payload in
      basic_publish "business.exchange" t.routing_key false false
        (record {
          content_type = "application/json";
          delivery_mode = 2;
          priority = t.priority;
          message_id = env.msg_id;
        })
        (to_string E.json env)

  -- The messages of tasks in their order.
  unfoldable pub messages : List Stamp → List (Task V) → List Method
  messages [] ts = []
  messages (s ∷ ss) [] = []
  messages (s ∷ ss) (t ∷ ts) = message_of s t ∷ messages ss ts

module _ {V : Type 0} (E : Env V) (R : Rabbit) where
  -- As many rounds as there are stamps.
  unfoldable pub run : List Stamp → PublisherThread V × ℤ → PublisherThread V × ℤ
  run [] p = p
  run (s ∷ ss) p = run ss (round E R s p)

  attempt-published : (c : AmqpClient) → published (attempt E R c).1.calls ≡ published c.calls
  unfolding attempt
  attempt-published c =
      let P : List Call → Type 0 = λ ks. published ks ≡ published c.calls in
      let q : IsUnmoved P = published_unmoved (published c.calls) in
      bind-KeepsCalls P q (connect R E.config.rabbitmq) _ (connect-quiet P q R E.config.rabbitmq)
        (λ _.
          bind-KeepsCalls P q (or_close (open_channel R 0)) _
            (or_close-quiet P q (open_channel R 0) (open_channel-quiet P q R 0))
            (λ _. or_close-quiet P q (declare_for_publisher R) (declare_for_publisher-quiet P q R)))
        c refl

  -- What a thread has published, and what is queued.
  abbrev pub Says : List Method → List (Task V) → PublisherThread V → Type 0
  Says l ts p = (published p.client.calls ≡ l) × (p.world.queue ≡ ts)

  pub ensure_connected-Says :
      (p : PublisherThread V)
      → Says (published p.client.calls) p.world.queue (ensure_connected E R p).1
  unfolding ensure_connected
  ensure_connected-Says p =
      if_cases (λ (x : Bool × PublisherThread V). Says (published p.client.calls) p.world.queue x.1)
        p.client.connected _ _ (λ _. (refl, refl))
        (λ _.
          if_cases
            (λ (x : Bool × PublisherThread V). Says (published p.client.calls) p.world.queue x.1)
            (is_returned (attempt E R p.client).0) _ _ (λ _. (attempt-published p.client, refl))
            (λ _. (attempt-published p.client, refl)))

  pub send-Says :
      (s : Stamp) (t : Task V) (p : PublisherThread V)
      → Says (published p.client.calls ++ message_of E s t ∷ []) p.world.queue (send E R s t p)
  unfolding send count publish send_method published
  send-Says s t p =
      let env = build E.json s.uuid s.iso_now "chat" t.routing_key t.payload in
      let a =
        publish R "business.exchange" t.routing_key (to_string E.json env) t.priority env.msg_id
          p.client in
      let l = published p.client.calls ++ message_of E s t ∷ [] in
      if_cases (Says l p.world.queue) (is_returned a.0) _ _ (λ _. (refl, refl))
        (λ _. (close-quiet (λ ks. published ks ≡ l) (published_unmoved l) a.1 refl, refl))

  -- A task that is taken is handed to the library as its message, or not at all.
  on_ensured-Says :
      (s : Stamp) (t : Task V) (backoff : ℤ) (l : List Method) (ts : List (Task V))
      (r : Bool × PublisherThread V)
      → Says l ts r.1
      → Says l ts (on_ensured E R s t backoff r).0
        ⊎ Says (l ++ message_of E s t ∷ []) ts (on_ensured E R s t backoff r).0
  unfolding on_ensured count
  on_ensured-Says s t backoff l ts (true, p) (e, f) =
      let (g, h) = send-Says s t p in
      inr (g ∙ ap (λ (k : List Method). k ++ message_of E s t ∷ []) e, h ∙ f)
  on_ensured-Says s t backoff l ts (false, p) (e, f) = inl (e, f)

  on_task-Says :
      (s : Stamp) (t : Task V) (backoff : ℤ) (p : PublisherThread V)
      → let l = published p.client.calls in
        Says l p.world.queue (on_task E R s t backoff p).0
        ⊎ Says (l ++ message_of E s t ∷ []) p.world.queue (on_task E R s t backoff p).0
  unfolding on_task
  on_task-Says s t backoff p =
      on_ensured-Says s t backoff _ _ (ensure_connected E R p) (ensure_connected-Says p)

  pub round_first :
      (s : Stamp) (t : Task V) (ts : List (Task V)) (p : PublisherThread V) (backoff : ℤ)
      → p.world.queue ≡ t ∷ ts
      → round E R s (p, backoff)
        ≡ on_task E R s t backoff (record p { world = record p.world { queue = ts } })
  unfolding round take_task
  round_first s t ts p backoff e = ap (λ (q : List (Task V)). take_task E R s q backoff p) e

  -- What rounds have added to what was published, at an empty queue.
  abbrev Ran : List Method → List Method → PublisherThread V → Type 0
  Ran before all p' =
      (p'.world.queue ≡ [])
      × (l : List Method) × IsSelection l all
      × (published p'.client.calls ≡ before ++ l)

  run-Ran :
      (ss : List Stamp) (ts : List (Task V)) (p : PublisherThread V) (backoff : ℤ)
      → p.world.queue ≡ ts
      → length ss ≡ length ts
      → Ran (published p.client.calls) (messages E ss ts) (run ss (p, backoff)).0
  unfolding run messages
  run-Ran [] [] p backoff e n = (e, [], none_left, sym (append-nil _))
  run-Ran [] (t ∷ ts) p backoff e n = absurd (omega (arith, n))
  run-Ran (s ∷ ss) [] p backoff e n = absurd (omega (arith, n))
  run-Ran (s ∷ ss) (t ∷ ts) p backoff e n =
      let before = published p.client.calls in
      let m = message_of E s t in
      let taken : PublisherThread V = record p { world = record p.world { queue = ts } } in
      let next = on_task E R s t backoff taken in
      let rest =
        λ (f : next.0.world.queue ≡ ts). run-Ran ss ts next.0 next.1 f (omega (arith, n)) in
      let done : Ran before (m ∷ messages E ss ts) (run ss next).0 =
        elim (on_task-Says s t backoff taken) [
          | inl says ↦
              let ran = rest says.1 in
              (ran.0, ran.1, dropped m ran.2, ran.3 ∙ ap (λ (k : List Method). k ++ ran.1) says.0)
          | inr says ↦
              let ran = rest says.1 in
              (
                ran.0,
                m ∷ ran.1,
                kept m ran.2,
                ran.3
                    ∙ (ap (λ (k : List Method). k ++ ran.1) says.0
                        ∙ append_assoc before (m ∷ []) ran.1),
              )
        ] in
      subst (λ (x : PublisherThread V × ℤ). Ran before (m ∷ messages E ss ts) (run ss x).0)
        (sym (round_first s t ts p backoff e)) done

  -- Whatever the broker answers, as many rounds as there are tasks in the queue empty it, and hand to
  -- the library, in the order in which they were queued, the messages of some of the tasks, each once.
  pub run-published-IsSelection :
      (ss : List Stamp) (p : PublisherThread V) (backoff : ℤ)
      → length ss ≡ length p.world.queue
      → let p' = (run ss (p, backoff)).0 in
        (p'.world.queue ≡ [])
        × (l : List Method) × IsSelection l (messages E ss p.world.queue)
        × (published p'.client.calls ≡ published p.client.calls ++ l)
  run-published-IsSelection ss p backoff n = run-Ran ss p.world.queue p backoff refl n
