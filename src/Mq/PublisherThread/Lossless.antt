-- ===== src/Mq/PublisherThread/Lossless.antt =====
-- The publisher thread at a broker that takes everything: nothing is lost.
use flz_chat.Common.{
  ℤ, ◌≡◌, refl, ◌∙◌, sym, ap, Bool, true, false, List, [], ◌∷◌, ◌++◌, length, arith, subst,
}
use mathlib.Core.List.{append_assoc, append-nil}
use flz_chat.World.{Env, Task}
use flz_chat.Mq.Rabbit.{Rabbit, Method}
use flz_chat.Mq.AmqpClient.{AmqpClient, is_returned, open_channel, or_close, continue}
use flz_chat.Mq.AmqpClient.Declare.{declare_for_publisher}
use flz_chat.Mq.AmqpClient.Views.{published}
use flz_chat.Mq.AmqpClient.Willing.{
  IsWilling, Succeeds-bind, Succeeds-or_close, declare_for_publisher-Succeeds,
  open_channel_0-Succeeds, connect-willing,
}
use flz_chat.Mq.PublisherThread.{
  PublisherThread, Stamp, attempt, ensure_connected, on_ensured, on_task,
}
use flz_chat.Mq.PublisherThread.Order.{
  message_of, messages, run, Says, ensure_connected-Says, send-Says, round_first,
}

module _ {V : Type 0} (E : Env V) (R : Rabbit) (w : IsWilling R) where
  -- The steps after the connection.
  attempt-returned : (c : AmqpClient) → is_returned (attempt E R c).0 ≡ true
  unfolding attempt continue
  attempt-returned c =
      let (e, up) = connect-willing R w E.config.rabbitmq c in
      let rest =
        Succeeds-bind (or_close (open_channel R 0)) (λ _. or_close (declare_for_publisher R))
          (Succeeds-or_close (open_channel R 0) (open_channel_0-Succeeds R w))
          (Succeeds-or_close (declare_for_publisher R) (declare_for_publisher-Succeeds R w)) in
      rw (e, continue) (ap is_returned (rest.result _ up))

  ensure_connected-willing : (p : PublisherThread V) → (ensure_connected E R p).0 ≡ true
  unfolding ensure_connected
  ensure_connected-willing p = ground (arith, attempt-returned p.client)

  on_ensured-willing :
      (s : Stamp) (t : Task V) (backoff : ℤ) (l : List Method) (ts : List (Task V))
      (r : Bool × PublisherThread V)
      → r.0 ≡ true
      → Says E R l ts r.1
      → Says E R (l ++ message_of E s t ∷ []) ts (on_ensured E R s t backoff r).0
  unfolding on_ensured
  on_ensured-willing s t backoff l ts (true, p) u (e, f) =
      let (g, h) = send-Says E R s t p in
      (g ∙ ap (λ (k : List Method). k ++ message_of E s t ∷ []) e, h ∙ f)
  on_ensured-willing s t backoff l ts (false, p) u (e, f) = absurd (cc)

  on_task-willing :
      (s : Stamp) (t : Task V) (backoff : ℤ) (p : PublisherThread V)
      → Says E R
          (published p.client.calls ++ message_of E s t ∷ [])
          p.world.queue
          (on_task E R s t backoff p).0
  unfolding on_task
  on_task-willing s t backoff p =
      on_ensured-willing s t backoff _ _ (ensure_connected E R p) (ensure_connected-willing p)
        (ensure_connected-Says E R p)

  run-messages :
      (ss : List Stamp) (ts : List (Task V)) (p : PublisherThread V) (backoff : ℤ)
      → p.world.queue ≡ ts
      → length ss ≡ length ts
      → Says E R (published p.client.calls ++ messages E ss ts) [] (run E R ss (p, backoff)).0
  unfolding run messages
  run-messages [] [] p backoff e n = (sym (append-nil _), e)
  run-messages [] (t ∷ ts) p backoff e n = absurd (omega (arith, n))
  run-messages (s ∷ ss) [] p backoff e n = absurd (omega (arith, n))
  run-messages (s ∷ ss) (t ∷ ts) p backoff e n =
      let before = published p.client.calls in
      let m = message_of E s t in
      let taken : PublisherThread V = record p { world = record p.world { queue = ts } } in
      let next = on_task E R s t backoff taken in
      let (sent, left) = on_task-willing s t backoff taken in
      let (order, empty) = run-messages ss ts next.0 next.1 left (omega (arith, n)) in
      subst
        (λ (x : PublisherThread V × ℤ).
          Says E R (before ++ (m ∷ messages E ss ts)) [] (run E R ss x).0)
        (sym (round_first E R s t ts p backoff e))
        (
          order
              ∙ (ap (λ (k : List Method). k ++ messages E ss ts) sent
                  ∙ append_assoc before (m ∷ []) (messages E ss ts)),
          empty,
        )

  -- At a broker that takes everything, as many rounds as there are tasks in the queue publish them all
  -- in the order in which they were queued, each once, and leave the queue empty, also from a client
  -- that is not connected yet.
  pub run-published :
      (ss : List Stamp) (p : PublisherThread V) (backoff : ℤ)
      → length ss ≡ length p.world.queue
      → let p' = (run E R ss (p, backoff)).0 in
        (p'.world.queue ≡ [])
        × (published p'.client.calls ≡ published p.client.calls ++ messages E ss p.world.queue)
  run-published ss p backoff n =
      let (order, empty) = run-messages ss p.world.queue p backoff refl n in (empty, order)
