-- ===== src/Invariant/Background.antt =====
-- The consistency of the state and what runs beside the handlers: the jobs of chat/chat_servlet.cc,
-- the timer of chat/my_module.cc and the rounds of the thread of chat/mq/publisher.cc.
use flz_chat.Common.{
  ℕ, ℤ, pos, ◌≤◌, ◌≡◌, refl, subst, Bool, true, false, Option, none, some, List, [], ◌∷◌, length,
  suc, if_cases, Option-cases, inl, inr, arith,
}
use flz_chat.World.{World, Env, Task, Job, push, kick, close}
use flz_chat.World.Keeps.{Keeps, keeps_for_each}
use flz_chat.Session.Conn.{OnlineConn}
use flz_chat.Session.Registry.Admission.{Admission}
use flz_chat.Dispatch.Pending.Laws.{sweep_pending-Distinct}
use flz_chat.Servlet.Jobs.{note, cancel, close_session, run_job}
use flz_chat.MyModule.{close_timeouted, timeouted, close_all, sweep, on_timer}
use flz_chat.Mq.Rabbit.{Rabbit}
use flz_chat.Mq.Envelope.{build, to_string}
use flz_chat.Mq.Publisher.{capacity}
use flz_chat.Mq.AmqpClient.{is_returned}
use flz_chat.Mq.AmqpClient.Messages.{publish}
use flz_chat.Mq.PublisherThread.{
  PublisherThread, Stamp, count, attempt, ensure_connected, send, on_ensured, on_task, take_task,
  round,
}
use flz_chat.Invariant.{IsConsistent, after, others-IsConsistent, send_frame-IsConsistent}
use flz_chat.Invariant.Pushes.{schedule-IsConsistent, deliver-IsConsistent}

module _ {V : Type 0} (P : Admission) (E : Env V) where
  cancel-IsConsistent : (s : ℕ) → Keeps (IsConsistent P E) (cancel E s)
  unfolding cancel note
  cancel-IsConsistent s w i =
      if_cases (λ (x : Option (Unit {0}) × World V). IsConsistent P E x.1) (E.has_socket w.net s) _
        _ (λ _. others-IsConsistent P E i) (λ _. i)

  close_session-IsConsistent : (s : Option ℕ) → Keeps (IsConsistent P E) (close_session E s)
  unfolding close_session note
  close_session-IsConsistent none w i = i
  close_session-IsConsistent (some s) w i =
      after P E _ _ _ (cancel-IsConsistent s w i) λ _ w i. others-IsConsistent P E i

  -- A scheduled job leaves the state consistent.
  pub run_job-IsConsistent : (job : Job V) → Keeps (IsConsistent P E) (run_job E job)
  unfolding run_job
  run_job-IsConsistent (push conn type payload has_seq seq) w i =
      deliver-IsConsistent P E conn type payload has_seq seq w i
  run_job-IsConsistent (kick conn payload) w i =
      after P E _ _ _ (send_frame-IsConsistent P E conn.session "kicked" payload false (pos 0) w i)
        λ _ w i. i
  run_job-IsConsistent (close conn) w i = close_session-IsConsistent conn.session w i

  close_timeouted-IsConsistent :
      (conn : OnlineConn) → Keeps (IsConsistent P E) (close_timeouted E conn)
  unfolding close_timeouted note
  close_timeouted-IsConsistent conn w i = elim (Option-cases conn.io_manager) [
    | inr (iom, e) ↦ rw (e, close_timeouted) (schedule-IsConsistent P E iom (close conn) w i)
    | inl e ↦ elim (Option-cases conn.session) [
      | inl f ↦ rw (e, close_timeouted, f) i
      | inr (s, f) ↦ rw (e, close_timeouted, f) (others-IsConsistent P E i)
    ]
  ]

  -- The timer leaves the state consistent.
  pub on_timer-IsConsistent : Keeps (IsConsistent P E) (on_timer E)
  unfolding on_timer close_all sweep
  on_timer-IsConsistent w i =
      after P E _ _ _
        (keeps_for_each (IsConsistent P E) (timeouted E w) (close_timeouted E)
          close_timeouted-IsConsistent w i)
        λ _ w i. record {
          registry = i.registry;
          admitted = i.admitted;
          queue = i.queue;
          pending = sweep_pending-Distinct _ _ w.pending i.pending;
        }

  module _ (R : Rabbit) where
    ensure_connected-IsConsistent :
        (p : PublisherThread V)
        → IsConsistent P E p.world
        → IsConsistent P E (ensure_connected E R p).1.world
    unfolding ensure_connected
    ensure_connected-IsConsistent p i =
        let a = attempt E R p.client in
        if_cases (λ (x : Bool × PublisherThread V). IsConsistent P E x.1.world) p.client.connected
          (true, p) _ (λ _. i)
          (λ _.
            if_cases (λ (x : Bool × PublisherThread V). IsConsistent P E x.1.world)
              (is_returned a.0) (true, record p { client = a.1 }) _ (λ _. i)
              (λ _. others-IsConsistent P E i))

    send-IsConsistent :
        (s : Stamp) (t : Task V) (p : PublisherThread V)
        → IsConsistent P E p.world
        → IsConsistent P E (send E R s t p).world
    unfolding send count
    send-IsConsistent s t p i =
        let env = build E.json s.uuid s.iso_now "chat" t.routing_key t.payload in
        let body = to_string E.json env in
        let a = publish R "business.exchange" t.routing_key body t.priority env.msg_id p.client in
        let sent : PublisherThread V = record p { client = a.1 } in
        if_cases (λ (x : PublisherThread V). IsConsistent P E x.world) (is_returned a.0)
          (count E R t "ok" sent) _ (λ _. others-IsConsistent P E i)
          (λ _. others-IsConsistent P E i)

    on_ensured-IsConsistent :
        (s : Stamp) (t : Task V) (backoff : ℤ) (x : Bool × PublisherThread V)
        → IsConsistent P E x.1.world
        → IsConsistent P E (on_ensured E R s t backoff x).0.world
    unfolding on_ensured count
    on_ensured-IsConsistent s t backoff (true, p) i = send-IsConsistent s t p i
    on_ensured-IsConsistent s t backoff (false, p) i = others-IsConsistent P E i

    take_task-IsConsistent :
        (s : Stamp) (ts : List (Task V)) (backoff : ℤ) (p : PublisherThread V)
        → p.world.queue ≡ ts
        → IsConsistent P E p.world
        → IsConsistent P E (take_task E R s ts backoff p).0.world
    unfolding take_task on_task
    take_task-IsConsistent s [] backoff p e i = i
    take_task-IsConsistent s (t ∷ ts) backoff p e i = on_ensured-IsConsistent s t backoff _ (
        ensure_connected-IsConsistent (record p { world = record p.world { queue = ts } })
          (record {
            registry = i.registry;
            admitted = i.admitted;
            queue = shorter (subst (λ (l : List (Task V)). length l ≤ capacity E) e i.queue);
            pending = i.pending;
          }))
      where
        shorter : suc (length ts) ≤ capacity E → length ts ≤ capacity E
        shorter h = omega (arith, h)

    -- A round of the publisher thread leaves the state consistent, whatever the broker answers.
    pub round-IsConsistent :
        (s : Stamp) (p : PublisherThread V) (backoff : ℤ)
        → IsConsistent P E p.world
        → IsConsistent P E (round E R s (p, backoff)).0.world
    unfolding round
    round-IsConsistent s p backoff = take_task-IsConsistent s p.world.queue backoff p refl
