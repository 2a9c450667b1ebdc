-- ===== src/MyModule/Timer.antt =====
-- What the timer does to a connection that is timed out, and to the rest of the state.
use flz_chat.Common.{
  ℕ, pos, ◌-ℤ◌, ◌*ℤ◌, ◌≡◌, refl, ◌∙◌, ap, sym, ◌⊎◌, inl, inr, Option, none, some, List, [], ◌∷◌,
  ◌++◌, Among, Among-append_left, Among-append_right, subst, ◌≤ℤ◌, Option-cases, Distinct, lookup,
  string_eq, String,
}
use mathlib.Core.List.{append-nil}
use flz_chat.Session.Registry.{get}
use flz_chat.Session.Registry.Invariant.{IsValid}
use flz_chat.Session.Registry.Timeouts.{collect_timeouted_iff}
use flz_chat.World.{World, Env, M, NetEvent, closed, Job, close, pure, continue, for_each}
use flz_chat.Session.Conn.{OnlineConn}
use flz_chat.Dispatch.Pending.{PendingMap, sweep_pending}
use flz_chat.Dispatch.Pending.Laws.{unexpired, lookup-sweep_pending}
use flz_chat.Dispatch.MqToWs.{schedule}
use flz_chat.Servlet.Jobs.{note}
use flz_chat.MyModule.{close_timeouted, timeouted, close_all, sweep, on_timer}

module _ {V : Type 0} (E : Env V) where
  -- Only the trace and the jobs change as connections are closed.
  abbrev Kept : World V → World V → Type 0
  Kept w w' = (w'.registry ≡ w.registry) × (w'.pending ≡ w.pending) × (w'.queue ≡ w.queue)

  close_timeouted-answers :
      (conn : OnlineConn) (w : World V)
      → ((close_timeouted E conn w).0 ≡ some tt) × Kept w (close_timeouted E conn w).1
  unfolding close_timeouted schedule note
  close_timeouted-answers conn w = elim (Option-cases conn.io_manager) [
    | inr (iom, e) ↦ rw (e, close_timeouted) (refl, (refl, refl, refl))
    | inl e ↦ elim (Option-cases conn.session) [
      | inl f ↦ rw (e, close_timeouted, f) (refl, (refl, refl, refl))
      | inr (s, f) ↦ rw (e, close_timeouted, f) (refl, (refl, refl, refl))
    ]
  ]

  close_each-answers :
      (conns : List OnlineConn) (w : World V)
      → ((for_each conns (close_timeouted E) w).0 ≡ some tt)
        × Kept w (for_each conns (close_timeouted E) w).1
  unfolding for_each continue
  close_each-answers [] w = (refl, (refl, refl, refl))
  close_each-answers (conn ∷ conns) w =
      let (a, (r, p, q)) = close_timeouted-answers conn w in
      let (b, (s, t, u)) = close_each-answers conns (close_timeouted E conn w).1 in
      rw (for_each, a) (b, (s ∙ r, t ∙ p, u ∙ q))

  -- The timer always runs to its end. It leaves the table of connections and the queue as they are,
  -- and of the pending sends it drops those that are `pending_send_ttl_seconds` old.
  on_timer_effect :
      (id : String) (w : World V)
      → Distinct w.pending
      → let (result, w') = on_timer E w in
        (result ≡ some tt)
        × (w'.registry ≡ w.registry)
        × (w'.queue ≡ w.queue)
        × (lookup id w'.pending
            ≡ unexpired
                (E.now_ms -ℤ E.config.chat.pending_send_ttl_seconds *ℤ pos 1000)
                (lookup id w.pending))
  unfolding on_timer close_all sweep continue
  on_timer_effect id w d =
      let (a, (r, p, q)) = close_each-answers (timeouted E w) w in
      rw (close_all, a)
        (
          refl,
          r,
          q,
          ap
                (λ (m : PendingMap).
                  lookup id (sweep_pending E.config.chat.pending_send_ttl_seconds E.now_ms m))
                p
              ∙ lookup-sweep_pending id E.config.chat.pending_send_ttl_seconds E.now_ms w.pending d,
        )

  -- The call on a connection, in the trace or among the jobs.
  abbrev pub IsClosed : OnlineConn → World V → Type 0
  IsClosed conn w =
      ((iom : ℕ) × (conn.io_manager ≡ some iom) × Among (iom, close conn) w.scheduled)
      ⊎ ((s : ℕ) × (conn.io_manager ≡ none) × (conn.session ≡ some s) × Among (closed s) w.net)
      ⊎ ((conn.io_manager ≡ none) × (conn.session ≡ none))

  -- What a call adds to the trace and to the jobs.
  record Grown (w w' : World V) : Type 0 where
    jobs : List (ℕ × Job V)
    events : List NetEvent
    scheduled : w'.scheduled ≡ w.scheduled ++ jobs
    net : w'.net ≡ w.net ++ events

  Grown-IsClosed :
      (conn : OnlineConn) (w w' : World V) → Grown w w' → IsClosed conn w → IsClosed conn w'
  Grown-IsClosed conn w w' g (inl (iom, e, a)) = inl (
    iom,
    e,
    subst (Among (iom, close conn)) (sym g.scheduled) (Among-append_left _ w.scheduled g.jobs a),
  )
  Grown-IsClosed conn w w' g (inr (inl (s, e, f, a))) =
      inr
        (inl (s, e, f, subst (Among (closed s)) (sym g.net) (Among-append_left _ w.net g.events a)))
  Grown-IsClosed conn w w' g (inr (inr e)) = inr (inr e)

  -- A call by what the connection has, with the trace and the jobs that it leaves.
  closing :
      (conn : OnlineConn) (w : World V) (m n : Option ℕ)
      → conn.io_manager ≡ m
      → conn.session ≡ n
      → let w' =
          ((elim m as (λ _. M V (Unit {0})) [
            | some iom ↦ schedule E iom (close conn)
            | none ↦ elim n as (λ _. M V (Unit {0})) [ some s ↦ note E (closed s) | none ↦ pure tt ]
          ])
            w).1 in
        IsClosed conn w' × Grown w w'
  unfolding schedule note
  closing conn w (some iom) n e f = (
    inl (iom, e, Among-append_right _ w.scheduled _ (inl refl)),
    record {
      jobs = (iom, close conn) ∷ [];
      events = [];
      scheduled = refl;
      net = sym (append-nil w.net);
    },
  )
  closing conn w none (some s) e f = (
    inr (inl (s, e, f, Among-append_right _ w.net _ (inl refl))),
    record {
      jobs = [];
      events = closed s ∷ [];
      scheduled = sym (append-nil w.scheduled);
      net = refl;
    },
  )
  closing conn w none none e f = (
    inr (inr (e, f)),
    record {
      jobs = [];
      events = [];
      scheduled = sym (append-nil w.scheduled);
      net = sym (append-nil w.net);
    },
  )

  close_timeouted-IsClosed :
      (conn : OnlineConn) (w : World V)
      → IsClosed conn (close_timeouted E conn w).1 × Grown w (close_timeouted E conn w).1
  unfolding close_timeouted
  close_timeouted-IsClosed conn w = closing conn w conn.io_manager conn.session refl refl

  still-IsClosed :
      (c : OnlineConn) (conns : List OnlineConn) (w : World V)
      → IsClosed c w
      → IsClosed c (for_each conns (close_timeouted E) w).1
  unfolding for_each continue
  still-IsClosed c [] w i = i
  still-IsClosed c (conn ∷ conns) w i =
      rw (for_each, (close_timeouted-answers conn w).0)
        (still-IsClosed c conns (close_timeouted E conn w).1
          (Grown-IsClosed c w _ (close_timeouted-IsClosed conn w).1 i))

  each-IsClosed :
      (c : OnlineConn) (conns : List OnlineConn) (w : World V)
      → Among c conns
      → IsClosed c (for_each conns (close_timeouted E) w).1
  unfolding for_each continue
  each-IsClosed c [] w a = elim a [ ]
  each-IsClosed c (conn ∷ conns) w (inl e) =
      rw (for_each, (close_timeouted-answers conn w).0)
        (still-IsClosed c conns (close_timeouted E conn w).1 (
          subst (λ (k : OnlineConn). IsClosed k (close_timeouted E conn w).1) e
            (close_timeouted-IsClosed conn w).0))
  each-IsClosed c (conn ∷ conns) w (inr a) =
      rw (for_each, (close_timeouted-answers conn w).0)
        (each-IsClosed c conns (close_timeouted E conn w).1 a)

  -- Every connection of the table that was last active at the deadline or before is closed by the
  -- timer: on its IOManager, by a job, if it has one, and at once if it has only a session.
  pub on_timer-IsClosed :
      (c : OnlineConn) (w : World V)
      → IsValid w.registry
      → get c.user_id c.device_id w.registry ≡ some c
      → c.last_active_ts ≤ℤ E.now_ms -ℤ E.config.chat.heartbeat_timeout_seconds *ℤ pos 1000
      → IsClosed c (on_timer E w).1
  unfolding on_timer close_all sweep timeouted continue
  on_timer-IsClosed c w v g t =
      let due =
        (collect_timeouted_iff (E.now_ms -ℤ E.config.chat.heartbeat_timeout_seconds *ℤ pos 1000) c
            w.registry v).1
          (g, t) in
      rw (close_all, (close_each-answers (timeouted E w) w).0)
        (each-IsClosed c (timeouted E w) w due)
