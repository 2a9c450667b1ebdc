-- ===== src/System/Sound.antt =====
-- What holds of the whole process of chat/, whatever its clients, the broker and the clocks do.
use flz_chat.Common.{
  ℕ, pos, ◌≤◌, ◌≡◌, refl, subst, to_u64, String, some, ◌∷◌, All, All-without, arith,
}
use flz_chat.Util.Lru.Invariant.{IsValid, new-IsValid}
use flz_chat.Session.Registry.{get}
use flz_chat.Session.Registry.Invariant.{empty-IsValid}
use flz_chat.Session.Registry.Admission.{Admission, Admits-mono, get-Admits}
use flz_chat.Session.Conn.{OnlineConn}
use flz_chat.World.{World}
use flz_chat.Servlet.{ServletEnv, on_connect}
use flz_chat.Servlet.Access.{on_connect-IsIdentified}
use flz_chat.Mq.Consumer.{ConsumerEnv}
use flz_chat.Invariant.{IsConsistent, others-IsConsistent}
use flz_chat.Invariant.Connections.{on_connect-IsConsistent, on_close-IsConsistent}
use flz_chat.Invariant.Messages.{handle-IsConsistent}
use flz_chat.Invariant.MqToWs.{on_envelope-IsConsistent}
use flz_chat.Invariant.Consumer.{IsReady, round-IsReady}
use flz_chat.Invariant.Background.{run_job-IsConsistent, on_timer-IsConsistent, round-IsConsistent}
use flz_chat.System.{
  Moment, Opening, System, publisher_of, consumer_of, at, consumer_at, opened, Step, connected,
  said, ended, ran, ticked, started, stopped, published, received, caught_up, Reach, first, next,
}
use flz_chat.System.LetIn.{IsLetIn, IsServed, IsLetIn-mono, opened-IsLetIn, served-IsServed}

module _ {V : Type 0} (E : ServletEnv V) where
  pub record IsSound (s : System V) : Type 0 where
    pub world : IsConsistent (IsLetIn E s.openings) E.env s.world
    pub cache : IsValid s.cache
    pub sessions : All (IsServed E s.openings) s.sessions

  -- What is consistent is so at every moment.
  there :
      {P : Admission} {w : World V} (m : Moment)
      → IsConsistent P E.env w
      → IsConsistent P (at E m).env w
  there m i = record {
    registry = i.registry;
    admitted = i.admitted;
    queue = i.queue;
    pending = i.pending;
  }

  back :
      {P : Admission} {w : World V} (m : Moment)
      → IsConsistent P (at E m).env w
      → IsConsistent P E.env w
  back m i = record {
    registry = i.registry;
    admitted = i.admitted;
    queue = i.queue;
    pending = i.pending;
  }

module _ {V : Type 0} (E : ServletEnv V) (C : ConsumerEnv V) where
  opened-IsSound :
      (o : Opening) (s : System V)
      → 1 ≤ to_u64 E.env.config.chat.max_devices_per_user
      → IsSound E s
      → IsSound E (opened E o s)
  opened-IsSound o s p i =
      let w = i.world in
      record {
        world = back E o.moment (
            on_connect-IsConsistent (IsLetIn E (o ∷ s.openings)) (at E o.moment) o.request o.session
              s.world p (opened-IsLetIn E o s.openings)
              (there E o.moment (record {
                registry = w.registry;
                admitted =
                    Admits-mono _ _ (IsLetIn-mono E o s.openings) s.world.registry w.admitted;
                queue = w.queue;
                pending = w.pending;
              })));
        cache = i.cache;
        sessions =
            served-IsServed E o (on_connect (at E o.moment) o.request o.session s.world).0
              s.openings s.sessions
              (on_connect-IsIdentified (at E o.moment) o.request o.session s.world) i.sessions;
      }

  -- The record of a system whose process has changed.
  changed :
      (s : System V) (w : World V)
      → IsConsistent (IsLetIn E s.openings) E.env w
      → IsSound E s
      → IsSound E (record s { world = w })
  changed s w j i = record { world = j; cache = i.cache; sessions = i.sessions }

  Step-IsSound :
      {s t : System V}
      → 1 ≤ to_u64 E.env.config.chat.max_devices_per_user
      → Step E C s t
      → IsSound E s
      → IsSound E t
  Step-IsSound p (connected o s) i = opened-IsSound o s p i
  Step-IsSound p (said m r message session s a) i =
      changed s _
        (back E m (
          handle-IsConsistent (IsLetIn E s.openings) (at E m) r message session s.world
            (there E m i.world)))
        i
  Step-IsSound p (ended m r session before after s e) i = record {
    world =
        back E m
          (on_close-IsConsistent (IsLetIn E s.openings) (at E m) r s.world (there E m i.world));
    cache = i.cache;
    sessions =
        All-without (IsServed E s.openings) before (session, r) after
          (subst (All (IsServed E s.openings)) e i.sessions);
  }
  Step-IsSound p (ran m iom job before after s e) i =
      changed s _
        (back E m (
          run_job-IsConsistent (IsLetIn E s.openings) (at E m).env job _
            (there E m (others-IsConsistent (IsLetIn E s.openings) E.env i.world))))
        i
  Step-IsSound p (ticked m s) i =
      changed s _
        (back E m
          (on_timer-IsConsistent (IsLetIn E s.openings) (at E m).env s.world (there E m i.world)))
        i
  Step-IsSound p (started s) i = record { world = i.world; cache = i.cache; sessions = i.sessions }
  Step-IsSound p (stopped s) i = record { world = i.world; cache = i.cache; sessions = i.sessions }
  Step-IsSound p (published m R stamp backoff s running) i = record {
    world = back E m (
        round-IsConsistent (IsLetIn E s.openings) (at E m).env R stamp (publisher_of s) backoff
          (there E m i.world));
    cache = i.cache;
    sessions = i.sessions;
  }
  Step-IsSound p (received m R keep_on backoff wait c s running e) i =
      let r : IsReady (IsLetIn E s.openings) (consumer_at E C m R) c =
        round-IsReady (IsLetIn E s.openings) (consumer_at E C m R) m.now_ms keep_on (consumer_of s)
          c backoff wait refl (record { world = there E m i.world; cache = i.cache }) e in
      record { world = back E m r.world; cache = r.cache; sessions = i.sessions }
  Step-IsSound p (caught_up m env before after s e) i = record {
    world = back E m (
        on_envelope-IsConsistent (IsLetIn E s.openings) (at E m).env env s.world
          (there E m i.world));
    cache = i.cache;
    sessions = i.sessions;
  }

  -- If a user may have a device at all, then in every state that the process can reach, whatever its
  -- clients send, the broker answers and the clocks say: the table of connections is valid, the
  -- publisher's queue within its capacity, no id twice in the table of pending sends and the cache of
  -- ids valid; every connection of the table and every session that is served was opened by a token
  -- that was valid then, and the request of the session names the user of that token.
  pub system-IsSound :
      {s : System V} → 1 ≤ to_u64 E.env.config.chat.max_devices_per_user → Reach E C s → IsSound E s
  system-IsSound p first = record {
    world = record { registry = empty-IsValid; admitted = tt; queue = omega arith; pending = tt };
    cache = new-IsValid 100000 (pos 86400000);
    sessions = tt;
  }
  system-IsSound p (next r st) = Step-IsSound p st (system-IsSound p r)

  -- A connection that can be found in the table of a state that the process can reach is one that a
  -- client opened with a token that was valid then, for the user under whom it is found, if a user may
  -- have a device at all.
  pub get-IsLetIn :
      {s : System V} (uid : ℕ) (did : String) (c : OnlineConn)
      → 1 ≤ to_u64 E.env.config.chat.max_devices_per_user
      → Reach E C s
      → get uid did s.world.registry ≡ some c
      → IsLetIn E s.openings uid c.session
  get-IsLetIn {s} uid did c p r e =
      get-Admits (IsLetIn E s.openings) uid did c s.world.registry e
        (system-IsSound p r).world.admitted
