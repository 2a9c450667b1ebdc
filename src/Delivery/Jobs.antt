-- ===== src/Delivery/Jobs.antt =====
-- The jobs that chat/dispatch/mq_to_ws scheduled, when the IOManagers run them.
use flz_chat.Common.{
  ℕ, ℤ, ◌≡◌, refl, subst, sym, inl, inr, Bool, String, Option, none, some, List, [], ◌∷◌, ◌++◌,
  Among, Among-append_left, Among-append_right, if_cases,
}
use flz_chat.World.{World, Env, M, NetEvent, sent, Job, push, kick, close, continue, for_each}
use flz_chat.Protocol.Send.{send_frame, frame_text}
use flz_chat.Session.Conn.{OnlineConn}
use flz_chat.Dispatch.MqToWs.{deliver}
use flz_chat.Servlet.Jobs.{note, cancel, close_session, run_job}

module _ {V : Type 0} (E : Env V) where
  -- The jobs, each when those before it have run.
  unfoldable pub run_jobs : List (ℕ × Job V) → M V (Unit {0})
  unfolding for_each run_job
  run_jobs js = for_each js (λ j. run_job E j.1)

  -- Every job that is scheduled.
  abbrev pub run_scheduled : World V → World V
  run_scheduled w = (run_jobs w.scheduled (record w { scheduled = [] })).1

  abbrev Kept : World V → World V → Type 0
  Kept w w' = (e : NetEvent) → Among e w.net → Among e w'.net

  -- A call ends, and the trace keeps what it had.
  abbrev Appends : M V (Unit {0}) → Type 0
  Appends m = (w : World V) → ((m w).0 ≡ some tt) × Kept w (m w).1

  more : (w : World V) (added : List NetEvent) → Kept w (record w { net = w.net ++ added })
  more w added e a = Among-append_left e w.net added a

  pushed-Appends :
      (session : Option ℕ) (type : String) (payload : V) (has_seq : Bool) (seq : ℤ)
      (conn : OnlineConn)
      → conn.session ≡ session
      → Appends (deliver E conn type payload has_seq seq)
  unfolding deliver send_frame continue
  pushed-Appends none type payload has_seq seq conn f w = rw (deliver, f) (refl, λ e a. a)
  pushed-Appends (some s) type payload has_seq seq conn f w = rw (deliver, f) (refl, more w _)

  kicked-Appends :
      (session : Option ℕ) (payload : V) (conn : OnlineConn)
      → conn.session ≡ session
      → Appends (run_job E (kick conn payload))
  unfolding run_job send_frame continue
  kicked-Appends none payload conn f w = rw (run_job, f) (refl, λ e a. a)
  kicked-Appends (some s) payload conn f w = rw (run_job, f) (refl, more w _)

  cancel-Appends : (s : ℕ) → Appends (cancel E s)
  unfolding cancel note
  cancel-Appends s w =
      if_cases (λ (x : Option (Unit {0}) × World V). (x.0 ≡ some tt) × Kept w x.1)
        (E.has_socket w.net s) _ (some tt, w) (λ _. (refl, more w _)) (λ _. (refl, λ e a. a))

  close-Appends : (session : Option ℕ) → Appends (close_session E session)
  unfolding close_session note continue
  close-Appends none w = (refl, λ e a. a)
  close-Appends (some s) w =
      let (r, k) = cancel-Appends s w in
      rw (close_session, r) (refl, λ e a. more (cancel E s w).1 _ e (k e a))

  run_job-Appends : (job : Job V) → Appends (run_job E job)
  unfolding run_job
  run_job-Appends (push conn type payload has_seq seq) w =
      pushed-Appends conn.session type payload has_seq seq conn refl w
  run_job-Appends (kick conn payload) w = kicked-Appends conn.session payload conn refl w
  run_job-Appends (close conn) w = close-Appends conn.session w

  run_jobs-Appends : (js : List (ℕ × Job V)) → Appends (run_jobs js)
  unfolding run_jobs for_each continue
  run_jobs-Appends [] w = (refl, λ e a. a)
  run_jobs-Appends (j ∷ js) w =
      let (r, k) = run_job-Appends j.1 w in
      let (r', k') = run_jobs-Appends js (run_job E j.1 w).1 in
      rw (run_jobs, for_each, r) (r', λ e a. k' e (k e a))

  -- The frame of a job is given to sendMessage of the session of its connection.
  push_sends :
      (conn : OnlineConn) (s : ℕ) (type : String) (payload : V) (has_seq : Bool) (seq : ℤ)
      (w : World V)
      → conn.session ≡ some s
      → Among
          (sent s (frame_text E type payload has_seq seq))
          (run_job E (push conn type payload has_seq seq) w).1.net
  unfolding run_job deliver send_frame continue
  push_sends conn s type payload has_seq seq w f =
      rw (run_job, deliver, f) (Among-append_right _ w.net _ (inl refl))

  -- If a frame is among the jobs, sendMessage has got it when the jobs have run, whatever the others
  -- are.
  pub run_jobs_sends :
      (js : List (ℕ × Job V)) (iom : ℕ) (conn : OnlineConn) (s : ℕ) (type : String) (payload : V)
      (has_seq : Bool) (seq : ℤ) (w : World V)
      → Among (iom, push conn type payload has_seq seq) js
      → conn.session ≡ some s
      → Among (sent s (frame_text E type payload has_seq seq)) (run_jobs js w).1.net
  unfolding run_jobs for_each continue
  run_jobs_sends [] iom conn s type payload has_seq seq w a f = elim a [ ]
  run_jobs_sends (j ∷ js) iom conn s type payload has_seq seq w (inl e) f =
      let (r, k) = run_job-Appends j.1 w in
      let first : Among (sent s (frame_text E type payload has_seq seq)) (run_job E j.1 w).1.net =
        subst
          (λ (x : ℕ × Job V).
            Among (sent s (frame_text E type payload has_seq seq)) (run_job E x.1 w).1.net)
          (sym e) (push_sends conn s type payload has_seq seq w f) in
      rw (run_jobs, for_each, r) ((run_jobs-Appends js (run_job E j.1 w).1).1 _ first)
  run_jobs_sends (j ∷ js) iom conn s type payload has_seq seq w (inr a) f =
      let (r, k) = run_job-Appends j.1 w in
      rw (run_jobs, for_each, r)
        (run_jobs_sends js iom conn s type payload has_seq seq (run_job E j.1 w).1 a f)
