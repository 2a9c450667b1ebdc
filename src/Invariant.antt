-- ===== src/Invariant.antt =====
-- The state of the process between two handlers, for every handler of chat/.
pub mod WsToMq
pub mod Pushes
pub mod MqToWs
pub mod Connections
pub mod Messages
pub mod Consumer
pub mod Background
use flz_chat.Session.Registry.Admission.{Admission, Admits}
use flz_chat.Common.{
  ℕ, ◌+◌, ◌≤◌, ◌≡◌, List, [], ◌∷◌, ◌++◌, Option, none, some, String, ℤ, Bool, true, false,
  Bool-cases, inl, inr, leb, length, length-append, Distinct, nat_eq, string_eq, if◌then◌else◌,
  arith,
}
use flz_chat.World.{World, Env, M, Task, NetEvent, Job, continue}
use flz_chat.World.Keeps.{Keeps, keeps_continue, keeps_if}
use flz_chat.Metrics.{ChatMetrics}
use flz_chat.Session.Registry.{SessionRegistry}
use flz_chat.Session.Registry.Invariant.{IsValid}
use flz_chat.Dispatch.Pending.{PendingMap}
use flz_chat.Mq.Publisher.{capacity, publish}
use flz_chat.Protocol.Send.{send_frame, send_error}

-- The table of connections is valid and every connection in it has a property of its user and its
-- session, the publisher's queue is within its capacity, and no id stands
-- twice in the table of pending sends.
pub record IsConsistent {V : Type 0} (P : Admission) (E : Env V) (w : World V) : Type 0 where
  pub registry : IsValid w.registry
  pub admitted : Admits P w.registry
  pub queue : length w.queue ≤ capacity E
  pub pending : Distinct w.pending

module _ {V : Type 0} (P : Admission) (E : Env V) where
  -- The state is consistent after a call and what follows it.
  pub after :
      {A B : Type 0} (r : Option A) (w : World V) (f : A → M V B)
      → IsConsistent P E w
      → ((a : A) → Keeps (IsConsistent P E) (f a))
      → IsConsistent P E (continue r w f).1
  after = keeps_continue (IsConsistent P E)

  pub branch :
      {A : Type 0} (b : Bool) (m n : M V A)
      → Keeps (IsConsistent P E) m
      → Keeps (IsConsistent P E) n
      → Keeps (IsConsistent P E) (if b then m else n)
  branch = keeps_if (IsConsistent P E)

  -- Nothing else in the state matters.
  pub others-IsConsistent :
      {w : World V} {m : ChatMetrics} {n : List NetEvent} {s : List (ℕ × Job V)} {d : ℕ}
      → IsConsistent P E w
      → IsConsistent P E (record w { metrics = m; net = n; scheduled = s; fallback_device_seq = d })
  others-IsConsistent i = record {
    registry = i.registry;
    admitted = i.admitted;
    queue = i.queue;
    pending = i.pending;
  }

  pub publish-IsConsistent :
      (key : String) (payload : V) (priority : ℕ)
      → Keeps (IsConsistent P E) (publish E key payload priority)
  unfolding publish
  publish-IsConsistent key payload priority w i =
      elim (Bool-cases (leb (capacity E) (length w.queue))) [
        | inl e ↦ rw (e, publish) (others-IsConsistent i)
        | inr e ↦
            rw (e, publish)
              (record {
                registry = i.registry;
                admitted = i.admitted;
                queue = rw length-append (ground arith);
                pending = i.pending;
              })
      ]

  pub send_frame-IsConsistent :
      (s : Option ℕ) (type : String) (payload : V) (has_seq : Bool) (seq : ℤ)
      → Keeps (IsConsistent P E) (send_frame E s type payload has_seq seq)
  unfolding send_frame
  send_frame-IsConsistent none type payload has_seq seq w i = i
  send_frame-IsConsistent (some s) type payload has_seq seq w i = others-IsConsistent i

  pub send_error-IsConsistent :
      (s : Option ℕ) (code : ℕ) (msg : String) (has_seq : Bool) (seq : ℤ)
      → Keeps (IsConsistent P E) (send_error E s code msg has_seq seq)
  unfolding send_error
  send_error-IsConsistent s code msg has_seq seq = send_frame-IsConsistent s "error" _ has_seq seq
