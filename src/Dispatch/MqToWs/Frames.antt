-- ===== src/Dispatch/MqToWs/Frames.antt =====
-- The jobs that carry a frame to the connections of a user, in chat/dispatch/mq_to_ws, and actions that
-- do nothing but schedule jobs.
use mathlib.Core.List.{append-nil, append_assoc}
use flz_chat.Common.{
  Among, Among-append_left, Among-append_right, subst, inl, inr, ℕ, ℤ, pos, ◌-ℤ◌, to_u64, String,
  ◌≡◌, refl, ◌∙◌, ap, sym, Bool, false, Option, none, some, List, [], ◌∷◌, ◌++◌, All, ◌==◌, nat_eq,
  string_eq, if◌then◌else◌,
}
use flz_chat.World.{World, M, Job, push, continue, for_each}
use flz_chat.Metrics.{ChatMetrics, observe_msg_send_latency_ms}
use flz_chat.Session.Conn.{OnlineConn}
use flz_chat.Session.Registry.{SessionRegistry, get_by_user}
use flz_chat.Dispatch.Pending.{PendingSend}

unfoldable pub concat_map {ℓ κ} : {A : Type ℓ} {B : Type κ} → (A → List B) → List A → List B
concat_map f [] = []
concat_map f (x ∷ xs) = f x ++ concat_map f xs

abbrev pub Owned : OnlineConn → Type 0
Owned conn = (iom : ℕ) × (conn.io_manager ≡ some iom)

-- Every connection that is found has an IOManager.
abbrev pub IsOwned : SessionRegistry → Type 0
IsOwned registry = (u : ℕ) → All Owned (get_by_user u registry)

-- The IOManager of a connection that has a session.
abbrev pub owner_of : OnlineConn → Option ℕ
owner_of conn = elim conn.session [ none ↦ none | some s ↦ conn.io_manager ]

abbrev pub measured : ℤ → Option PendingSend → ChatMetrics → ChatMetrics
measured now_ms none m = m
measured now_ms (some pending) m =
    observe_msg_send_latency_ms (to_u64 (now_ms -ℤ pending.created_ms)) m

module _ {V : Type 0} where
  abbrev pub on_owner : Option ℕ → Job V → List (ℕ × Job V)
  on_owner none job = []
  on_owner (some iom) job = (iom, job) ∷ []

  -- A frame for a connection, on its IOManager.
  abbrev pub frame_for : OnlineConn → String → V → Bool → ℤ → List (ℕ × Job V)
  frame_for conn type payload has_seq seq =
      on_owner (owner_of conn) (push conn type payload has_seq seq)

  -- A frame for each connection of a user.
  abbrev pub frames_for : SessionRegistry → String → V → ℕ → List (ℕ × Job V)
  frames_for registry type payload u =
      concat_map (λ conn. frame_for conn type payload false (pos 0)) (get_by_user u registry)

  -- The connections of the sender: the answer for the device that sent, the message for any other.
  abbrev pub answers_for : SessionRegistry → Option PendingSend → ℕ → V → V → List (ℕ × Job V)
  answers_for registry none sender_id resp p = []
  answers_for registry (some pending) sender_id resp p =
      concat_map
        (λ conn.
          if conn.device_id == pending.sender_device_id
          then frame_for conn "msg.send.resp" resp pending.has_seq pending.seq
          else frame_for conn "msg.new" p false (pos 0))
        (get_by_user sender_id registry)

  abbrev pub with_jobs : List (ℕ × Job V) → World V → World V
  with_jobs js w = record w { scheduled = w.scheduled ++ js }

  -- An action that only schedules these jobs.
  abbrev pub Schedules : SessionRegistry → M V (Unit {0}) → List (ℕ × Job V) → Type 0
  Schedules registry m js = (w : World V) → w.registry ≡ registry → m w ≡ (some tt, with_jobs js w)

  pub for_each-Schedules :
      {A : Type 0} (registry : SessionRegistry) (xs : List A) (body : A → M V (Unit {0}))
      (jobs : A → List (ℕ × Job V))
      → All (λ a. Schedules registry (body a) (jobs a)) xs
      → Schedules registry (for_each xs body) (concat_map jobs xs)
  unfolding for_each continue concat_map
  for_each-Schedules registry [] body jobs s w e =
      ap (λ (js : List (ℕ × Job V)). (some tt, record w { scheduled = js }))
        (sym (append-nil w.scheduled))
  for_each-Schedules registry (x ∷ xs) body jobs s w e =
      rw (s.0 w e, continue)
        (for_each-Schedules registry xs body jobs s.1 (with_jobs (jobs x) w) e
          ∙ ap (λ (js : List (ℕ × Job V)). (some tt, record w { scheduled = js }))
              (append_assoc w.scheduled (jobs x) (concat_map jobs xs)))

module _ {A : Type 0} {B : Type 0} where
  pub Among-concat_map :
      (f : A → List B) (b : B) (a : A) (xs : List A)
      → Among a xs
      → Among b (f a)
      → Among b (concat_map f xs)
  unfolding concat_map
  Among-concat_map f b a [] m n = elim m [ ]
  Among-concat_map f b a (x ∷ xs) (inl e) n =
      Among-append_left b (f x) (concat_map f xs) (subst (λ y. Among b (f y)) (sym e) n)
  Among-concat_map f b a (x ∷ xs) (inr m) n =
      Among-append_right b (f x) (concat_map f xs) (Among-concat_map f b a xs m n)

module _ {V : Type 0} where
  -- The frame of a connection that has a session and an IOManager is among the jobs.
  pub Among-frame_for :
      (conn : OnlineConn) (s iom : ℕ) (type : String) (p : V) (has_seq : Bool) (seq : ℤ)
      → conn.session ≡ some s
      → conn.io_manager ≡ some iom
      → Among (iom, push conn type p has_seq seq) (frame_for conn type p has_seq seq)
  Among-frame_for conn s iom type p has_seq seq e f =
      let owner : owner_of conn ≡ some iom = rw e f in
      subst
        (λ (o : Option ℕ).
          Among (iom, push conn type p has_seq seq) (on_owner o (push conn type p has_seq seq)))
        (sym owner) (inl refl)
