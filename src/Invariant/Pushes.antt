-- ===== src/Invariant/Pushes.antt =====
-- The consistency of the state and the pushes of chat/dispatch/mq_to_ws.
use flz_chat.Session.Registry.Admission.{Admission}
use flz_chat.Common.{
  ℕ, ℤ, pos, ◌||◌, Bool, false, List, [], ◌∷◌, Option, none, some, String, ◌==◌, nat_eq, string_eq,
  lookup, erase-Distinct, Option-cases, Bool-cases, inl, inr,
}
use flz_chat.World.{Env, Job}
use flz_chat.World.Keeps.{Keeps, keeps_for_each}
use flz_chat.Session.Conn.{OnlineConn}
use flz_chat.Dispatch.Pending.{PendingSend, take_pending}
use flz_chat.Dispatch.MqToWs.{
  insert_id, deliver, schedule, push_to_conn, push_to_user, read_array, answer_conn, answer_sender,
  push_receivers, take,
}
use flz_chat.Invariant.{IsConsistent, after, branch, others-IsConsistent, send_frame-IsConsistent}

module _ {V : Type 0} (P : Admission) (E : Env V) where
  pub schedule-IsConsistent :
      (iom : ℕ) (job : Job V) → Keeps (IsConsistent P E) (schedule E iom job)
  unfolding schedule
  schedule-IsConsistent iom job w i = others-IsConsistent P E i

  pub deliver-IsConsistent :
      (conn : OnlineConn) (type : String) (payload : V) (has_seq : Bool) (seq : ℤ)
      → Keeps (IsConsistent P E) (deliver E conn type payload has_seq seq)
  unfolding deliver
  deliver-IsConsistent conn type payload has_seq seq w i =
      after P E _ _ _ (send_frame-IsConsistent P E conn.session type payload has_seq seq w i)
        λ _ w i. others-IsConsistent P E i

  pub push_to_conn-IsConsistent :
      (conn : OnlineConn) (type : String) (payload : V) (has_seq : Bool) (seq : ℤ)
      → Keeps (IsConsistent P E) (push_to_conn E conn type payload has_seq seq)
  unfolding push_to_conn
  push_to_conn-IsConsistent conn type payload has_seq seq w i = elim (Option-cases conn.session) [
    | inl e ↦ rw (e, push_to_conn) i
    | inr (s, e) ↦ elim (Option-cases conn.io_manager) [
      | inl f ↦ rw (e, push_to_conn, f) (deliver-IsConsistent conn type payload has_seq seq w i)
      | inr (iom, f) ↦ rw (e, push_to_conn, f) (schedule-IsConsistent iom _ w i)
    ]
  ]

  pub push_to_user-IsConsistent :
      (uid : ℕ) (type : String) (payload : V)
      → Keeps (IsConsistent P E) (push_to_user E uid type payload)
  unfolding push_to_user
  push_to_user-IsConsistent uid type payload w i =
      keeps_for_each (IsConsistent P E) _ _
        (λ conn. push_to_conn-IsConsistent conn type payload false (pos 0)) w i

  pub read_array-IsConsistent :
      (p : V) (key : String) → Keeps (IsConsistent P E) (read_array E p key)
  unfolding read_array
  read_array-IsConsistent p key w i =
      after P E _ _ _ i λ has. branch P E has _ _ (λ w i. after P E _ _ _ i (λ v w i. i)) (λ w i. i)

  pub answer_conn-IsConsistent :
      (pending : PendingSend) (resp p : V) (conn : OnlineConn)
      → Keeps (IsConsistent P E) (answer_conn E pending resp p conn)
  unfolding answer_conn
  answer_conn-IsConsistent pending resp p conn =
      branch P E (conn.device_id == pending.sender_device_id) _ _
        (push_to_conn-IsConsistent conn "msg.send.resp" resp pending.has_seq pending.seq)
        (push_to_conn-IsConsistent conn "msg.new" p false (pos 0))

  pub answer_sender-IsConsistent :
      (pending : Option PendingSend) (sender_id : ℕ) (resp p : V)
      → Keeps (IsConsistent P E) (answer_sender E pending sender_id resp p)
  unfolding answer_sender
  answer_sender-IsConsistent none sender_id resp p w i = i
  answer_sender-IsConsistent (some pending) sender_id resp p w i =
      keeps_for_each (IsConsistent P E) _ _ (answer_conn-IsConsistent pending resp p) _
        (others-IsConsistent P E i)

  pub push_receivers-IsConsistent :
      (sender_id : ℕ) (p : V) (vs : List V) (pushed : List ℕ)
      → Keeps (IsConsistent P E) (push_receivers E sender_id p vs pushed)
  unfolding push_receivers
  push_receivers-IsConsistent sender_id p [] pushed w i = i
  push_receivers-IsConsistent sender_id p (v ∷ vs) pushed w i =
      elim (Option-cases (E.json.as_uint64 v)) [
        | inl e ↦ rw (e, push_receivers) i
        | inr (uid, e) ↦ elim (Bool-cases (uid == 0 || uid == sender_id)) [
          | inl b ↦
              rw (e, push_receivers, b) (push_receivers-IsConsistent sender_id p vs pushed w i)
          | inr b ↦ elim (Bool-cases (insert_id uid pushed).1) [
            | inl f ↦
                rw (e, push_receivers, b, f)
                  (after P E _ _ _ (push_to_user-IsConsistent uid "msg.new" p w i)
                    λ _. push_receivers-IsConsistent sender_id p vs (insert_id uid pushed).0)
            | inr f ↦
                rw (e, push_receivers, b, f) (push_receivers-IsConsistent sender_id p vs pushed w i)
          ]
        ]
      ]

  pub take-IsConsistent : (id : String) → Keeps (IsConsistent P E) (take E id)
  unfolding take take_pending
  take-IsConsistent id w i = elim (Option-cases (lookup id w.pending)) [
    | inl e ↦ rw (e, take, take_pending) i
    | inr (p, e) ↦
        rw (e, take, take_pending)
          (record {
            registry = i.registry;
            admitted = i.admitted;
            queue = i.queue;
            pending = erase-Distinct id w.pending i.pending;
          })
  ]
