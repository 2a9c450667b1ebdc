-- ===== src/Dispatch/MqToWs/Scheduled.antt =====
-- What each connection gets of a message that comes from the broker (chat/dispatch/mq_to_ws), where
-- connections have an IOManager.
use mathlib.Core.List.{append-nil}
use flz_chat.Common.{
  ℕ, ℤ, pos, String, ◌≡◌, refl, ◌∙◌, ap, sym, inl, inr, Bool, true, false, not, ◌||◌, ◌&&◌, Option,
  none, some, List, [], ◌∷◌, ◌++◌, All, All-mono, ◌==◌, nat_eq, string_eq, Bool-cases, Option-cases,
  if◌then◌else◌,
}
use flz_chat.Json.Read.{get_string, get_int64, get_uint64}
use flz_chat.World.{World, Env, M, Job, push, for_each}
use flz_chat.Session.Conn.{OnlineConn}
use flz_chat.Session.Registry.{SessionRegistry, get_by_user}
use flz_chat.Dispatch.Pending.{PendingSend, take_pending}
use flz_chat.Mq.Envelope.{Envelope}
use flz_chat.Dispatch.MqToWs.{
  ack, schedule, push_to_conn, push_to_user, response, answer_conn, answer_sender, on_chat_msg_send,
}
use flz_chat.Dispatch.MqToWs.IdSet.{contains, HasNoRepeats}
use flz_chat.Dispatch.MqToWs.Receivers.{Reads}
use flz_chat.Dispatch.MqToWs.Sending.{answered, on_chat_msg_send_lem}
use flz_chat.Dispatch.MqToWs.Frames.{
  concat_map, Owned, IsOwned, owner_of, measured, on_owner, frame_for, frames_for, answers_for,
  with_jobs, Schedules, for_each-Schedules,
}

module _ {V : Type 0} (E : Env V) where
  push_to_conn-Schedules :
      (registry : SessionRegistry) (conn : OnlineConn) (type : String) (p : V) (has_seq : Bool)
      (seq : ℤ)
      → Owned conn
      → Schedules registry
          (push_to_conn E conn type p has_seq seq)
          (frame_for conn type p has_seq seq)
  unfolding push_to_conn schedule
  push_to_conn-Schedules registry conn type p has_seq seq (iom, o) w e =
      elim (Option-cases conn.session) [
        | inl f ↦
            let owner : owner_of conn ≡ none = rw f refl in
            let nothing : push_to_conn E conn type p has_seq seq w ≡ (some tt, w) =
              rw (f, push_to_conn) refl in
            let same : with_jobs (frame_for conn type p has_seq seq) w ≡ w =
              ap (λ o. with_jobs (on_owner o (push conn type p has_seq seq)) w) owner
              ∙ ap (λ (js : List (ℕ × Job V)). record w { scheduled = js })
                  (append-nil w.scheduled) in
            nothing ∙ ap (λ x. (some tt, x)) (sym same)
        | inr (s, f) ↦
            let owner : owner_of conn ≡ some iom = rw f o in
            let scheduled : push_to_conn E conn type p has_seq seq w
                ≡ schedule E iom (push conn type p has_seq seq) w =
              simp (f, push_to_conn, o) refl in
            scheduled
            ∙ ap (λ o. (some tt, with_jobs (on_owner o (push conn type p has_seq seq)) w))
                (sym owner)
      ]

  push_to_user-Schedules :
      (registry : SessionRegistry) (type : String) (p : V) (u : ℕ)
      → IsOwned registry
      → Schedules registry (push_to_user E u type p) (frames_for registry type p u)
  unfolding push_to_user
  push_to_user-Schedules registry type p u o w e =
      let conns = get_by_user u registry in
      let body : OnlineConn → M V (Unit {0}) = λ conn. push_to_conn E conn type p false (pos 0) in
      let jobs : OnlineConn → List (ℕ × Job V) = λ conn. frame_for conn type p false (pos 0) in
      let same : for_each (get_by_user u w.registry) body w ≡ for_each conns body w =
        ap (λ (r : SessionRegistry). for_each (get_by_user u r) body w) e in
      same
      ∙ for_each-Schedules registry conns body jobs
          (All-mono Owned _ (λ conn. push_to_conn-Schedules registry conn type p false (pos 0))
            conns (o u))
          w e

  push_to_users-Schedules :
      (registry : SessionRegistry) (type : String) (p : V) (l : List ℕ)
      → IsOwned registry
      → Schedules registry
          (for_each l (λ u. push_to_user E u type p))
          (concat_map (frames_for registry type p) l)
  push_to_users-Schedules registry type p l o = for_each-Schedules registry l _ _ (all l)
    where
      all :
          (l : List ℕ)
          → All (λ u. Schedules registry (push_to_user E u type p) (frames_for registry type p u)) l
      all [] = tt
      all (u ∷ us) = (push_to_user-Schedules registry type p u o, all us)

  answer_conn-Schedules :
      (registry : SessionRegistry) (pending : PendingSend) (resp p : V) (conn : OnlineConn)
      → Owned conn
      → Schedules registry (answer_conn E pending resp p conn) (
          if conn.device_id == pending.sender_device_id
          then frame_for conn "msg.send.resp" resp pending.has_seq pending.seq
          else frame_for conn "msg.new" p false (pos 0))
  unfolding answer_conn
  answer_conn-Schedules registry pending resp p conn o w e =
      elim (Bool-cases (conn.device_id == pending.sender_device_id)) [
        | inl b ↦ simp (b) (
            push_to_conn-Schedules registry conn "msg.send.resp" resp pending.has_seq pending.seq o
              w e)
        | inr b ↦ simp (b) (push_to_conn-Schedules registry conn "msg.new" p false (pos 0) o w e)
      ]

  answer_sender_frames :
      (pending : Option PendingSend) (sender_id : ℕ) (resp p : V) (w : World V)
      → IsOwned w.registry
      → answer_sender E pending sender_id resp p w ≡ (
        some tt,
        record w {
          metrics = measured E.now_ms pending w.metrics;
          scheduled = w.scheduled ++ answers_for w.registry pending sender_id resp p;
        },
      )
  unfolding answer_sender
  answer_sender_frames none sender_id resp p w o =
      ap (λ (js : List (ℕ × Job V)). (some tt, record w { scheduled = js }))
        (sym (append-nil w.scheduled))
  answer_sender_frames (some pending) sender_id resp p w o =
      let conns = get_by_user sender_id w.registry in
      for_each-Schedules w.registry conns (answer_conn E pending resp p) _
        (All-mono Owned _ (λ conn. answer_conn-Schedules w.registry pending resp p conn) conns
          (o sender_id))
        (record w { metrics = measured E.now_ms (some pending) w.metrics }) refl

  -- Where every connection has an IOManager, the handler of a message whose fields can be read only
  -- takes the pending send, counts its latency and schedules these frames, in this order: for each
  -- connection of the sender, if the send was pending, the answer with its sequence number if it is
  -- that of the device that sent, else the message; and then the message for each connection of each
  -- receiver who is neither 0 nor the sender, once.
  pub on_chat_msg_send_frames :
      (env : Envelope V) (id : String) (message_id : ℤ) (sender_id : ℕ) (array : V) (us : List ℕ)
      (w : World V)
      → get_string E.json env.payload "clientMsgId" ≡ some id
      → get_int64 E.json env.payload "messageId" ≡ some message_id
      → get_uint64 E.json env.payload "senderId" ≡ some sender_id
      → E.json.is_member env.payload "receivers" ≡ some true
      → E.json.at env.payload "receivers" ≡ some array
      → E.json.is_array array ≡ true
      → Reads E (E.json.items array) us
      → IsOwned w.registry
      → let p = env.payload in
        let (pending, rest) = take_pending id w.pending in
        (l : List ℕ) × (on_chat_msg_send E env w ≡ (
          some ack,
          record w {
            pending = rest;
            metrics = measured E.now_ms pending w.metrics;
            scheduled =
                (w.scheduled
                  ++ answers_for w.registry pending sender_id (response E id message_id) p)
                ++ concat_map (frames_for w.registry "msg.new" p) l;
          },
        ))
        × HasNoRepeats l
        × ((u : ℕ) → contains u l ≡ (contains u us && not (u == 0 || u == sender_id)))
  unfolding answered
  on_chat_msg_send_frames env id message_id sender_id array us w a b c d e f r o =
      let p = env.payload in
      let (pending, rest) = take_pending id w.pending in
      let resp = response E id message_id in
      let after : World V = record w {
        pending = rest;
        metrics = measured E.now_ms pending w.metrics;
        scheduled = w.scheduled ++ answers_for w.registry pending sender_id resp p;
      } in
      let (l, same, once, exact) =
        on_chat_msg_send_lem E env id message_id sender_id array us w a b c d e f r in
      let answer : answered E id message_id sender_id p w ≡ after =
        ap (λ x. x.1)
          (answer_sender_frames pending sender_id resp p (record w { pending = rest }) o) in
      let body : ℕ → M V (Unit {0}) = λ uid. push_to_user E uid "msg.new" p in
      (
        l,
        same
            ∙ (ap (λ (v : World V). (some ack, (for_each l body v).1)) answer
                ∙ ap (λ x. (some ack, x.1))
                    (push_to_users-Schedules w.registry "msg.new" p l o after refl)),
        once,
        exact,
      )
