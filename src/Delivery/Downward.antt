-- ===== src/Delivery/Downward.antt =====
-- A message on its way from the broker to the clients: the thread of chat/mq/consumer, the handler of
-- chat/dispatch/mq_to_ws and the jobs that it schedules together.
use flz_chat.Common.{
  ℕ, ℤ, pos, ◌≡◌, refl, ◌∙◌, ap, subst, sym, ◌||◌, ◌&&◌, true, false, not, String, Option, some,
  List, [], ◌∷◌, ◌++◌, Among, Among-append_left, Among-append_right, All-Among, ◌==◌, nat_eq,
  string_eq, returned,
}
use flz_chat.Json.Read.{get_string, get_int64, get_uint64}
use flz_chat.World.{World, sent, push}
use flz_chat.Protocol.Send.{frame_text}
use flz_chat.Session.Conn.{OnlineConn}
use flz_chat.Session.Registry.{get_by_user}
use flz_chat.Util.Lru.{LruIdempotencyCache, try_mark}
use flz_chat.Dispatch.Pending.{PendingSend, take_pending}
use flz_chat.Dispatch.MqToWs.{response, on_chat_msg_send, on_envelope}
use flz_chat.Dispatch.MqToWs.IdSet.{contains, contains-Among}
use flz_chat.Dispatch.MqToWs.Receivers.{Reads}
use flz_chat.Dispatch.MqToWs.Frames.{
  Among-concat_map, Among-frame_for, IsOwned, concat_map, frames_for, answers_for,
}
use flz_chat.Dispatch.MqToWs.Scheduled.{on_chat_msg_send_frames}
use flz_chat.Mq.Envelope.{Envelope, from_string}
use flz_chat.Mq.AmqpClient.Messages.{AmqpDelivery}
use flz_chat.Mq.AmqpClient.Views.{acked}
use flz_chat.Mq.Consumer.{MqConsumer, ConsumerEnv, on_delivery}
use flz_chat.Mq.Consumer.Deliveries.{settled}
use flz_chat.Mq.Consumer.Handled.{on_delivery-IsHandled}
use flz_chat.Delivery.Jobs.{run_scheduled, run_jobs_sends}

module _ {V : Type 0} (E : ConsumerEnv V) where
  -- A message with fields that can be read, for these users.
  pub record IsReadable (env : Envelope V) (id : String) (message_id : ℤ) (sender_id : ℕ)
      (us : List ℕ) : Type 0 where
    pub array : V
    pub client_msg_id : get_string E.env.json env.payload "clientMsgId" ≡ some id
    pub message : get_int64 E.env.json env.payload "messageId" ≡ some message_id
    pub sender : get_uint64 E.env.json env.payload "senderId" ≡ some sender_id
    pub has_receivers : E.env.json.is_member env.payload "receivers" ≡ some true
    pub receivers : E.env.json.at env.payload "receivers" ≡ some array
    pub listed : E.env.json.is_array array ≡ true
    pub ids : Reads E.env (E.env.json.items array) us

  -- A delivery is a new message, the dispatcher is the handler and runs in time, and every connection
  -- has an IOManager.
  pub record IsTaken (now_ms : ℤ) (d : AmqpDelivery) (env : Envelope V) (c : MqConsumer V)
      : Type 0 where
    pub cache : LruIdempotencyCache
    pub read : from_string E.env.json d.body ≡ returned env
    pub type : env.type ≡ "chat.msg.send"
    pub fresh : try_mark c.cache env.msg_id now_ms ≡ some (true, cache)
    pub handler : E.handler ≡ some (on_envelope E.env)
    pub in_time : (E.has_scheduler && not (E.in_time c.world env)) ≡ false
    pub owned : IsOwned c.world.registry

  -- What the thread leaves of a message: it is acknowledged, and these frames are scheduled.
  record IsScheduled (d : AmqpDelivery) (env : Envelope V) (id : String) (message_id : ℤ)
      (sender_id : ℕ) (us : List ℕ) (c c' : MqConsumer V) : Type 0 where
    answered : settled c' ≡ settled c ++ acked d.delivery_tag ∷ []
    users : List ℕ
    exact : (u : ℕ) → contains u users ≡ (contains u us && not (u == 0 || u == sender_id))
    jobs :
        let p = env.payload in
        let r = c.world.registry in
        c'.world.scheduled
        ≡ (c.world.scheduled
            ++ answers_for r
                (take_pending id c.world.pending).0
                sender_id
                (response E.env id message_id)
                p)
          ++ concat_map (frames_for r "msg.new" p) users

  dispatched :
      (env : Envelope V) (w : World V)
      → env.type ≡ "chat.msg.send"
      → on_envelope E.env env w ≡ on_chat_msg_send E.env env w
  unfolding on_envelope
  dispatched env w e = rw (on_envelope, e) refl

  on_delivery-IsScheduled :
      (now_ms : ℤ) (d : AmqpDelivery) (env : Envelope V) (id : String) (message_id : ℤ)
      (sender_id : ℕ) (us : List ℕ) (c : MqConsumer V)
      → IsTaken now_ms d env c
      → IsReadable env id message_id sender_id us
      → (c' : MqConsumer V) × (on_delivery E now_ms d c ≡ some c')
        × IsScheduled d env id message_id sender_id us c c'
  on_delivery-IsScheduled now_ms d env id message_id sender_id us c t r =
      let (l, same, once, exact) =
        on_chat_msg_send_frames E.env env id message_id sender_id r.array us c.world r.client_msg_id
          r.message r.sender r.has_receivers r.receivers r.listed r.ids t.owned in
      let (c', ran, h) =
        on_delivery-IsHandled E now_ms d env t.cache (on_envelope E.env) _ c t.read t.fresh
          t.handler t.in_time (dispatched env c.world t.type ∙ same) in
      (
        c',
        ran,
        record {
          answered = h.answered;
          users = l;
          exact = exact;
          jobs = ap (λ (w : World V). w.scheduled) h.world;
        },
      )

  -- A delivery of type "chat.msg.send" is acknowledged, if its envelope can be read, the cache takes its
  -- id as new, the dispatcher is the handler and runs in time, every connection in the table has an
  -- IOManager, and the id, the message, the sender and the array of receivers of its payload can be
  -- read. When the scheduled jobs have run in their order, sendMessage has been called with the frame
  -- "msg.new" of the payload on every session of every receiver who is neither 0 nor the sender. What
  -- sendMessage does with it is not said.
  pub on_delivery-reaches_receivers :
      (now_ms : ℤ) (d : AmqpDelivery) (env : Envelope V) (id : String) (message_id : ℤ)
      (sender_id : ℕ) (us : List ℕ) (c : MqConsumer V) (u : ℕ) (conn : OnlineConn) (s : ℕ)
      → IsTaken now_ms d env c
      → IsReadable env id message_id sender_id us
      → (contains u us && not (u == 0 || u == sender_id)) ≡ true
      → Among conn (get_by_user u c.world.registry)
      → conn.session ≡ some s
      → (c' : MqConsumer V) × (on_delivery E now_ms d c ≡ some c')
        × (settled c' ≡ settled c ++ acked d.delivery_tag ∷ [])
        × Among
            (sent s (frame_text E.env "msg.new" env.payload false (pos 0)))
            (run_scheduled E.env c'.world).net
  on_delivery-reaches_receivers now_ms d env id message_id sender_id us c u conn s t r h a e =
      let (c', ran, i) = on_delivery-IsScheduled now_ms d env id message_id sender_id us c t r in
      let (iom, f) = All-Among _ (get_by_user u c.world.registry) conn (t.owned u) a in
      let job = push conn "msg.new" env.payload false (pos 0) in
      let frame : Among (iom, job) (frames_for c.world.registry "msg.new" env.payload u) =
        Among-concat_map _ (iom, job) conn (get_by_user u c.world.registry) a
          (Among-frame_for conn s iom "msg.new" env.payload false (pos 0) e f) in
      let listed : Among (iom, job) c'.world.scheduled = subst (Among (iom, job)) (sym i.jobs) (
        Among-append_right (iom, job) _ _
          (Among-concat_map (frames_for c.world.registry "msg.new" env.payload) (iom, job) u i.users
            (contains-Among u i.users (i.exact u ∙ h)) frame)) in
      (
        c',
        ran,
        i.answered,
        run_jobs_sends E.env c'.world.scheduled iom conn s "msg.new" env.payload false (pos 0) _
            listed e,
      )

  -- A delivery of type "chat.msg.send" whose id is pending is acknowledged, if its envelope can be
  -- read, the cache takes its id as new, the dispatcher is the handler and runs in time, every
  -- connection in the table has an IOManager, and the id, the message, the sender and the array of
  -- receivers of its payload can be read. When the scheduled jobs have run in their order, sendMessage
  -- has been called with the answer, under the sequence number of the pending request, on each session
  -- that the sender has on the device of the pending send. What sendMessage does with it is not said.
  pub on_delivery-answers_sender :
      (now_ms : ℤ) (d : AmqpDelivery) (env : Envelope V) (id : String) (message_id : ℤ)
      (sender_id : ℕ) (us : List ℕ) (c : MqConsumer V) (pending : PendingSend) (conn : OnlineConn)
      (s : ℕ)
      → IsTaken now_ms d env c
      → IsReadable env id message_id sender_id us
      → (take_pending id c.world.pending).0 ≡ some pending
      → Among conn (get_by_user sender_id c.world.registry)
      → conn.device_id ≡ pending.sender_device_id
      → conn.session ≡ some s
      → (c' : MqConsumer V) × (on_delivery E now_ms d c ≡ some c')
        × (settled c' ≡ settled c ++ acked d.delivery_tag ∷ [])
        × Among
            (sent s (
              frame_text E.env "msg.send.resp"
                (response E.env id message_id)
                pending.has_seq
                pending.seq))
            (run_scheduled E.env c'.world).net
  on_delivery-answers_sender now_ms d env id message_id sender_id us c pending conn s t r h a g e =
      let (c', ran, i) = on_delivery-IsScheduled now_ms d env id message_id sender_id us c t r in
      let registry = c.world.registry in
      let (iom, f) = All-Among _ (get_by_user sender_id registry) conn (t.owned sender_id) a in
      let resp = response E.env id message_id in
      let job = push conn "msg.send.resp" resp pending.has_seq pending.seq in
      let frame = Among-frame_for conn s iom "msg.send.resp" resp pending.has_seq pending.seq e f in
      let answer : Among (iom, job)
          (answers_for registry (some pending) sender_id resp env.payload) =
        Among-concat_map _ (iom, job) conn (get_by_user sender_id registry) a
          (rw ((string_eq.beq_iff conn.device_id pending.sender_device_id).1 g) frame) in
      let listed : Among (iom, job) c'.world.scheduled = subst (Among (iom, job)) (sym i.jobs) (
        Among-append_left (iom, job) _ _
          (Among-append_right (iom, job) c.world.scheduled _
            (subst
              (λ (o : Option PendingSend).
                Among (iom, job) (answers_for registry o sender_id resp env.payload))
              (sym h) answer))) in
      (
        c',
        ran,
        i.answered,
        run_jobs_sends E.env c'.world.scheduled iom conn s "msg.send.resp" resp pending.has_seq
            pending.seq _ listed e,
      )
