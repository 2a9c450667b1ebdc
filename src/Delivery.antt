-- ===== src/Delivery.antt =====
-- A message of a client on its way to the broker: the handler of chat/dispatch/ws_to_mq and the thread
-- of chat/mq/publisher together.
pub mod Jobs
pub mod Downward
use mathlib.Core.List.{append_assoc}
use flz_chat.Common.{
  ℕ, ℤ, pos, ◌+◌, ltb, ◌^◌, ◌<◌, Bool, true, false, ◌≡◌, refl, ◌∙◌, sym, ap, String, Option, List,
  [], ◌∷◌, ◌++◌, length, length-append, insert, string_eq, arith,
}
use flz_chat.Json.Laws.{JsonLaws}
use flz_chat.World.{World, Env, Task}
use flz_chat.Dispatch.WsToMq.{handle_msg_send}
use flz_chat.Dispatch.WsToMq.Carried.{Carries, HasMedia}
use flz_chat.Dispatch.WsToMq.Accepted.{IsAcceptable, time_of, waiting, handle_msg_send-IsAccepted}
use flz_chat.Mq.Rabbit.{Rabbit, Method, basic_publish}
use flz_chat.Mq.AmqpClient.Views.{published}
use flz_chat.Mq.AmqpClient.Willing.{IsWilling}
use flz_chat.Mq.Envelope.{build, to_string}
use flz_chat.Mq.Publisher.{capacity}
use flz_chat.Mq.PublisherThread.{PublisherThread, Stamp}
use flz_chat.Mq.PublisherThread.Order.{message_of, messages, run}
use flz_chat.Mq.PublisherThread.Lossless.{run-published}

module _ {V : Type 0} (E : Env V) where
  -- The task of a request with its payload.
  abbrev request_task : V → Task V
  request_task payload = record {
    routing_key = "business.msg.persist";
    payload = payload;
    priority = 0;
  }

  messages-snoc :
      (ss : List Stamp) (s : Stamp) (ts : List (Task V)) (t : Task V)
      → length ss ≡ length ts
      → messages E (ss ++ s ∷ []) (ts ++ t ∷ []) ≡ messages E ss ts ++ message_of E s t ∷ []
  unfolding messages
  messages-snoc [] s [] t e = refl
  messages-snoc [] s (u ∷ ts) t e = absurd (omega (arith, e))
  messages-snoc (r ∷ ss) s [] t e = absurd (omega (arith, e))
  messages-snoc (r ∷ ss) s (u ∷ ts) t e =
      ap (λ (l : List Method). message_of E r u ∷ l) (messages-snoc ss s ts t (omega (arith, e)))

  -- The message for the business service with this payload.
  abbrev pub business_message : Stamp → V → Method
  business_message s payload =
      basic_publish "business.exchange" "business.msg.persist" false false
        (record {
          content_type = "application/json";
          delivery_mode = 2;
          priority = 0;
          message_id = s.uuid;
        })
        (to_string E.json (record {
          msg_id = s.uuid;
          version = pos 1;
          occurred_at = s.iso_now;
          source = "chat";
          type = "business.msg.persist";
          payload = payload;
        }))

  message_of-request_task :
      (s : Stamp) (payload : V) → message_of E s (request_task payload) ≡ business_message s payload
  unfolding build
  message_of-request_task s payload = refl

  -- The broker has got a message with what the frame holds as the last one, nothing else is queued,
  -- and the frame waits for its answer.
  pub record IsPublished (uid : ℕ) (did : String) (has_seq : Bool) (seq : ℤ) (id : String)
      (conversation_id : ℤ) (content sent_at : String) (media : V) (s : Stamp)
      (before : List Method) (w : World V) (after : List Method) (w' w'' : World V) : Type 0 where
    pub payload : V
    pub carries : Carries E uid id conversation_id content (time_of E sent_at) payload
    pub media_meta : HasMedia E media payload
    pub last : after ≡ before ++ business_message s payload ∷ []
    pub empty : w''.queue ≡ []
    pub pending : w'.pending ≡ insert id (waiting E uid did has_seq seq) w.pending

  module _ (R : Rabbit) (willing : IsWilling R) where
    -- For a JSON library that keeps its laws and at a broker that takes everything, a "msg.send" frame
    -- of a client reaches the broker, if its fields can be read, its id and its content are not empty,
    -- its conversation is positive and fits 64 bits, as the user does, its content is not too long, and
    -- the queue has room for one more task. After one round of the publisher thread for each task
    -- before it and one more, the broker has got the messages of these tasks and then, as the last, a
    -- message under "business.msg.persist" from which the id, the conversation, the content, the time
    -- of the frame or else of the server, the user as the sender and the type 1 can be read, and the
    -- media if they are not null, as a text or as the text of their JSON. The queue is empty then, and
    -- after the handler the id is pending with the user, the device and the sequence number of the
    -- frame.
    pub handle_msg_send-IsPublished :
        (L : JsonLaws E.json) (uid : ℕ) (did : String) (session : Option ℕ) (has_seq : Bool)
        (seq : ℤ) (v : V) (id : String) (conversation_id : ℤ) (content sent_at : String) (media : V)
        (w : World V) (thread : PublisherThread V) (ss : List Stamp) (s : Stamp) (backoff : ℤ)
        → ltb uid (2 ^ 64) ≡ true
        → IsAcceptable E v id conversation_id content sent_at media
        → length w.queue < capacity E
        → length ss ≡ length w.queue
        → let w' = (handle_msg_send E uid did session has_seq seq v w).1 in
          let p = (run E R (ss ++ s ∷ []) (record thread { world = w' }, backoff)).0 in
          IsPublished uid did has_seq seq id conversation_id content sent_at media s
            (published thread.client.calls ++ messages E ss w.queue)
            w
            (published p.client.calls)
            w'
            p.world
    handle_msg_send-IsPublished L uid did session has_seq seq v id conversation_id content sent_at
          media w thread ss s backoff small acceptable room e =
        let accepted =
          handle_msg_send-IsAccepted E L uid did session has_seq seq v id conversation_id content
            sent_at media w small acceptable room in
        let w' = (handle_msg_send E uid did session has_seq seq v w).1 in
        let t = request_task accepted.payload in
        let sent = published thread.client.calls in
        let rounds : length (ss ++ s ∷ []) ≡ length w'.queue =
          length-append ss (s ∷ [])
          ∙ (ap (λ k. k + 1) e
              ∙ sym (
                  ap (λ (l : List (Task V)). length l) accepted.queue
                  ∙ length-append w.queue (t ∷ []))) in
        let (empty, all) =
          run-published E R willing (ss ++ s ∷ []) (record thread { world = w' }) backoff rounds in
        let said : messages E (ss ++ s ∷ []) w'.queue
            ≡ messages E ss w.queue ++ business_message s accepted.payload ∷ [] =
          ap (messages E (ss ++ s ∷ [])) accepted.queue
          ∙ (messages-snoc ss s w.queue t e
              ∙ ap (λ (m : Method). messages E ss w.queue ++ m ∷ [])
                  (message_of-request_task s accepted.payload)) in
        record {
          payload = accepted.payload;
          carries = accepted.carries;
          media_meta = accepted.media_meta;
          last =
              all
              ∙ (ap (λ (l : List Method). sent ++ l) said
                  ∙ sym (
                      append_assoc sent (messages E ss w.queue)
                        (business_message s accepted.payload ∷ [])));
          empty = empty;
          pending = accepted.pending;
        }
