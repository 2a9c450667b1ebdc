-- ===== src/Dispatch/WsToMq/Accepted.antt =====
-- A "msg.send" frame that chat/dispatch/ws_to_mq accepts.
use flz_chat.Common.{
  ℕ, ℤ, pos, ltb, leb, leb_ℤ, ltb_ℤ, ◌^◌, ◌<◌, ◌<ℤ◌, ◌≤ℤ◌, ◌≡◌, refl, ◌≢◌, Bool, true, false,
  String, some, [], ◌∷◌, ◌++◌, length, insert, size, to_int32, is_blank, string_eq, beq_ne,
  if◌then◌else◌, arith, Option,
}
use flz_chat.Json.Laws.{JsonLaws, fits}
use flz_chat.Json.Read.{get_string, get_int64}
use flz_chat.World.{World, Env, continue}
use flz_chat.Dispatch.Pending.{PendingSend}
use flz_chat.Mq.Publisher.{capacity, publish}
use flz_chat.Dispatch.WsToMq.{
  SendRequest, read_request, add_pending, persist, handle_request, handle_msg_send,
}
use flz_chat.Dispatch.WsToMq.Carried.{Carries, HasMedia, add_media-Carries}

module _ {V : Type 0} (E : Env V) where
  -- The data of a frame have an id, a conversation and a content that is not too long, and can be read.
  pub record IsAcceptable (v : V) (id : String) (conversation_id : ℤ) (content sent_at : String)
      (media : V) : Type 0 where
    pub client_msg_id : get_string E.json v "clientMsgId" ≡ some id
    pub conversation : get_int64 E.json v "conversationId" ≡ some conversation_id
    pub text : get_string E.json v "content" ≡ some content
    pub time : get_string E.json v "sentAt" ≡ some sent_at
    pub media_meta : E.json.at v "mediaMeta" ≡ some media
    pub named : id ≢ ""
    pub positive : pos 0 <ℤ conversation_id
    pub fitting : fits 63 conversation_id ≡ true
    pub filled : content ≢ ""
    pub short : to_int32 (size content) ≤ℤ E.config.chat.max_text_content_bytes

  abbrev pub time_of : String → String
  time_of sent_at = if is_blank sent_at then E.iso_now else sent_at

  -- The entry that waits for the answer.
  abbrev pub waiting : ℕ → String → Bool → ℤ → PendingSend
  waiting uid did has_seq seq = record {
    sender_user_id = uid;
    sender_device_id = did;
    created_ms = E.now_ms;
    has_seq = has_seq;
    seq = seq;
  }

  -- What an accepted frame leaves: a message that holds what the frame does, at the end of the queue,
  -- and its id among the pending sends.
  pub record IsAccepted (uid : ℕ) (did : String) (has_seq : Bool) (seq : ℤ) (id : String)
      (conversation_id : ℤ) (content sent_at : String) (media : V) (w w' : World V) : Type 0 where
    pub payload : V
    pub carries : Carries E uid id conversation_id content (time_of sent_at) payload
    pub media_meta : HasMedia E media payload
    pub queue :
        w'.queue
        ≡ w.queue
          ++ record { routing_key = "business.msg.persist"; payload = payload; priority = 0 } ∷ []
    pub pending : w'.pending ≡ insert id (waiting uid did has_seq seq) w.pending

  persist-IsAccepted :
      (L : JsonLaws E.json) (uid : ℕ) (did : String) (session : Option ℕ) (has_seq : Bool) (seq : ℤ)
      (id : String) (conversation_id : ℤ) (content sent_at : String) (media : V) (w : World V)
      → ltb uid (2 ^ 64) ≡ true
      → fits 63 conversation_id ≡ true
      → length w.queue < capacity E
      → let q : SendRequest V = record {
        client_msg_id = id;
        conversation_id = conversation_id;
        content = content;
        sent_at = time_of sent_at;
        media_meta = media;
      } in
        IsAccepted uid did has_seq seq id conversation_id content sent_at media w
          (persist E uid did session has_seq seq q w).1
  unfolding persist add_pending publish continue
  persist-IsAccepted L uid did session has_seq seq id conversation_id content sent_at media w small
        fit room =
      let q : SendRequest V = record {
        client_msg_id = id;
        conversation_id = conversation_id;
        content = content;
        sent_at = time_of sent_at;
        media_meta = media;
      } in
      let (p, built, carries, has_media) = add_media-Carries E L uid q small fit in
      let added = record w { pending = insert id (waiting uid did has_seq seq) w.pending } in
      let free : leb (capacity E) (length w.queue) ≡ false = ground (arith, room) in
      rw (persist, built added, free)
        (record {
          payload = p;
          carries = carries;
          media_meta = has_media;
          queue = refl;
          pending = refl;
        })

  -- A frame that can be accepted is, if the queue has room and the JSON library keeps its laws.
  pub handle_msg_send-IsAccepted :
      (L : JsonLaws E.json) (uid : ℕ) (did : String) (session : Option ℕ) (has_seq : Bool) (seq : ℤ)
      (v : V) (id : String) (conversation_id : ℤ) (content sent_at : String) (media : V)
      (w : World V)
      → ltb uid (2 ^ 64) ≡ true
      → IsAcceptable v id conversation_id content sent_at media
      → length w.queue < capacity E
      → IsAccepted uid did has_seq seq id conversation_id content sent_at media w
          (handle_msg_send E uid did session has_seq seq v w).1
  unfolding handle_msg_send read_request handle_request continue
  handle_msg_send-IsAccepted L uid did session has_seq seq v id conversation_id content sent_at
        media w small a room =
      let named : is_blank id ≡ false = beq_ne id "" a.named in
      let filled : is_blank content ≡ false = beq_ne content "" a.filled in
      let positive : leb_ℤ conversation_id (pos 0) ≡ false = ground (arith, a.positive) in
      let short : ltb_ℤ E.config.chat.max_text_content_bytes (to_int32 (size content)) ≡ false =
        ground (arith, a.short) in
      rw
        (
          handle_msg_send, read_request, a.client_msg_id, a.conversation, a.text, a.time,
          a.media_meta, handle_request, named, positive, filled, short,
        )
        (persist-IsAccepted L uid did session has_seq seq id conversation_id content sent_at media w
          small a.fitting room)
