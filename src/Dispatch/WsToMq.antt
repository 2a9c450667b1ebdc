-- ===== src/Dispatch/WsToMq.antt =====
-- chat/dispatch/ws_to_mq: the frames of a client that go up to the business service.
pub mod Tracked
pub mod Carried
pub mod Accepted
use flz_chat.Common.{
  ℕ, ℤ, pos, ltb_ℤ, leb_ℤ, to_int32, size, is_blank, Bool, ◌||◌, String, Option, insert, erase,
  string_eq, if◌then◌else◌,
}
use flz_chat.Json.Read.{get_string, get_int64}
use flz_chat.World.{Env, M, pure, throwing, modify, ◌>>=◌, ◌>>◌}
use flz_chat.Protocol.Send.{send_error}
use flz_chat.Mq.Publisher.{publish, publish_msg_ack}
use flz_chat.Dispatch.Pending.{PendingSend}

-- The fields of a "msg.send" frame.
pub record SendRequest (V : Type 0) : Type 0 where
  pub client_msg_id : String
  pub conversation_id : ℤ
  pub content : String
  pub sent_at : String
  pub media_meta : V

module _ {V : Type 0} (E : Env V) where
  unfoldable pub read_request : V → M V (SendRequest V)
  read_request v = do
    let J = E.json
    client_msg_id ← throwing (get_string J v "clientMsgId")
    conversation_id ← throwing (get_int64 J v "conversationId")
    content ← throwing (get_string J v "content")
    sent_at ← throwing (get_string J v "sentAt")
    media_meta ← throwing (J.at v "mediaMeta")
    pure (record {
      client_msg_id = client_msg_id;
      conversation_id = conversation_id;
      content = content;
      sent_at = if is_blank sent_at then E.iso_now else sent_at;
      media_meta = media_meta;
    })

  -- `payload["mediaMeta"]`, which is a text in any case.
  unfoldable pub add_media : V → V → M V V
  add_media media payload =
      let J = E.json in
      let text : M V V = do
        s ← throwing (J.as_string media)
        pure (J.put payload "mediaMeta" (J.text s))
      in let encoded : M V V = pure (J.put payload "mediaMeta" (J.text (J.to_string media))) in
        if J.is_null media then pure payload else if J.is_string media then text else encoded

  unfoldable pub send_payload : ℕ → SendRequest V → V
  send_payload uid q =
      let J = E.json in
      let a = J.put J.null "clientMsgId" (J.text q.client_msg_id) in
      let b = J.put a "conversationId" (J.int64 q.conversation_id) in
      let c = J.put b "senderId" (J.uint64 uid) in
      let d = J.put c "type" (J.int64 (pos 1)) in
      let e = J.put d "content" (J.text q.content) in J.put e "sentAt" (J.text q.sent_at)

  unfoldable pub add_pending : String → PendingSend → M V (Unit {0})
  add_pending id p = modify λ w. record w { pending = insert id p w.pending }

  unfoldable pub erase_pending : String → M V (Unit {0})
  erase_pending id = modify λ w. record w { pending = erase id w.pending }

  -- What follows the checks of `HandleMsgSend`.
  unfoldable pub persist : ℕ → String → Option ℕ → Bool → ℤ → SendRequest V → M V ℤ
  unfolding add_media send_payload add_pending erase_pending publish
  persist uid did session has_seq seq q = do
    let pending : PendingSend = record {
      sender_user_id = uid;
      sender_device_id = did;
      created_ms = E.now_ms;
      has_seq = has_seq;
      seq = seq;
    }
    add_pending q.client_msg_id pending
    payload ← add_media q.media_meta (send_payload uid q)
    published ← publish E "business.msg.persist" payload 0
    let refuse : M V ℤ = do
      erase_pending q.client_msg_id
      send_error E session 503 "mq unavailable" has_seq seq
      pure (pos 0)
    if published then pure (pos 0) else refuse

  abbrev answer_error : Option ℕ → ℕ → String → Bool → ℤ → M V ℤ
  answer_error session code msg has_seq seq = do
    send_error E session code msg has_seq seq
    pure (pos 0)

  unfoldable pub handle_request : ℕ → String → Option ℕ → Bool → ℤ → SendRequest V → M V ℤ
  unfolding persist
  handle_request uid did session has_seq seq q =
      if is_blank q.client_msg_id || leb_ℤ q.conversation_id (pos 0) || is_blank q.content
      then answer_error session 400 "bad msg.send" has_seq seq
      else if ltb_ℤ E.config.chat.max_text_content_bytes (to_int32 (size q.content))
      then answer_error session 413 "content too long" has_seq seq
      else persist uid did session has_seq seq q

  unfoldable pub handle_msg_send : ℕ → String → Option ℕ → Bool → ℤ → V → M V ℤ
  unfolding read_request handle_request
  handle_msg_send uid did session has_seq seq v = do
    q ← read_request v
    handle_request uid did session has_seq seq q

  unfoldable pub handle_msg_ack : ℕ → Option ℕ → Bool → ℤ → V → M V ℤ
  unfolding get_int64 publish_msg_ack
  handle_msg_ack uid session has_seq seq v = do
    message_id ← throwing (get_int64 E.json v "messageId")
    let acknowledge : M V ℤ = do
      published ← publish_msg_ack E message_id uid
      if published then pure (pos 0) else answer_error session 503 "mq unavailable" has_seq seq
    if leb_ℤ message_id (pos 0)
        then answer_error session 400 "bad msg.ack" has_seq seq
        else acknowledge

  -- It only logs what it reads.
  unfoldable pub handle_msg_read : ℕ → Option ℕ → Bool → ℤ → V → M V ℤ
  unfolding get_int64
  handle_msg_read uid session has_seq seq v =
      let logged : M V ℤ = do
        throwing (get_int64 E.json v "conversationId")
        throwing (get_int64 E.json v "lastReadMessageId")
        pure (pos 0)
      in if E.logs_info then logged else pure (pos 0)
