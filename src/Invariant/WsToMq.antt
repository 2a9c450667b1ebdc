-- ===== src/Invariant/WsToMq.antt =====
-- The consistency of the state and the handlers of chat/dispatch/ws_to_mq.
use flz_chat.Session.Registry.Admission.{Admission}
use flz_chat.Common.{
  ℕ, ℤ, pos, leb_ℤ, ltb_ℤ, to_int32, size, is_blank, ◌||◌, Bool, Option, String, insert-Distinct,
  erase-Distinct, string_eq,
}
use flz_chat.World.{Env, pure, ◌>>◌}
use flz_chat.Protocol.Send.{send_error}
use flz_chat.World.Keeps.{Keeps}
use flz_chat.Dispatch.Pending.{PendingSend}
use flz_chat.Dispatch.WsToMq.{
  SendRequest, read_request, add_media, add_pending, erase_pending, persist, handle_request,
  handle_msg_send, handle_msg_ack, handle_msg_read,
}
use flz_chat.Mq.Publisher.{publish_msg_ack}
use flz_chat.Invariant.{after, branch, IsConsistent, publish-IsConsistent, send_error-IsConsistent}

module _ {V : Type 0} (P : Admission) (E : Env V) where
  add_pending-IsConsistent :
      (id : String) (p : PendingSend) → Keeps (IsConsistent P E) (add_pending E id p)
  unfolding add_pending
  add_pending-IsConsistent id p w i = record {
    registry = i.registry;
    admitted = i.admitted;
    queue = i.queue;
    pending = insert-Distinct id p w.pending i.pending;
  }

  erase_pending-IsConsistent : (id : String) → Keeps (IsConsistent P E) (erase_pending E id)
  unfolding erase_pending
  erase_pending-IsConsistent id w i = record {
    registry = i.registry;
    admitted = i.admitted;
    queue = i.queue;
    pending = erase-Distinct id w.pending i.pending;
  }

  read_request-IsConsistent : (v : V) → Keeps (IsConsistent P E) (read_request E v)
  unfolding read_request
  read_request-IsConsistent v w i = after P E _ _ _ i λ a w i.
      after P E _ _ _ i
        λ b w i. after P E _ _ _ i λ c w i. after P E _ _ _ i λ d w i. after P E _ _ _ i λ e w i. i

  add_media-IsConsistent :
      (media payload : V) → Keeps (IsConsistent P E) (add_media E media payload)
  unfolding add_media
  add_media-IsConsistent media payload =
      branch P E (E.json.is_null media) _ _ (λ w i. i)
        (branch P E (E.json.is_string media) _ _ (λ w i. after P E _ _ _ i (λ s w i. i)) (λ w i. i))

  persist-IsConsistent :
      (uid : ℕ) (did : String) (session : Option ℕ) (has_seq : Bool) (seq : ℤ) (q : SendRequest V)
      → Keeps (IsConsistent P E) (persist E uid did session has_seq seq q)
  unfolding persist
  persist-IsConsistent uid did session has_seq seq q w i =
      after P E _ _ _ (add_pending-IsConsistent q.client_msg_id _ w i) λ _ w i.
        after P E _ _ _ (add_media-IsConsistent q.media_meta _ w i) λ payload w i.
          after P E _ _ _ (publish-IsConsistent P E "business.msg.persist" payload 0 w i)
            λ published.
              branch P E published _ _ (λ w i. i)
                λ w i. after P E _ _ _ (erase_pending-IsConsistent q.client_msg_id w i) λ _ w i.
                  after P E _ _ _
                    (send_error-IsConsistent P E session 503 "mq unavailable" has_seq seq w i)
                    λ _ w i. i

  answered :
      (session : Option ℕ) (code : ℕ) (msg : String) (has_seq : Bool) (seq : ℤ)
      → Keeps (IsConsistent P E) (do send_error E session code msg has_seq seq; pure (pos 0))
  answered session code msg has_seq seq w i =
      after P E _ _ _ (send_error-IsConsistent P E session code msg has_seq seq w i) λ _ w i. i

  handle_request-IsConsistent :
      (uid : ℕ) (did : String) (session : Option ℕ) (has_seq : Bool) (seq : ℤ) (q : SendRequest V)
      → Keeps (IsConsistent P E) (handle_request E uid did session has_seq seq q)
  unfolding handle_request
  handle_request-IsConsistent uid did session has_seq seq q =
      branch P E (is_blank q.client_msg_id || leb_ℤ q.conversation_id (pos 0) || is_blank q.content)
        _ _ (answered session 400 "bad msg.send" has_seq seq)
        (branch P E (ltb_ℤ E.config.chat.max_text_content_bytes (to_int32 (size q.content))) _ _
          (answered session 413 "content too long" has_seq seq)
          (persist-IsConsistent uid did session has_seq seq q))

  pub handle_msg_send-IsConsistent :
      (uid : ℕ) (did : String) (session : Option ℕ) (has_seq : Bool) (seq : ℤ) (v : V)
      → Keeps (IsConsistent P E) (handle_msg_send E uid did session has_seq seq v)
  unfolding handle_msg_send
  handle_msg_send-IsConsistent uid did session has_seq seq v w i =
      after P E _ _ _ (read_request-IsConsistent v w i)
        λ q. handle_request-IsConsistent uid did session has_seq seq q

  pub handle_msg_ack-IsConsistent :
      (uid : ℕ) (session : Option ℕ) (has_seq : Bool) (seq : ℤ) (v : V)
      → Keeps (IsConsistent P E) (handle_msg_ack E uid session has_seq seq v)
  unfolding handle_msg_ack publish_msg_ack
  handle_msg_ack-IsConsistent uid session has_seq seq v w i = after P E _ _ _ i λ message_id.
      branch P E (leb_ℤ message_id (pos 0)) _ _ (answered session 400 "bad msg.ack" has_seq seq)
        λ w i. after P E _ _ _ (publish-IsConsistent P E "business.msg.ack" _ 0 w i) λ published.
          branch P E published _ _ (λ w i. i) (answered session 503 "mq unavailable" has_seq seq)

  pub handle_msg_read-IsConsistent :
      (uid : ℕ) (session : Option ℕ) (has_seq : Bool) (seq : ℤ) (v : V)
      → Keeps (IsConsistent P E) (handle_msg_read E uid session has_seq seq v)
  unfolding handle_msg_read
  handle_msg_read-IsConsistent uid session has_seq seq v =
      branch P E E.logs_info _ _ (λ w i. after P E _ _ _ i λ _ w i. after P E _ _ _ i λ _ w i. i)
        (λ w i. i)
