-- ===== src/Dispatch/WsToMq/Tracked.antt =====
-- What a "msg.send" frame leaves in the queue and among the pending sends.
use flz_chat.Common.{
  ℕ, ℤ, pos, leb, leb_ℤ, ltb_ℤ, to_int32, size, is_blank, ◌||◌, Bool, ◌≡◌, refl, ◌∙◌, sym, ap,
  subst, ◌⊎◌, inl, inr, String, Option, none, some, List, [], ◌∷◌, ◌++◌, length, insert, erase,
  lookup, lookup-insert, lookup-erase, string_eq, ◌==◌, if◌then◌else◌, Bool-cases,
}
use flz_chat.Json.Laws.{JsonLaws}
use flz_chat.World.{World, Env, M, pure, continue}
use flz_chat.Metrics.{inc_mq_publish}
use flz_chat.Protocol.Send.{send_frame, send_error}
use flz_chat.Dispatch.Pending.{PendingSend}
use flz_chat.Mq.Publisher.{capacity, publish}
use flz_chat.Dispatch.WsToMq.{
  SendRequest, read_request, add_media, send_payload, add_pending, erase_pending, persist,
  handle_request, handle_msg_send,
}

module _ {V : Type 0} (E : Env V) where
  -- The request is queued for the business service and waits for its answer.
  pub record IsQueued (request : SendRequest V) (uid : ℕ) (did : String) (has_seq : Bool) (seq : ℤ)
      (w w' : World V) : Type 0 where
    pub payload : V
    pub built :
        (u : World V)
        → add_media E request.media_meta (send_payload E uid request) u ≡ (some payload, u)
    pub queue :
        w'.queue
        ≡ w.queue
          ++ record { routing_key = "business.msg.persist"; payload = payload; priority = 0 } ∷ []
    pub pending :
        (j : String)
        → lookup j w'.pending ≡ (
            if request.client_msg_id == j
            then some (record {
              sender_user_id = uid;
              sender_device_id = did;
              created_ms = E.now_ms;
              has_seq = has_seq;
              seq = seq;
            })
            else lookup j w.pending)

  -- Nothing is queued, and no send waits that did not wait before.
  pub record IsDropped (w w' : World V) : Type 0 where
    pub queue : w'.queue ≡ w.queue
    pub pending :
        (j : String) → (lookup j w'.pending ≡ lookup j w.pending) ⊎ (lookup j w'.pending ≡ none)

  abbrev pub IsTracked : SendRequest V → ℕ → String → Bool → ℤ → World V → World V → Type 0
  IsTracked q uid did has_seq seq w w' = IsQueued q uid did has_seq seq w w' ⊎ IsDropped w w'

  -- An error for the client changes neither the queue nor the pending sends.
  answered :
      (s : Option ℕ) (code : ℕ) (msg : String) (has_seq : Bool) (seq : ℤ) (w : World V)
      → let (r, sent) = send_error E s code msg has_seq seq w in
        let w' = (continue r sent (λ _. pure (pos 0))).1 in
        (w'.queue ≡ w.queue) × (w'.pending ≡ w.pending)
  unfolding send_error send_frame continue
  answered none code msg has_seq seq w = (refl, refl)
  answered (some s) code msg has_seq seq w = (refl, refl)

  answered-IsDropped :
      (s : Option ℕ) (code : ℕ) (msg : String) (has_seq : Bool) (seq : ℤ) (w : World V)
      → let (r, sent) = send_error E s code msg has_seq seq w in
        IsDropped w (continue r sent (λ _. pure (pos 0))).1
  answered-IsDropped s code msg has_seq seq w =
      let (q, p) = answered s code msg has_seq seq w in
      record { queue = q; pending = λ j. inl (ap (lookup j) p) }

  withdrawn :
      (id j : String) (sent : PendingSend) (m : List (String × PendingSend))
      → (lookup j (erase id (insert id sent m)) ≡ lookup j m)
        ⊎ (lookup j (erase id (insert id sent m)) ≡ none)
  withdrawn id j sent m = elim (Bool-cases (id == j)) [
    | inl b ↦ inr (lookup-erase id j (insert id sent m) ∙ rw b refl)
    | inr b ↦ inl (lookup-erase id j (insert id sent m) ∙ rw (lookup-insert id j sent m, b) refl)
  ]

  add_media-answers :
      (L : JsonLaws E.json) (media payload : V)
      → (p : V) × ((w : World V) → add_media E media payload w ≡ (some p, w))
  unfolding add_media continue
  add_media-answers L media payload = elim (Bool-cases (E.json.is_null media)) [
    | inl n ↦ (payload, λ w. rw (add_media, n) refl)
    | inr n ↦ elim (Bool-cases (E.json.is_string media)) [
      | inl s ↦
          let (t, e) = L.as_string-is_string media s in
          (E.json.put payload "mediaMeta" (E.json.text t), λ w. rw (add_media, n, s, e) refl)
      | inr s ↦ (
        E.json.put payload "mediaMeta" (E.json.text (E.json.to_string media)),
        λ w. rw (add_media, n, s) refl,
      )
    ]
  ]

  persist-outcome :
      (L : JsonLaws E.json) (uid : ℕ) (did : String) (session : Option ℕ) (has_seq : Bool) (seq : ℤ)
      (q : SendRequest V) (w : World V)
      → let w' = (persist E uid did session has_seq seq q w).1 in
        IsTracked q uid did has_seq seq w w'
  unfolding persist add_pending erase_pending publish continue
  persist-outcome L uid did session has_seq seq q w =
      let sent : PendingSend = record {
        sender_user_id = uid;
        sender_device_id = did;
        created_ms = E.now_ms;
        has_seq = has_seq;
        seq = seq;
      } in
      let added = record w { pending = insert q.client_msg_id sent w.pending } in
      let (p, built) = add_media-answers L q.media_meta (send_payload E uid q) in
      let e = built added in
      elim (Bool-cases (leb (capacity E) (length w.queue))) [
        | inl f ↦
            rw (persist, e, f)
              (let full = record w {
                pending = erase q.client_msg_id (insert q.client_msg_id sent w.pending);
                metrics = inc_mq_publish "business.msg.persist" "fail" w.metrics;
              } in
                let (same_queue, same_pending) =
                  answered session 503 "mq unavailable" has_seq seq full in
                inr (record {
                  queue = same_queue;
                  pending = λ j.
                      subst
                        (λ (m : List (String × PendingSend)).
                          (lookup j m ≡ lookup j w.pending) ⊎ (lookup j m ≡ none))
                        (sym same_pending) (withdrawn q.client_msg_id j sent w.pending);
                }))
        | inr f ↦
            rw (persist, e, f)
              (inl (record {
                payload = p;
                built = built;
                queue = refl;
                pending = λ j. lookup-insert q.client_msg_id j sent w.pending;
              }))
      ]

  handle_request-outcome :
      (L : JsonLaws E.json) (uid : ℕ) (did : String) (session : Option ℕ) (has_seq : Bool) (seq : ℤ)
      (q : SendRequest V) (w : World V)
      → IsTracked q uid did has_seq seq w (handle_request E uid did session has_seq seq q w).1
  unfolding handle_request
  handle_request-outcome L uid did session has_seq seq q w =
      elim (Bool-cases
        (is_blank q.client_msg_id || leb_ℤ q.conversation_id (pos 0) || is_blank q.content)) [
          | inl b ↦
              rw (handle_request, b)
                (inr (answered-IsDropped session 400 "bad msg.send" has_seq seq w))
          | inr b ↦
              elim (Bool-cases
                (ltb_ℤ E.config.chat.max_text_content_bytes (to_int32 (size q.content)))) [
                  | inl l ↦
                      rw (handle_request, b, l)
                        (inr (answered-IsDropped session 413 "content too long" has_seq seq w))
                  | inr l ↦
                      rw (handle_request, b, l) (persist-outcome L uid did session has_seq seq q w)
                ]
        ]

  -- The state after reads, which leave it as it is.
  read_only :
      {A B : Type 0} (r : Option A) (w : World V) (f : A → M V B)
      → ((a : A) (v : World V) → (f a v).1 ≡ v)
      → (continue r w f).1 ≡ w
  unfolding continue
  read_only none w f k = refl
  read_only (some a) w f k = k a w

  read_request_state : (v : V) (w : World V) → (read_request E v w).1 ≡ w
  unfolding read_request
  read_request_state v w = read_only _ _ _ λ a w.
      read_only _ _ _
        λ b w. read_only _ _ _ λ c w. read_only _ _ _ λ d w. read_only _ _ _ λ e w. refl

  -- After a "msg.send" frame, for a JSON library that keeps its laws, either one message is queued for
  -- the business service, and the id of the request that the frame holds waits for the answer with the
  -- sender, the device and the sequence number of the frame, while every other id waits as before; or
  -- the queue is as it was, and no id waits that did not wait so before. That holds also where the
  -- handler throws.
  pub handle_msg_send-IsTracked :
      (L : JsonLaws E.json) (uid : ℕ) (did : String) (session : Option ℕ) (has_seq : Bool) (seq : ℤ)
      (v : V) (w : World V)
      → let w' = (handle_msg_send E uid did session has_seq seq v w).1 in
        ((q : SendRequest V) × ((read_request E v w).0 ≡ some q)
          × IsQueued q uid did has_seq seq w w')
        ⊎ IsDropped w w'
  unfolding handle_msg_send continue
  handle_msg_send-IsTracked L uid did session has_seq seq v w =
      after_read (read_request E v w).0 (read_request E v w).1 (read_request_state v w)
    where
      after_read :
          (r : Option (SendRequest V)) (u : World V)
          → u ≡ w
          → let w' = (continue r u (λ q. handle_request E uid did session has_seq seq q)).1 in
            ((q : SendRequest V) × (r ≡ some q) × IsQueued q uid did has_seq seq w w')
            ⊎ IsDropped w w'
      after_read none u e = inr (record {
        queue = ap (λ (k : World V). k.queue) e;
        pending = λ j. inl (ap (λ (k : World V). lookup j k.pending) e);
      })
      after_read (some q) u e =
          elim (subst
            (λ (k : World V).
              IsTracked q uid did has_seq seq w
                (handle_request E uid did session has_seq seq q k).1)
            (sym e) (handle_request-outcome L uid did session has_seq seq q w)) [
              | inl queued ↦ inl (q, refl, queued)
              | inr dropped ↦ inr dropped
            ]
