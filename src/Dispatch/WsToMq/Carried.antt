-- ===== src/Dispatch/WsToMq/Carried.antt =====
-- What the business service can read from the message for a "msg.send" frame.
use flz_chat.Common.{
  ℕ, ℤ, pos, ltb, ◌^◌, ◌≡◌, refl, ◌∙◌, true, false, ◌⊎◌, inl, inr, String, some, ◌==◌, string_eq,
  if◌then◌else◌, Bool-cases, beq_refl,
}
use flz_chat.Json.Laws.{JsonLaws, fits}
use flz_chat.Json.Read.{get_string, get_int64, get_uint64}
use flz_chat.World.{World, Env, continue}
use flz_chat.Dispatch.WsToMq.{SendRequest, add_media, send_payload}

module _ {V : Type 0} (E : Env V) where
  -- The fields that a message for the business service holds, whatever its media.
  pub record Carries (uid : ℕ) (id : String) (conversation_id : ℤ) (content sent_at : String)
      (payload : V) : Type 0 where
    pub client_msg_id : get_string E.json payload "clientMsgId" ≡ some id
    pub conversation : get_int64 E.json payload "conversationId" ≡ some conversation_id
    pub sender : get_uint64 E.json payload "senderId" ≡ some uid
    pub kind : get_int64 E.json payload "type" ≡ some (pos 1)
    pub text : get_string E.json payload "content" ≡ some content
    pub time : get_string E.json payload "sentAt" ≡ some sent_at

  -- The media of a frame: left out where they are null, and else a text, which is their JSON if they
  -- are none.
  abbrev pub HasMedia : V → V → Type 0
  HasMedia media payload =
      ((E.json.is_null media ≡ true) × (E.json.is_member payload "mediaMeta" ≡ some false))
      ⊎ ((E.json.is_null media ≡ false)
          × (get_string E.json payload "mediaMeta" ≡ (
              if E.json.is_string media
              then E.json.as_string media
              else some (E.json.to_string media))))

  module _ (L : JsonLaws E.json) where
    get_string-put_other :
        (o v : V) (k j : String)
        → E.json.is_object o ≡ true
        → (k == j) ≡ false
        → get_string E.json (E.json.put o k v) j ≡ get_string E.json o j
    unfolding get_string
    get_string-put_other o v k j h e = rw (get_string, L.get-put o v (E.json.text "") k j h, e) refl

    get_int64-put_other :
        (o v : V) (k j : String)
        → E.json.is_object o ≡ true
        → (k == j) ≡ false
        → get_int64 E.json (E.json.put o k v) j ≡ get_int64 E.json o j
    unfolding get_int64
    get_int64-put_other o v k j h e =
        rw (get_int64, L.get-put o v (E.json.int64 (pos 0)) k j h, e) refl

    get_uint64-put_other :
        (o v : V) (k j : String)
        → E.json.is_object o ≡ true
        → (k == j) ≡ false
        → get_uint64 E.json (E.json.put o k v) j ≡ get_uint64 E.json o j
    unfolding get_uint64
    get_uint64-put_other o v k j h e =
        rw (get_uint64, L.get-put o v (E.json.int64 (pos 0)) k j h, e) refl

    get_string-put :
        (o : V) (k s : String)
        → E.json.is_object o ≡ true
        → get_string E.json (E.json.put o k (E.json.text s)) k ≡ some s
    unfolding get_string
    get_string-put o k s h =
        rw (get_string, L.get-put o (E.json.text s) (E.json.text "") k k h, beq_refl k)
          (L.as_string-text s)

    get_int64-put :
        (o : V) (k : String) (i : ℤ)
        → E.json.is_object o ≡ true
        → fits 63 i ≡ true
        → get_int64 E.json (E.json.put o k (E.json.int64 i)) k ≡ some i
    unfolding get_int64
    get_int64-put o k i h f =
        rw (get_int64, L.get-put o (E.json.int64 i) (E.json.int64 (pos 0)) k k h, beq_refl k)
          (L.as_int64-int64 i f)

    get_uint64-put :
        (o : V) (k : String) (n : ℕ)
        → E.json.is_object o ≡ true
        → ltb n (2 ^ 64) ≡ true
        → get_uint64 E.json (E.json.put o k (E.json.uint64 n)) k ≡ some n
    unfolding get_uint64
    get_uint64-put o k n h f =
        rw (get_uint64, L.get-put o (E.json.uint64 n) (E.json.int64 (pos 0)) k k h, beq_refl k)
          (L.as_uint64-uint64 n f)

    -- The member "mediaMeta" leaves the others as they are.
    put_media-Carries :
        (uid : ℕ) (id : String) (conversation_id : ℤ) (content sent_at : String) (o v : V)
        → E.json.is_object o ≡ true
        → Carries uid id conversation_id content sent_at o
        → Carries uid id conversation_id content sent_at (E.json.put o "mediaMeta" v)
    put_media-Carries uid id conversation_id content sent_at o v h c = record {
      client_msg_id = get_string-put_other o v "mediaMeta" "clientMsgId" h refl ∙ c.client_msg_id;
      conversation = get_int64-put_other o v "mediaMeta" "conversationId" h refl ∙ c.conversation;
      sender = get_uint64-put_other o v "mediaMeta" "senderId" h refl ∙ c.sender;
      kind = get_int64-put_other o v "mediaMeta" "type" h refl ∙ c.kind;
      text = get_string-put_other o v "mediaMeta" "content" h refl ∙ c.text;
      time = get_string-put_other o v "mediaMeta" "sentAt" h refl ∙ c.time;
    }

    one_fits : fits 63 (pos 1) ≡ true
    unfolding fits
    one_fits = refl

    -- What the message holds before the media.
    send_payload-Carries :
        (uid : ℕ) (q : SendRequest V)
        → ltb uid (2 ^ 64) ≡ true
        → fits 63 q.conversation_id ≡ true
        → let o = send_payload E uid q in
          (E.json.is_object o ≡ true)
          × (E.json.is_member o "mediaMeta" ≡ some false)
          × Carries uid q.client_msg_id q.conversation_id q.content q.sent_at o
    unfolding send_payload
    send_payload-Carries uid q small fit =
        let J = E.json in
        let a = J.put J.object "clientMsgId" (J.text q.client_msg_id) in
        let b = J.put a "conversationId" (J.int64 q.conversation_id) in
        let c = J.put b "senderId" (J.uint64 uid) in
        let d = J.put c "type" (J.int64 (pos 1)) in
        let e = J.put d "content" (J.text q.content) in
        let o = J.put e "sentAt" (J.text q.sent_at) in
        let ha =
          L.is_object-put J.object (J.text q.client_msg_id) "clientMsgId" L.is_object-object in
        let hb = L.is_object-put a (J.int64 q.conversation_id) "conversationId" ha in
        let hc = L.is_object-put b (J.uint64 uid) "senderId" hb in
        let hd = L.is_object-put c (J.int64 (pos 1)) "type" hc in
        let he = L.is_object-put d (J.text q.content) "content" hd in
        let ho = L.is_object-put e (J.text q.sent_at) "sentAt" he in
        rw (send_payload, L.put-null)
          (
            ho,
            simp (L.is_member-put, L.is_member-object, L.is_object-object, ha, hb, hc, hd, he),
            record {
              client_msg_id =
                  simp
                    (get_string-put_other, get_string-put, L.is_object-object, ha, hb, hc, hd, he);
              conversation = simp (get_int64-put_other, get_int64-put, fit, ha, hb, hc, hd, he);
              sender = simp (get_uint64-put_other, get_uint64-put, small, hb, hc, hd, he);
              kind = simp (get_int64-put_other, get_int64-put, one_fits, hc, hd, he);
              text = simp (get_string-put_other, get_string-put, hd, he);
              time = simp (get_string-put, he);
            },
          )

    -- The message of a request is built, and holds what the request does.
    pub add_media-Carries :
        (uid : ℕ) (q : SendRequest V)
        → ltb uid (2 ^ 64) ≡ true
        → fits 63 q.conversation_id ≡ true
        → (p : V) × ((w : World V)
            → add_media E q.media_meta (send_payload E uid q) w ≡ (some p, w))
          × Carries uid q.client_msg_id q.conversation_id q.content q.sent_at p
          × HasMedia q.media_meta p
    unfolding add_media continue
    add_media-Carries uid q small fit =
        let base = send_payload E uid q in
        let media = q.media_meta in
        let (h, absent, c) = send_payload-Carries uid q small fit in
        let kept = λ (v : V).
          put_media-Carries uid q.client_msg_id q.conversation_id q.content q.sent_at base v h c in
        elim (Bool-cases (E.json.is_null media)) [
          | inl n ↦ (base, λ w. rw (add_media, n) refl, c, inl (n, absent))
          | inr n ↦ elim (Bool-cases (E.json.is_string media)) [
            | inl s ↦
                let (t, e) = L.as_string-is_string media s in
                (
                  E.json.put base "mediaMeta" (E.json.text t),
                  λ w. rw (add_media, n, s, e) refl,
                  kept (E.json.text t),
                  inr (n, rw (s, e) (get_string-put base "mediaMeta" t h)),
                )
            | inr s ↦
                let t = E.json.to_string media in
                (
                  E.json.put base "mediaMeta" (E.json.text t),
                  λ w. rw (add_media, n, s) refl,
                  kept (E.json.text t),
                  inr (n, rw s (get_string-put base "mediaMeta" t h)),
                )
          ]
        ]
