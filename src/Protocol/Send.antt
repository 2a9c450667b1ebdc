-- ===== src/Protocol/Send.antt =====
-- `SendFrame` and `SendError` of chat/protocol, on the session that flz provides.
use flz_chat.Common.{
  ℕ, ℤ, pos, negsuc, leb_ℤ, Bool, String, Option, none, some, [], ◌∷◌, ◌++◌, if◌then◌else◌,
}
use flz_chat.World.{Env, M, sent}
use flz_chat.Protocol.Frames.{build_frame}

module _ {V : Type 0} (E : Env V) where
  -- The text of a frame.
  abbrev pub frame_text : String → V → Bool → ℤ → String
  frame_text type payload has_seq seq =
      (E.json).to_string (build_frame E.json type payload has_seq seq)

  -- `session->sendMessage(text, TEXT_FRAME, true)`; the trace keeps the call, whatever it answers.
  unfoldable pub send_text : ℕ → String → M V ℤ
  send_text s text w = (
    some (if leb_ℤ (E.send_message w.net s text) (pos 0) then negsuc 0 else pos 0),
    record w { net = w.net ++ sent s text ∷ [] },
  )

  -- 0 if sendMessage answers that the frame was sent, -1 if not.
  unfoldable pub send_frame : Option ℕ → String → V → Bool → ℤ → M V ℤ
  unfolding send_text
  send_frame none type payload has_seq seq w = (some (negsuc 0), w)
  send_frame (some s) type payload has_seq seq w =
      send_text s (frame_text type payload has_seq seq) w

  -- The data of an error frame.
  abbrev pub error_data : ℕ → String → V
  error_data code msg =
      let J = E.json in J.put (J.put J.null "code" (J.int64 (pos code))) "msg" (J.text msg)

  unfoldable pub send_error : Option ℕ → ℕ → String → Bool → ℤ → M V ℤ
  unfolding send_frame
  send_error s code msg has_seq seq = send_frame s "error" (error_data code msg) has_seq seq
