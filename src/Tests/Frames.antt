-- ===== src/Tests/Frames.antt =====
-- Frames (chat/protocol) and envelopes (chat/mq/envelope) that are written and read back.
use flz_chat.Common.{
  ◌≡◌, refl, ◌≢◌, true, false, inl, none, some, String, pos, string_eq, returned, arith,
}
use flz_chat.Json.{JsonOps}
use flz_chat.Json.Laws.{fits}
use flz_chat.Json.Values.{Json, number, object, empty, field, values, values_laws}
use flz_chat.Protocol.Frames.{parse_json, build_frame}
use flz_chat.Protocol.Frames.RoundTrip.{frame_of, parse-build_frame}
use flz_chat.Mq.Envelope.{Envelope, to_json, to_string, from_string}
use flz_chat.Mq.Envelope.RoundTrip.{IsComplete, from_string-to_string}

abbrev envelope : Envelope Json
envelope = record {
  msg_id = "e-1";
  version = pos 1;
  occurred_at = "2024-01-01T00:00:00Z";
  source = "chat";
  type = "msg.push";
  payload = object (field "messageId" (number (pos 5)) empty);
}

-- The written form of the envelope, and a parser of it.
abbrev writer : JsonOps Json
writer = values (λ _. none) (λ _. "{}")

abbrev json : JsonOps Json
json = values (λ _. some (to_json writer envelope)) (λ _. "{}")

pub not_empty : (s : String) → string_eq.beq s "" ≡ false → s ≢ ""
not_empty s f h = ground (arith, (string_eq.beq_iff s "").1 h)

envelope-IsComplete : IsComplete json envelope
unfolding values fits
envelope-IsComplete = record {
  msg_id = not_empty "e-1" refl;
  type = not_empty "msg.push" refl;
  version = omega arith;
  version_fits = refl;
  payload = inl refl;
}

read_back : json.from_string (json.to_string (to_json json envelope)) ≡ some (to_json json envelope)
unfolding values to_json
read_back = refl

from_string-to_string_example : from_string json (to_string json envelope) ≡ returned envelope
from_string-to_string_example =
    from_string-to_string json (values_laws (λ _. some (to_json writer envelope)) (λ _. "{}"))
      envelope read_back envelope-IsComplete

abbrev payload : Json
payload = object (field "ts" (number (pos 9)) empty)

three_fits : fits 63 (pos 3) ≡ true
unfolding fits
three_fits = refl

parse-build_frame_example :
    parse_json json (build_frame json "pong" payload true (pos 3))
    ≡ returned (frame_of "pong" payload true (pos 3))
parse-build_frame_example =
    parse-build_frame json (values_laws (λ _. some (to_json writer envelope)) (λ _. "{}")) "pong"
      payload true (pos 3) (not_empty "pong" refl) three_fits
