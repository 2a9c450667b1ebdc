-- ===== src/Mq/Envelope.antt =====
-- chat/mq/envelope: the frame of every message that goes through the broker.
pub mod RoundTrip
use flz_chat.Common.{
  ℕ, ℤ, pos, leb_ℤ, Bool, true, false, not, ◌||◌, ◌&&◌, String, Option, none, some, is_blank,
  Outcome, returned, failed, thrown, or_throw, bind, bind? as ◌>>=◌, if◌then◌else◌,
}
use flz_chat.Json.{JsonOps}
use flz_chat.Json.Read.{get_string, get_int}

pub record Envelope (V : Type 0) : Type 0 where
  pub msg_id : String
  pub version : ℤ
  pub occurred_at : String
  pub source : String
  pub type : String
  pub payload : V

module _ {V : Type 0} (J : JsonOps V) where
  -- `EnvelopeToJson` into a fresh value.
  unfoldable pub to_json : Envelope V → V
  to_json env =
      let a = J.put J.null "msgId" (J.text env.msg_id) in
      let b = J.put a "version" (J.int64 env.version) in
      let c = J.put b "occurredAt" (J.text env.occurred_at) in
      let d = J.put c "source" (J.text env.source) in
      let e = J.put d "type" (J.text env.type) in J.put e "payload" env.payload

  unfoldable pub to_string : Envelope V → String
  unfolding to_json
  to_string env = J.to_string (to_json env)

  -- The reads of `EnvelopeFromJson`.
  unfoldable pub read_fields : V → Option (Envelope V)
  unfolding get_string get_int
  read_fields v = do
    msg_id ← get_string J v "msgId"
    version ← get_int J v "version"
    occurred_at ← get_string J v "occurredAt"
    source ← get_string J v "source"
    type ← get_string J v "type"
    payload ← J.at v "payload"
    some (record {
      msg_id = msg_id;
      version = version;
      occurred_at = occurred_at;
      source = source;
      type = type;
      payload = payload;
    })

  -- The checks of `EnvelopeFromJson`, and the payload that is neither object nor array.
  unfoldable pub check_fields : Envelope V → Outcome (Envelope V)
  check_fields env =
      if is_blank env.msg_id || is_blank env.type || leb_ℤ env.version (pos 0)
      then failed "envelope required fields missing"
      else if not (J.is_object env.payload) && not (J.is_array env.payload)
      then returned (record env { payload = J.object })
      else returned env

  unfoldable pub from_json : V → Outcome (Envelope V)
  unfolding read_fields check_fields
  from_json v =
      if not (J.is_object v)
      then failed "envelope must be object"
      else bind (or_throw (read_fields v)) check_fields

  unfoldable pub from_string : String → Outcome (Envelope V)
  unfolding from_json
  from_string text = elim (J.from_string text) [
    | none ↦ failed "envelope json parse failed"
    | some json ↦ from_json json
  ]

  -- `BuildEnvelope`, at the id that Uuid::V4 gives and the time of Iso8601Now.
  unfoldable pub build : String → String → String → String → V → Envelope V
  build uuid iso_now source type payload = record {
    msg_id = uuid;
    version = pos 1;
    occurred_at = iso_now;
    source = source;
    type = type;
    payload = payload;
  }
