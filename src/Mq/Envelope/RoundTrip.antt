-- ===== src/Mq/Envelope/RoundTrip.antt =====
-- An envelope that is written and read back, and what reading accepts.
use flz_chat.Common.{pos, ◌<ℤ◌, true, ◌≡◌, ◌≢◌, ◌⊎◌, some, returned, string_eq, arith}
use flz_chat.Json.{JsonOps}
use flz_chat.Json.Laws.{JsonLaws, fits}
use flz_chat.Mq.Envelope.{
  Envelope, to_json, to_string, read_fields, check_fields, from_json, from_string,
}

-- An envelope that `EnvelopeFromJson` accepts as it is.
pub record IsComplete {V : Type 0} (J : JsonOps V) (env : Envelope V) : Type 0 where
  pub msg_id : env.msg_id ≢ ""
  pub type : env.type ≢ ""
  pub version : pos 0 <ℤ env.version
  pub version_fits : fits 31 env.version ≡ true
  pub payload : (J.is_object env.payload ≡ true) ⊎ (J.is_array env.payload ≡ true)

module _ {V : Type 0} (J : JsonOps V) (L : JsonLaws J) (env : Envelope V) where
  check_complete : IsComplete J env → check_fields J env ≡ returned env
  unfolding check_fields
  check_complete c = ground (arith, string_eq.beq_iff env.msg_id "", string_eq.beq_iff env.type "")

  -- The value after the first three writes is an object.
  three_writes :
      J.is_object (
        J.put
          (J.put (J.put J.object "msgId" (J.text env.msg_id)) "version" (J.int64 env.version))
          "occurredAt"
          (J.text env.occurred_at))
      ≡ true
  three_writes = simp (L.is_object-put, L.is_object-object)

  is_object-to_json : J.is_object (to_json J env) ≡ true
  unfolding to_json
  is_object-to_json = rw (to_json, L.put-null) (simp (L.is_object-put, three_writes))

  read-to_json : IsComplete J env → read_fields J (to_json J env) ≡ some env
  unfolding read_fields to_json
  read-to_json c =
      rw (read_fields, to_json, L.put-null)
        (simp (
          L.get-put,
          L.at-put,
          L.is_object-put,
          L.is_object-object,
          three_writes,
          L.as_string-text,
          L.as_int-int64 env.version c.version_fits,
        ))

  -- A complete envelope that is written as JSON is read back as it was.
  pub from_json-to_json : IsComplete J env → from_json J (to_json J env) ≡ returned env
  unfolding from_json
  from_json-to_json c = rw (from_json, is_object-to_json, read-to_json c) (check_complete c)

  -- A complete envelope that is written as a text is read back as it was, where the JSON library reads
  -- the text that it wrote.
  pub from_string-to_string :
      J.from_string (J.to_string (to_json J env)) ≡ some (to_json J env)
      → IsComplete J env
      → from_string J (to_string J env) ≡ returned env
  unfolding from_string to_string
  from_string-to_string h c = rw (from_string, to_string, h) (from_json-to_json c)
