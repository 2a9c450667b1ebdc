-- ===== src/Protocol/Frames.antt =====
-- The frames of chat/protocol as JSON: what is read from a client, and what is written.
pub mod RoundTrip
use flz_chat.Common.{
  ℕ, ℤ, pos, Bool, true, false, not, ◌||◌, ◌&&◌, String, Option, none, some, is_blank, Outcome,
  returned, failed, or_throw, bind as ◌>>=◌, if◌then◌else◌,
}
use flz_chat.Json.{JsonOps}
use flz_chat.Json.Read.{get_string}

pub record ClientFrame (V : Type 0) : Type 0 where
  pub type : String
  pub has_seq : Bool
  pub seq : ℤ
  pub payload : V

module _ {V : Type 0} (J : JsonOps V) where
  is_integer : V → Bool
  is_integer v = J.is_int64 v || J.is_uint64 v || J.is_int v

  -- The member "seq", by whether there is one.
  unfoldable pub read_seq : V → Bool → Outcome (Bool × ℤ)
  unfolding is_integer
  read_seq json false = returned (false, pos 0)
  read_seq json true = do
    v ← or_throw (J.at json "seq")
    i ← (if is_integer v then or_throw (J.as_int64 v) else failed "seq must be integer")
    returned (true, i)

  unfoldable pub read_data : V → Bool → Outcome V
  read_data json false = returned J.object
  read_data json true = or_throw (J.at json "data")

  -- What `ParseClientFrame` does once the type is known.
  unfoldable pub read_frame : V → String → Outcome (ClientFrame V)
  unfolding read_seq read_data
  read_frame json type = do
    has_seq ← or_throw (J.is_member json "seq")
    seq ← read_seq json has_seq
    has_data ← or_throw (J.is_member json "data")
    payload ← read_data json has_data
    returned (record { type = type; has_seq = seq.0; seq = seq.1; payload = payload })

  unfoldable pub parse_json : V → Outcome (ClientFrame V)
  unfolding get_string read_frame
  parse_json json = if not (J.is_object json) then failed "frame must be object" else do
    type ← or_throw (get_string J json "type")
    if is_blank type then failed "type required" else read_frame json type

  unfoldable pub parse_client_frame : String → Outcome (ClientFrame V)
  unfolding parse_json
  parse_client_frame raw = elim (J.from_string raw) [
    | none ↦ failed "bad json"
    | some json ↦ parse_json json
  ]

  unfoldable pub build_frame : String → V → Bool → ℤ → V
  build_frame type payload has_seq seq =
      let typed = J.put J.null "type" (J.text type) in
      let numbered = if has_seq then J.put typed "seq" (J.int64 seq) else typed in
      J.put numbered "data" payload
