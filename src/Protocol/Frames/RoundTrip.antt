-- ===== src/Protocol/Frames/RoundTrip.antt =====
-- About frames that are built and read back.
use flz_chat.Common.{
  ℤ, pos, Bool, true, false, ◌≡◌, ◌≢◌, String, some, returned, if◌then◌else◌, string_eq, beq_ne,
}
use flz_chat.Json.{JsonOps}
use flz_chat.Json.Laws.{JsonLaws, fits}
use flz_chat.Json.Read.{get_string}
use flz_chat.Protocol.Frames.{ClientFrame, read_frame, parse_json, build_frame}

-- The frame that a client reads from `BuildFrame`: a sequence number only if there is one.
abbrev pub frame_of : {V : Type 0} → String → V → Bool → ℤ → ClientFrame V
frame_of type payload has_seq seq = record {
  type = type;
  has_seq = has_seq;
  seq = if has_seq then seq else pos 0;
  payload = payload;
}

module _ {V : Type 0} (J : JsonOps V) (L : JsonLaws J) where
  is_object-build_frame :
      (type : String) (payload : V) (has_seq : Bool) (seq : ℤ)
      → J.is_object (build_frame J type payload has_seq seq) ≡ true
  unfolding build_frame
  is_object-build_frame type payload true seq =
      rw (build_frame, L.put-null) (simp (L.is_object-put, L.is_object-object))
  is_object-build_frame type payload false seq =
      rw (build_frame, L.put-null) (simp (L.is_object-put, L.is_object-object))

  read-build_frame :
      (type : String) (payload : V) (has_seq : Bool) (seq : ℤ)
      → fits 63 seq ≡ true
      → read_frame J (build_frame J type payload has_seq seq) type
        ≡ returned (frame_of type payload has_seq seq)
  unfolding read_frame build_frame
  read-build_frame type payload true seq small =
      rw (read_frame, build_frame, L.put-null)
        (simp (
          L.is_member-put,
          L.at-put,
          L.is_object-put,
          L.is_object-object,
          L.is_int64-int64 seq small,
          L.as_int64-int64 seq small,
        ))
  read-build_frame type payload false seq small =
      rw (read_frame, build_frame, L.put-null)
        (simp (L.is_member-put, L.is_member-object, L.at-put, L.is_object-put, L.is_object-object))

  type-build_frame :
      (type : String) (payload : V) (has_seq : Bool) (seq : ℤ)
      → get_string J (build_frame J type payload has_seq seq) "type" ≡ some type
  unfolding build_frame get_string
  type-build_frame type payload true seq =
      rw (get_string, build_frame, L.put-null)
        (simp (L.get-put, L.is_object-put, L.is_object-object, L.as_string-text))
  type-build_frame type payload false seq =
      rw (get_string, build_frame, L.put-null)
        (simp (L.get-put, L.is_object-put, L.is_object-object, L.as_string-text))

  -- A frame that `BuildFrame` makes, for a type that is not empty and a sequence number of int64_t,
  -- is parsed as it was: its type, its sequence number if it has one, and its data.
  pub parse-build_frame :
      (type : String) (payload : V) (has_seq : Bool) (seq : ℤ)
      → type ≢ ""
      → fits 63 seq ≡ true
      → parse_json J (build_frame J type payload has_seq seq)
        ≡ returned (frame_of type payload has_seq seq)
  unfolding parse_json
  parse-build_frame type payload has_seq seq ne small =
      rw
        (
          parse_json,
          is_object-build_frame type payload has_seq seq,
          type-build_frame type payload has_seq seq,
          beq_ne type "" ne,
        )
        (read-build_frame type payload has_seq seq small)
