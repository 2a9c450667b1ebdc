-- ===== src/Auth/Jwt/Verify.antt =====
-- `JwtVerifier::Verify` of chat/auth/jwt.cc.
--
-- The token's parts are decoded by base64url, read as JSON and signed by OpenSSL's HMAC; base64, JSON,
-- HMAC and the clock are parameters.
pub mod Sound
pub mod Complete
use Prim.Native.String.{◌++◌}
use flz_chat.Common.{
  ℕ, ℤ, pos, ◌+ℤ◌, leb_ℤ, ltb_ℤ, Bool, true, false, not, ◌||◌, ◌&&◌, String, Option, none, some,
  List, [], ◌∷◌, is_blank, ◌==◌, nat_eq, string_eq, Outcome, returned, failed, thrown, or_throw,
  bind as ◌>>=◌, if◌then◌else◌,
}
use flz_chat.Json.{JsonOps}
use flz_chat.Json.Read.{get_string, get_int64}
use flz_chat.Config.{JwtConfig}
use flz_chat.Util.Base64Url.{Base64, encode, decode}
use flz_chat.Auth.Jwt.Split.{split}
use flz_chat.Auth.Jwt.Numbers.{parse_uint64}

pub record JwtClaims (V : Type 0) : Type 0 where
  pub user_id : ℕ
  pub device_id : String
  pub iat : ℤ
  pub exp : ℤ
  pub iss : String
  pub raw_payload : V

-- `HMAC(EVP_sha256(), key, text)`, `none` for its null; and `time(nullptr)`.
pub record TokenEnv (V : Type 0) : Type 0 where
  pub json : JsonOps V
  pub base64 : Base64
  pub hmac_sha256 : String → String → Option String
  pub now : ℤ
  pub config : JwtConfig

module _ {V : Type 0} (E : TokenEnv V) where
  -- The three parts, none of them empty.
  unfoldable pub parts_of : String → Outcome (String × String × String)
  unfolding split
  parts_of token = elim (split token b'.') [
    | a ∷ b ∷ c ∷ [] ↦
        if is_blank a || is_blank b || is_blank c
        then failed "token format invalid"
        else returned (a, b, c)
    | _ ↦ failed "token format invalid"
  ]

  -- A decoded part as a JSON object.
  unfoldable pub read_object : String → String → Outcome V
  unfolding decode
  read_object part err = elim ((E.json).from_string (decode E.base64 part)) [
    | none ↦ failed err
    | some v ↦ if (E.json).is_object v then returned v else failed err
  ]

  unfoldable pub check_alg : V → Outcome (Unit {0})
  unfolding get_string
  check_alg header = do
    alg ← or_throw (get_string E.json header "alg")
    if alg == "HS256" then returned tt else failed "token alg invalid"

  unfoldable pub check_signature : String → String → String → Outcome (Unit {0})
  unfolding encode
  check_signature a b c = elim (E.hmac_sha256 E.config.secret (a ++ ("." ++ b))) [
    | none ↦ failed "hmac failed"
    | some digest ↦
        if encode E.base64 digest == c then returned tt else failed "token signature invalid"
  ]

  unfoldable pub check_issuer : V → Outcome String
  unfolding get_string
  check_issuer payload = do
    iss ← or_throw (get_string E.json payload "iss")
    if iss == E.config.issuer then returned iss else failed "token issuer mismatch"

  -- The checks of the times of expiry and issue.
  unfoldable pub check_times : ℤ → ℤ → Outcome (Unit {0})
  check_times exp iat =
      if leb_ℤ exp (pos 0) || ltb_ℤ (exp +ℤ E.config.clock_skew_seconds) E.now
      then failed "token expired"
      else if ltb_ℤ (pos 0) iat && ltb_ℤ (E.now +ℤ E.config.clock_skew_seconds) iat
      then failed "token iat invalid"
      else returned tt

  -- The text of the subject, also where it is a number.
  unfoldable pub read_sub : V → Outcome String
  unfolding get_string
  read_sub payload = do
    sub ← or_throw (get_string E.json payload "sub")
    let number : Outcome String = do
      v ← or_throw ((E.json).at payload "sub")
      if (E.json).is_uint64 v || (E.json).is_int64 v
          then or_throw ((E.json).as_string v)
          else returned sub
    if is_blank sub then number else returned sub

  unfoldable pub read_user_id : String → Outcome ℕ
  unfolding parse_uint64
  read_user_id sub = elim (parse_uint64 sub) [
    | none ↦ failed "token sub invalid"
    | some uid ↦ if uid == 0 then failed "token sub invalid" else returned uid
  ]

  -- The claims of a signed payload.
  unfoldable pub read_claims : V → Outcome (JwtClaims V)
  unfolding check_issuer get_int64 check_times read_sub read_user_id get_string
  read_claims payload = do
    iss ← check_issuer payload
    exp ← or_throw (get_int64 E.json payload "exp")
    iat ← or_throw (get_int64 E.json payload "iat")
    timely ← check_times exp iat
    sub ← read_sub payload
    user_id ← read_user_id sub
    device_id ← or_throw (get_string E.json payload "did")
    returned (record {
      user_id = user_id;
      device_id = device_id;
      iat = iat;
      exp = exp;
      iss = iss;
      raw_payload = payload;
    })

  unfoldable pub verify : String → Outcome (JwtClaims V)
  unfolding parts_of read_object check_alg check_signature read_claims
  verify token = do
    (a, b, c) ← parts_of token
    header ← read_object a "token header invalid"
    payload ← read_object b "token payload invalid"
    hs256 ← check_alg header
    signed ← check_signature a b c
    read_claims payload
