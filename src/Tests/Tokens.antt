-- ===== src/Tests/Tokens.antt =====
-- A token (chat/auth/jwt) that is accepted, for libraries that leave a text as it is.
use flz_chat.Common.{
  ◌≡◌, refl, size, ◌+ℤ◌, Option, none, some, String, pos, string_eq, ◌==◌, returned, arith, inl,
  inr, if◌then◌else◌,
}
use flz_chat.Json.Values.{Json, text, number, object, empty, field, values}
use flz_chat.Json.Read.{get_string, get_int64}
use flz_chat.Util.Base64Url.{encode, decode}
use flz_chat.Auth.Jwt.Numbers.{parse_uint64}
use flz_chat.Auth.Jwt.Verify.Complete.{IsWellFormed, verify-accepts}
use flz_chat.Auth.Jwt.Verify.{JwtClaims, TokenEnv, verify}
use flz_chat.Auth.Jwt.Verify.Sound.{IsAuthentic, verify-IsAuthentic}

abbrev header : Json
header = object (field "alg" (text "HS256") empty)

abbrev payload : Json
payload = object (
    field "iss" (text "business") (
      field "sub" (text "7") (
        field "did" (text "phone")
          (field "iat" (number (pos 90)) (field "exp" (number (pos 200)) empty)))))

-- The texts that the service decodes to: "head" and "body".
abbrev parse : String → Option Json
parse s = if s == "head" then some header else if s == "body" then some payload else none

abbrev pub service : TokenEnv Json
service = record {
  json = values parse (λ _. "{}");
  base64 = record { encode = λ s. s; decode = λ s. s };
  hmac_sha256 = λ key signed. some "sign";
  now = pos 100;
  config = record {
    algorithm = "HS256";
    secret = "hush";
    issuer = "business";
    clock_skew_seconds = pos 60;
  };
}

abbrev claims : JwtClaims Json
claims = record {
  user_id = 7;
  device_id = "phone";
  iat = pos 90;
  exp = pos 200;
  iss = "business";
  raw_payload = payload;
}

accepted : verify service "head.body.sign" ≡ returned claims
unfolding verify values size ◌+ℤ◌
accepted = refl

verify-IsAuthentic_example : IsAuthentic service "head.body.sign" claims
verify-IsAuthentic_example = verify-IsAuthentic service "head.body.sign" claims accepted

authentic : IsAuthentic service "head.body.sign" claims
unfolding decode encode values size ◌+ℤ◌ get_string get_int64 parse_uint64
authentic = record {
  a = "head";
  b = "body";
  c = "sign";
  header = header;
  payload = payload;
  digest = "sign";
  parts = refl;
  header_read = refl;
  payload_read = refl;
  algorithm = refl;
  signed = refl;
  signature = refl;
  current = record {
    issuer = refl;
    expiry = refl;
    issued = refl;
    device = refl;
    expires = omega arith;
    unexpired = omega arith;
    begun = inr (omega arith);
    user = omega arith;
    sub = "7";
    subject = inl (refl, refl);
    number = refl;
    iss = refl;
    raw = refl;
  };
}

well_formed : IsWellFormed service "head.body.sign" claims authentic
unfolding authentic values
well_formed = record {
  a_part = (omega arith, refl);
  b_part = (omega arith, refl);
  c_part = (omega arith, refl);
  header_object = refl;
  payload_object = refl;
}

verify-accepts_example : verify service "head.body.sign" ≡ returned claims
verify-accepts_example = verify-accepts service "head.body.sign" claims authentic well_formed
