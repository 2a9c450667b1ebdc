-- ===== src/Auth/Jwt/Verify/Sound.antt =====
-- What a token that is accepted proves.
use Prim.Native.String.{◌++◌}
use flz_chat.Common.{
  ℕ, ℤ, pos, true, false, ◌||◌, none, is_blank, Bool-cases, ◌+ℤ◌, ◌≤ℤ◌, ◌<ℤ◌, ◌≡◌, ◌≢◌, ◌⊎◌, inl,
  inr, refl, sym, ap, subst, ◌∙◌, String, Option, some, [], ◌∷◌, nat_eq, string_eq, returned,
  or_throw, bind, bind_inv, if◌then◌else◌, arith, Option-cases,
}
use flz_chat.Json.Read.{get_string, get_int64}
use flz_chat.Util.Base64Url.{encode, decode}
use flz_chat.Auth.Jwt.Numbers.{parse_uint64, strtoull}
use flz_chat.Auth.Jwt.Split.{split, join, join-split}
use flz_chat.Auth.Jwt.Verify.{
  JwtClaims, TokenEnv, parts_of, read_object, check_alg, check_signature, check_issuer, check_times,
  read_sub, read_user_id, read_claims, verify,
}

module _ {V : Type 0} (E : TokenEnv V) where
  -- The text of the payload's subject: as it stands, or that of a number where it reads as empty.
  abbrev pub IsSubject : V → String → Type 0
  IsSubject payload sub =
      ((get_string E.json payload "sub" ≡ some sub) × (is_blank sub ≡ false))
      ⊎ ((v : V) × (get_string E.json payload "sub" ≡ some "")
          × (E.json.at payload "sub" ≡ some v)
          × ((E.json.is_uint64 v || E.json.is_int64 v) ≡ true)
          × (E.json.as_string v ≡ some sub))

  -- The claims of a payload that holds at the time of the check, for this issuer.
  pub record AreCurrent (payload : V) (claims : JwtClaims V) : Type 0 where
    pub issuer : get_string E.json payload "iss" ≡ some E.config.issuer
    pub expiry : get_int64 E.json payload "exp" ≡ some claims.exp
    pub issued : get_int64 E.json payload "iat" ≡ some claims.iat
    pub device : get_string E.json payload "did" ≡ some claims.device_id
    pub expires : pos 0 <ℤ claims.exp
    pub unexpired : E.now ≤ℤ claims.exp +ℤ E.config.clock_skew_seconds
    pub begun : (claims.iat ≤ℤ pos 0) ⊎ (claims.iat ≤ℤ E.now +ℤ E.config.clock_skew_seconds)
    pub user : claims.user_id ≢ 0
    pub sub : String
    pub subject : IsSubject payload sub
    pub number : parse_uint64 sub ≡ some claims.user_id
    pub iss : claims.iss ≡ E.config.issuer
    pub raw : claims.raw_payload ≡ payload

  -- A token in three parts that is signed with the secret of the service.
  pub record IsAuthentic (token : String) (claims : JwtClaims V) : Type 0 where
    pub a : String
    pub b : String
    pub c : String
    pub header : V
    pub payload : V
    pub digest : String
    pub parts : token ≡ a ++ ("." ++ (b ++ ("." ++ c)))
    pub header_read : (E.json).from_string (decode E.base64 a) ≡ some header
    pub payload_read : (E.json).from_string (decode E.base64 b) ≡ some payload
    pub algorithm : get_string E.json header "alg" ≡ some "HS256"
    pub signed : E.hmac_sha256 E.config.secret (a ++ ("." ++ b)) ≡ some digest
    pub signature : encode E.base64 digest ≡ c
    pub current : AreCurrent payload claims

  parts_of-returned :
      (token a b c : String)
      → parts_of E token ≡ returned (a, b, c)
      → split token b'.' ≡ a ∷ b ∷ c ∷ []
  unfolding parts_of
  parts_of-returned token a b c h = ground arith

  read_object-returned :
      (part err : String) (v : V)
      → read_object E part err ≡ returned v
      → (E.json).from_string (decode E.base64 part) ≡ some v
  unfolding read_object
  read_object-returned part err v h = ground arith

  check_alg-returned :
      (header : V) (u : Unit {0})
      → check_alg E header ≡ returned u
      → get_string E.json header "alg" ≡ some "HS256"
  unfolding check_alg
  check_alg-returned header u h = elim (Option-cases (get_string E.json header "alg")) [
    | inl e ↦ absurd (ground arith)
    | inr (alg, e) ↦ ground (arith, string_eq.beq_iff alg "HS256")
  ]

  check_signature-returned :
      (a b c : String) (u : Unit {0})
      → check_signature E a b c ≡ returned u
      → (digest : String) × (E.hmac_sha256 E.config.secret (a ++ ("." ++ b)) ≡ some digest)
        × (encode E.base64 digest ≡ c)
  unfolding check_signature
  check_signature-returned a b c u h =
      elim (Option-cases (E.hmac_sha256 E.config.secret (a ++ ("." ++ b)))) [
        | inl e ↦ absurd (ground arith)
        | inr (d, e) ↦ (d, e, ground (arith, string_eq.beq_iff (encode E.base64 d) c))
      ]

  check_issuer-returned :
      (payload : V) (iss : String)
      → check_issuer E payload ≡ returned iss
      → (get_string E.json payload "iss" ≡ some E.config.issuer) × (iss ≡ E.config.issuer)
  unfolding check_issuer
  check_issuer-returned payload iss h = elim (Option-cases (get_string E.json payload "iss")) [
    | inl e ↦ absurd (ground arith)
    | inr (s, e) ↦ ground (arith, string_eq.beq_iff s E.config.issuer)
  ]

  check_times-returned :
      (exp iat : ℤ) (u : Unit {0})
      → check_times E exp iat ≡ returned u
      → (pos 0 <ℤ exp)
        × (E.now ≤ℤ exp +ℤ E.config.clock_skew_seconds)
        × ((iat ≤ℤ pos 0) ⊎ (iat ≤ℤ E.now +ℤ E.config.clock_skew_seconds))
  unfolding check_times
  check_times-returned exp iat u h = ground arith

  read_user_id-returned :
      (sub : String) (uid : ℕ)
      → read_user_id E sub ≡ returned uid
      → (uid ≢ 0) × (parse_uint64 sub ≡ some uid)
  unfolding read_user_id
  read_user_id-returned sub uid h = ground arith

  returned_inv {ℓ} : {A : Type ℓ} {a b : A} → returned a ≡ returned b → a ≡ b
  returned_inv h = cc

  or_throw-returned {ℓ} : {A : Type ℓ} (o : Option A) (a : A) → or_throw o ≡ returned a → o ≡ some a
  or_throw-returned o a h = ground arith

  parse_empty : parse_uint64 "" ≡ none
  unfolding parse_uint64 strtoull
  parse_empty = refl

  -- What is read where the text of the subject is empty.
  number-returned :
      (payload : V) (s sub : String)
      → s ≡ ""
      → get_string E.json payload "sub" ≡ some ""
      → parse_uint64 sub ≢ none
      → bind (or_throw (E.json.at payload "sub")) (λ v.
        if E.json.is_uint64 v || E.json.is_int64 v
        then or_throw (E.json.as_string v)
        else returned s)
        ≡ returned sub
      → (v : V) × (get_string E.json payload "sub" ≡ some "")
        × (E.json.at payload "sub" ≡ some v)
        × ((E.json.is_uint64 v || E.json.is_int64 v) ≡ true)
        × (E.json.as_string v ≡ some sub)
  number-returned payload s sub blank e p h =
      bind_inv (or_throw (E.json.at payload "sub")) _ h λ v f g.
        elim (Bool-cases (E.json.is_uint64 v || E.json.is_int64 v)) [
          | inl q ↦ (v, e, or_throw-returned _ _ f, q, or_throw-returned _ _ (rw q at g))
          | inr q ↦
              let same : s ≡ sub = returned_inv (rw q at g) in
              absurd (p (ap parse_uint64 (sym same ∙ blank) ∙ parse_empty))
        ]

  read_sub-returned :
      (payload : V) (sub : String)
      → read_sub E payload ≡ returned sub
      → parse_uint64 sub ≢ none
      → IsSubject payload sub
  unfolding read_sub
  read_sub-returned payload sub h p = elim (Option-cases (get_string E.json payload "sub")) [
    | inl e ↦ absurd (ground (arith, rw (e, read_sub) at h))
    | inr (s, e) ↦ elim (Bool-cases (is_blank s)) [
      | inr f ↦
          let same : s ≡ sub = returned_inv (rw (e, f, read_sub) at h) in
          inl (e ∙ ap (λ t. some t) same, subst (λ t. is_blank t ≡ false) same f)
      | inl f ↦
          let blank : s ≡ "" = (string_eq.beq_iff s "").0 f in
          inr (
            number-returned payload s sub blank (e ∙ ap (λ t. some t) blank) p
              (rw (e, f, read_sub) at h))
    ]
  ]

  read_claims-current :
      (payload : V) (claims : JwtClaims V)
      → read_claims E payload ≡ returned claims
      → AreCurrent payload claims
  unfolding read_claims
  read_claims-current payload claims h = bind_inv (check_issuer E payload) _ h λ iss e₁ h₁.
      bind_inv (or_throw (get_int64 E.json payload "exp")) _ h₁ λ exp e₂ h₂.
        bind_inv (or_throw (get_int64 E.json payload "iat")) _ h₂ λ iat e₃ h₃.
          bind_inv (check_times E exp iat) _ h₃ λ u e₄ h₄.
            bind_inv (read_sub E payload) _ h₄ λ sub e₅ h₅.
              bind_inv (read_user_id E sub) _ h₅ λ uid e₆ h₆.
                bind_inv (or_throw (get_string E.json payload "did")) _ h₆ λ did e₇ h₇.
                  let (x, y, z) = check_times-returned exp iat u e₄ in
                  let (issuer, same_issuer) = check_issuer-returned payload iss e₁ in
                  let (positive, number) = read_user_id-returned sub uid e₆ in
                  let parsed : parse_uint64 sub ≢ none = λ q. absurd (cc) in
                  subst (AreCurrent payload) (returned_inv h₇) (record {
                    issuer = issuer;
                    expiry = or_throw-returned _ _ e₂;
                    issued = or_throw-returned _ _ e₃;
                    device = or_throw-returned _ _ e₇;
                    expires = x;
                    unexpired = y;
                    begun = z;
                    user = positive;
                    sub = sub;
                    subject = read_sub-returned payload sub e₅ parsed;
                    number = number;
                    iss = same_issuer;
                    raw = refl;
                  })

  -- An accepted token is authentic: it has three parts joined by dots; its header names HS256; its
  -- last part is the base64url of the HMAC of the first two under the service's secret; its payload
  -- names the service's issuer, has not expired and was not issued in the future, up to the clock
  -- skew; and its claims are those of the payload: the times of expiry and issue, the device and the
  -- issuer as they stand, and as the user id the number that the text of the subject denotes to
  -- ParseUInt64, which is not 0.
  pub verify-IsAuthentic :
      (token : String) (claims : JwtClaims V)
      → verify E token ≡ returned claims
      → IsAuthentic token claims
  unfolding verify join
  verify-IsAuthentic token claims h = bind_inv (parts_of E token) _ h λ (a, b, c) e₁ h₁.
      bind_inv (read_object E a "token header invalid") _ h₁ λ header e₂ h₂.
        bind_inv (read_object E b "token payload invalid") _ h₂ λ payload e₃ h₃.
          bind_inv (check_alg E header) _ h₃ λ u e₄ h₄.
            bind_inv (check_signature E a b c) _ h₄ λ v e₅ h₅.
              let (digest, signed, signature) = check_signature-returned a b c v e₅ in
              record {
                a = a;
                b = b;
                c = c;
                header = header;
                payload = payload;
                digest = digest;
                parts = three_parts a b c (parts_of-returned token a b c e₁);
                header_read = read_object-returned a "token header invalid" header e₂;
                payload_read = read_object-returned b "token payload invalid" payload e₃;
                algorithm = check_alg-returned header u e₄;
                signed = signed;
                signature = signature;
                current = read_claims-current payload claims h₅;
              }
    where
      three_parts :
          (a b c : String)
          → split token b'.' ≡ a ∷ b ∷ c ∷ []
          → token ≡ a ++ ("." ++ (b ++ ("." ++ c)))
      three_parts a b c e = sym (join-split "." token) ∙ ap (join ".") e
