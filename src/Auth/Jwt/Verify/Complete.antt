-- ===== src/Auth/Jwt/Verify/Complete.antt =====
-- Which tokens are accepted.
use Prim.Native.Char.{code}
use Prim.Native.String.{◌++◌}
use text.Mathlib.TextLemmas.{cons-append, nil-append, append-nil}
use flz_chat.Common.{
  ℕ, ◌≡◌, ◌≢◌, refl, sym, ap, inl, inr, ◌∙◌, true, false, String, some, [], ◌∷◌, is_blank, ◌==◌,
  nat_eq, string_eq, beq_refl, returned, arith,
}
use flz_chat.Json.Read.{get_string}
use flz_chat.Util.Base64Url.{decode}
use flz_chat.Auth.Jwt.Split.{one_char, split_from, split, append_char}
use flz_chat.Auth.Jwt.Numbers.{parse_uint64}
use flz_chat.Auth.Jwt.Verify.{
  JwtClaims, TokenEnv, parts_of, read_object, check_alg, check_signature, check_issuer, check_times,
  read_sub, read_user_id, read_claims, verify,
}
use flz_chat.Auth.Jwt.Verify.Sound.{IsSubject, AreCurrent, IsAuthentic}

-- A text without a dot.
abbrev pub HasNoDot : String → Type 0
HasNoDot String.[] = Unit
HasNoDot (String.◌∷◌ c s) = (code c ≢ b'.') × HasNoDot s

split_from-append :
    (current s t : String)
    → HasNoDot s
    → split_from b'.' current (s ++ t) ≡ split_from b'.' (current ++ s) t
unfolding split_from
split_from-append current String.[] t h = rw (nil-append t, append-nil current) refl
split_from-append current (String.◌∷◌ c s) t h =
    let other : (code c == b'.') ≡ false = ground (arith, h.0) in
    rw (cons-append c s t, split_from, other)
      (split_from-append (current ++ one_char c) s t h.1
        ∙ ap (λ r. split_from b'.' r t) (append_char current s c))

split_from-dot :
    (current t : String) → split_from b'.' current ("." ++ t) ≡ current ∷ split_from b'.' "" t
unfolding split_from
split_from-dot current t = rw (cons-append "." "" t, nil-append t) refl

split_three :
    (a b c : String)
    → HasNoDot a
    → HasNoDot b
    → HasNoDot c
    → split (a ++ ("." ++ (b ++ ("." ++ c)))) b'.' ≡ a ∷ b ∷ c ∷ []
unfolding split
split_three a b c p q r =
    let last : split_from b'.' "" c ≡ c ∷ [] =
      ap (split_from b'.' "") (sym (append-nil c))
      ∙ (split_from-append "" c "" r ∙ (unfold split_from in ap (λ s. s ∷ []) (nil-append c))) in
    let middle : split_from b'.' "" (b ++ ("." ++ c)) ≡ b ∷ c ∷ [] =
      split_from-append "" b ("." ++ c) q
      ∙ (ap (λ s. split_from b'.' s ("." ++ c)) (nil-append b)
          ∙ (split_from-dot b c ∙ ap (λ l. b ∷ l) last)) in
    split_from-append "" a ("." ++ (b ++ ("." ++ c))) p
    ∙ (ap (λ s. split_from b'.' s ("." ++ (b ++ ("." ++ c)))) (nil-append a)
        ∙ (split_from-dot a (b ++ ("." ++ c)) ∙ ap (λ l. a ∷ l) middle))

module _ {V : Type 0} (E : TokenEnv V) where
  -- What is checked of the form of a token: its parts are not empty and have no dot, and its header and
  -- payload are objects.
  pub record IsWellFormed (token : String) (claims : JwtClaims V) (x : IsAuthentic E token claims)
      : Type 0 where
    pub a_part : HasNoDot x.a × (is_blank x.a ≡ false)
    pub b_part : HasNoDot x.b × (is_blank x.b ≡ false)
    pub c_part : HasNoDot x.c × (is_blank x.c ≡ false)
    pub header_object : E.json.is_object x.header ≡ true
    pub payload_object : E.json.is_object x.payload ≡ true

  parts_of-three :
      (token : String) (claims : JwtClaims V) (x : IsAuthentic E token claims)
      → IsWellFormed token claims x
      → parts_of E token ≡ returned (x.a, x.b, x.c)
  unfolding parts_of
  parts_of-three token claims x f =
      let three : split token b'.' ≡ x.a ∷ x.b ∷ x.c ∷ [] =
        ap (λ t. split t b'.') x.parts ∙ split_three x.a x.b x.c f.a_part.0 f.b_part.0 f.c_part.0 in
      rw (parts_of, three, f.a_part.1, f.b_part.1, f.c_part.1) refl

  check_times-passed :
      (payload : V) (claims : JwtClaims V)
      → AreCurrent E payload claims
      → check_times E claims.exp claims.iat ≡ returned tt
  unfolding check_times
  check_times-passed payload claims x = ground (arith, x.expires, x.unexpired, x.begun)

  check_signature-passed :
      (token : String) (claims : JwtClaims V) (x : IsAuthentic E token claims)
      → check_signature E x.a x.b x.c ≡ returned tt
  unfolding check_signature
  check_signature-passed token claims x =
      rw (check_signature, x.signed, x.signature, beq_refl x.c) refl

  read_object-passed :
      (part err : String) (v : V)
      → E.json.from_string (decode E.base64 part) ≡ some v
      → E.json.is_object v ≡ true
      → read_object E part err ≡ returned v
  unfolding read_object
  read_object-passed part err v e o = rw (read_object, e, o) refl

  check_alg-passed :
      (header : V)
      → get_string E.json header "alg" ≡ some "HS256"
      → check_alg E header ≡ returned tt
  unfolding check_alg
  check_alg-passed header e = rw (check_alg, e) refl

  read_sub-passed :
      (payload : V) (sub : String) → IsSubject E payload sub → read_sub E payload ≡ returned sub
  unfolding read_sub
  read_sub-passed payload sub (inl (e, f)) = rw (e, read_sub, f) refl
  read_sub-passed payload sub (inr (v, e, a, i, t)) = rw (e, read_sub, a, i, t) refl

  read_user_id-passed :
      (sub : String) (uid : ℕ)
      → parse_uint64 sub ≡ some uid
      → uid ≢ 0
      → read_user_id E sub ≡ returned uid
  unfolding read_user_id
  read_user_id-passed sub uid e n =
      let positive : (uid == 0) ≡ false = ground (arith, n) in rw (read_user_id, e, positive) refl

  read_claims-passed :
      (token : String) (claims : JwtClaims V) (x : IsAuthentic E token claims)
      → read_claims E x.payload ≡ returned claims
  unfolding read_claims check_issuer
  read_claims-passed token claims x =
      let current = x.current in
      rw
        (
          current.issuer,
          beq_refl E.config.issuer,
          current.expiry,
          current.issued,
          check_times-passed x.payload claims current,
          read_sub-passed x.payload current.sub current.subject,
          read_user_id-passed current.sub claims.user_id current.number current.user,
          current.device,
        )
        (λ i. returned (record claims { iss = sym current.iss i; raw_payload = sym current.raw i }))

  -- An authentic token is accepted with its claims, if it is well-formed: its parts are not empty and
  -- have no dot, and its header and payload are objects.
  pub verify-accepts :
      (token : String) (claims : JwtClaims V) (x : IsAuthentic E token claims)
      → IsWellFormed token claims x
      → verify E token ≡ returned claims
  unfolding verify
  verify-accepts token claims x f =
      rw
        (
          parts_of-three token claims x f,
          read_object-passed x.a "token header invalid" x.header x.header_read f.header_object,
          read_object-passed x.b "token payload invalid" x.payload x.payload_read f.payload_object,
          check_alg-passed x.header x.algorithm,
          check_signature-passed token claims x,
        )
        (read_claims-passed token claims x)
