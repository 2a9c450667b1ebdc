-- ===== src/System/LetIn.antt =====
-- Who was let in by a token: the connections and the sessions, by the openings so far.
use flz_chat.Common.{
  ℕ, zero, suc, ℤ, pos, negsuc, ◌≡◌, refl, to_decimal, Option, none, some, List, ◌∷◌, All, All-mono,
  Among, inl, inr, returned,
}
use flz_chat.Auth.Jwt.Verify.{JwtClaims}
use flz_chat.Servlet.{Request, ServletEnv, authenticate}
use flz_chat.Servlet.Access.{IsIdentified}
use flz_chat.System.{Opening, served, at}

module _ {V : Type 0} (E : ServletEnv V) where
  -- A connection with the session was opened by a token that was valid then, of the user.
  pub record IsLetIn (openings : List Opening) (uid : ℕ) (session : Option ℕ) : Type 0 where
    pub opening : Opening
    pub happened : Among opening openings
    pub claims : JwtClaims V
    pub authentic : authenticate (at E opening.moment) opening.request ≡ returned claims
    pub user : claims.user_id ≡ uid
    pub same : session ≡ some opening.session

  -- A session that flz serves: its request names the user of a token by which it was opened.
  pub record IsServed (openings : List Opening) (s : ℕ × Request) : Type 0 where
    pub uid : ℕ
    pub let_in : IsLetIn openings uid (some s.0)
    pub named : (s.1).get_header "$uid" ≡ to_decimal uid

  pub IsLetIn-mono :
      (o : Opening) (openings : List Opening) (uid : ℕ) (session : Option ℕ)
      → IsLetIn openings uid session
      → IsLetIn (o ∷ openings) uid session
  IsLetIn-mono o openings uid session i = record {
    opening = i.opening;
    happened = inr i.happened;
    claims = i.claims;
    authentic = i.authentic;
    user = i.user;
    same = i.same;
  }

  IsServed-mono :
      (o : Opening) (openings : List Opening) (s : ℕ × Request)
      → IsServed openings s
      → IsServed (o ∷ openings) s
  IsServed-mono o openings s i = record {
    uid = i.uid;
    let_in = IsLetIn-mono o openings i.uid (some s.0) i.let_in;
    named = i.named;
  }

  -- The opening itself is what lets its connection in.
  pub opened-IsLetIn :
      (o : Opening) (openings : List Opening) (claims : JwtClaims V)
      → authenticate (at E o.moment) o.request ≡ returned claims
      → IsLetIn (o ∷ openings) claims.user_id (some o.session)
  opened-IsLetIn o openings claims e = record {
    opening = o;
    happened = inl refl;
    claims = claims;
    authentic = e;
    user = refl;
    same = refl;
  }

  pub served-IsServed :
      (o : Opening) (answer : Option (ℤ × Request)) (openings : List Opening)
      (sessions : List (ℕ × Request))
      → ((r : Request)
          → answer ≡ some (pos 0, r)
          → IsIdentified (at E o.moment) o.request (pos 0, r))
      → All (IsServed openings) sessions
      → All (IsServed (o ∷ openings)) (served o.session answer sessions)
  served-IsServed o answer openings sessions h a = go answer h
    where
      kept : All (IsServed (o ∷ openings)) sessions
      kept = All-mono _ _ (IsServed-mono o openings) sessions a

      go :
          (answer : Option (ℤ × Request))
          → ((r : Request)
              → answer ≡ some (pos 0, r)
              → IsIdentified (at E o.moment) o.request (pos 0, r))
          → All (IsServed (o ∷ openings)) (served o.session answer sessions)
      go none h = kept
      go (some (pos zero, r)) h =
          let i = h r refl in
          (
            record {
              uid = i.claims.user_id;
              let_in = opened-IsLetIn o openings i.claims i.authentic;
              named = i.named;
            },
            kept,
          )
      go (some (pos (suc n), r)) h = kept
      go (some (negsuc n, r)) h = kept
