-- ===== src/Servlet/Access.antt =====
-- What a client can do without a valid token, and in whose name with one.
use flz_chat.Common.{
  ℕ, ℤ, to_decimal, subst, arith, ◌≡◌, refl, ◌≢◌, ◌⊎◌, inl, inr, pos, negsuc, Bool, true, false,
  none, some, String, Outcome, returned, failed, thrown,
}
use flz_chat.World.{World, continue}
use flz_chat.World.Keeps.{Every, Every-continue}
use flz_chat.Auth.Jwt.Verify.{JwtClaims}
use flz_chat.Protocol.Send.{send_frame, send_error}
use flz_chat.Servlet.Jobs.{note}
use flz_chat.Servlet.{
  Request, ServletEnv, authenticate, set_header, accept, refuse, on_connect, identity,
}
use flz_chat.Servlet.Messages.{handle}

-- Only the trace, the jobs and the metrics may differ.
pub record IsUntouched {V : Type 0} (w w' : World V) : Type 0 where
  pub registry : w'.registry ≡ w.registry
  pub queue : w'.queue ≡ w.queue
  pub pending : w'.pending ≡ w.pending

module _ {V : Type 0} (E : ServletEnv V) where
  -- A connection without a valid token is refused, or its handler throws; it is not entered in the
  -- table of connections, and nothing is queued for the business service.
  pub on_connect-refused :
      (r : Request) (session : ℕ) (w : World V)
      → ((claims : JwtClaims V) → authenticate E r ≢ returned claims)
      → let (result, w') = on_connect E r session w in
        ((result ≡ none) ⊎ (result ≡ some (negsuc 0, r))) × IsUntouched w w'
  unfolding on_connect refuse send_frame note continue
  on_connect-refused r session w h = go (authenticate E r) refl
    where
      go :
          (o : Outcome (JwtClaims V))
          → authenticate E r ≡ o
          → let (result, w') = on_connect E r session w in
            ((result ≡ none) ⊎ (result ≡ some (negsuc 0, r))) × IsUntouched w w'
      go (returned claims) e = absurd (h claims e)
      go (failed err) e =
          rw (e, on_connect) (inr refl, record { registry = refl; queue = refl; pending = refl })
      go thrown e =
          rw (e, on_connect) (inl refl, record { registry = refl; queue = refl; pending = refl })

  -- A message on a connection that was not let in is answered by an error and the result 1; it
  -- changes neither the table of connections nor the queue nor the pending sends.
  handle-unidentified :
      (r : Request) (message : Bool × String) (session : ℕ) (w : World V)
      → identity E r ≡ none
      → let (result, w') = handle E r message session w in
        (result ≡ some (pos 1)) × IsUntouched w w'
  unfolding handle send_error continue
  handle-unidentified r (false, text) session w e =
      (refl, record { registry = refl; queue = refl; pending = refl })
  handle-unidentified r (true, text) session w e =
      rw (e, handle) (refl, record { registry = refl; queue = refl; pending = refl })

  -- What `onConnect` answers: a failure, or the request in the name of the token's user.
  pub record IsIdentified (r : Request) (answer : ℤ × Request) : Type 0 where
    pub claims : JwtClaims V
    pub authentic : authenticate E r ≡ returned claims
    pub named : answer.1.get_header "$uid" ≡ to_decimal claims.user_id

  accept-IsIdentified :
      (r : Request) (session : ℕ) (claims : JwtClaims V) (w : World V)
      → authenticate E r ≡ returned claims
      → Every (IsIdentified r) (accept E r session claims w).0
  unfolding accept set_header
  accept-IsIdentified r session claims w e = Every-continue (IsIdentified r) _ _ _ λ device_id w.
      Every-continue (IsIdentified r) _ _ _ λ online w. Every-continue (IsIdentified r) _ _ _ λ _ w.
        Every-continue (IsIdentified r) _ _ _ λ _ w. Every-continue (IsIdentified r) _ _ _ λ _ w.
          Every-continue (IsIdentified r) _ _ _
            λ _ w. record { claims = claims; authentic = e; named = refl }

  -- A connection that is let in has a valid token, and its request names the user of that token.
  pub on_connect-IsIdentified :
      (r : Request) (session : ℕ) (w : World V) (r' : Request)
      → (on_connect E r session w).0 ≡ some (pos 0, r')
      → IsIdentified r (pos 0, r')
  unfolding on_connect refuse continue
  on_connect-IsIdentified r session w r' h = go (authenticate E r) refl
    where
      go : (o : Outcome (JwtClaims V)) → authenticate E r ≡ o → IsIdentified r (pos 0, r')
      go (returned claims) e =
          subst (Every (IsIdentified r)) (rw (e, on_connect) at h)
            (accept-IsIdentified r session claims w e)
      go (failed err) e = absurd (ground (arith, rw (e, on_connect) at h))
      go thrown e = absurd (ground (arith, rw (e, on_connect) at h))
