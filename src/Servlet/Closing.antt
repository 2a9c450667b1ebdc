-- ===== src/Servlet/Closing.antt =====
-- What a closed connection takes out of the table, and when its user goes offline.
use flz_chat.Common.{
  ℕ, ◌≡◌, refl, inl, inr, ◌&&◌, pos, leb, ltb, not, [], ◌∷◌, ◌++◌, length, Option, none, some,
  String, ◌==◌, nat_eq, string_eq, if◌then◌else◌, Bool-cases, arith,
}
use flz_chat.World.{World, Task, pure, continue}
use flz_chat.Session.Registry.{get, remove, is_user_online}
use flz_chat.Session.Registry.Reads.{get-remove}
use flz_chat.Mq.Publisher.{capacity, publish, publish_user_offline}
use flz_chat.Servlet.{Request, ServletEnv, identity, remove_conn, read_online, on_close}

-- The message that a user went offline.
abbrev pub offline_task : {V : Type 0} → ServletEnv V → ℕ → Task V
offline_task E uid = record {
  routing_key = "business.user.offline";
  payload = E.env.json.put E.env.json.null "userId" (E.env.json.uint64 uid);
  priority = 5;
}

module _ {V : Type 0} (E : ServletEnv V) where
  -- The state once the connection is out of the table.
  abbrev without : ℕ → String → World V → World V
  without uid did w = record w { registry = (remove uid did w.registry).0 }

  -- An answer that is not read leaves the state as it is.
  unread :
      {A : Type 0} (o : Option A) (w : World V)
      → let tail = continue o w (λ _. pure tt) in
        (continue tail.0 tail.1 (λ (_ : Unit {0}). pure {V = V} (pos 0))).1 ≡ w
  unfolding continue
  unread none w = refl
  unread (some a) w = refl

  on_close_cases :
      (r : Request) (uid : ℕ) (did : String) (w : World V)
      → identity E r ≡ some (uid, did)
      → (on_close E r w).1 ≡ (
          if is_user_online uid (remove uid did w.registry).0
          then without uid did w
          else (publish_user_offline E.env uid (without uid did w)).1)
  unfolding on_close remove_conn read_online continue
  on_close_cases r uid did w e =
      elim (Bool-cases (is_user_online uid (remove uid did w.registry).0)) [
        | inl o ↦ rw (e, on_close, o) refl
        | inr o ↦
            rw (e, on_close, o)
              (unread (publish_user_offline E.env uid (without uid did w)).0
                (publish_user_offline E.env uid (without uid did w)).1)
      ]

  publish_user_offline_effect :
      (uid : ℕ) (w : World V)
      → let w' = (publish_user_offline E.env uid w).1 in
        (w'.registry ≡ w.registry)
        × (w'.queue ≡ (
            if leb (capacity E.env) (length w.queue)
            then w.queue
            else w.queue ++ offline_task E uid ∷ []))
  unfolding publish_user_offline publish
  publish_user_offline_effect uid w = elim (Bool-cases (leb (capacity E.env) (length w.queue))) [
    | inl q ↦ rw q (refl, refl)
    | inr q ↦ rw q (refl, refl)
  ]

  on_close-registry :
      (r : Request) (uid : ℕ) (did : String) (w : World V)
      → identity E r ≡ some (uid, did)
      → (on_close E r w).1.registry ≡ (remove uid did w.registry).0
  on_close-registry r uid did w e =
      elim (Bool-cases (is_user_online uid (remove uid did w.registry).0)) [
        | inl o ↦ rw (on_close_cases r uid did w e, o) refl
        | inr o ↦
            rw (on_close_cases r uid did w e, o)
              (publish_user_offline_effect uid (without uid did w)).0
      ]

  -- When a connection that was let in is closed, the table loses the entry of its user and its device,
  -- whichever session that entry is of, and keeps every other.
  pub get-on_close :
      (r : Request) (uid u : ℕ) (did d : String) (w : World V)
      → identity E r ≡ some (uid, did)
      → get u d (on_close E r w).1.registry
        ≡ (if (uid == u) && (did == d) then none else get u d w.registry)
  get-on_close r uid u did d w e =
      rw (on_close-registry r uid did w e) (get-remove uid u did d w.registry)

  -- When a connection that was let in is closed, its user is announced to be offline exactly if no
  -- device of the user is left in the table and the queue has room, and nothing else is queued.
  on_close-queue :
      (r : Request) (uid : ℕ) (did : String) (w : World V)
      → identity E r ≡ some (uid, did)
      → let w' = (on_close E r w).1 in
        w'.queue ≡ (
          if not (is_user_online uid w'.registry) && ltb (length w.queue) (capacity E.env)
          then w.queue ++ offline_task E uid ∷ []
          else w.queue)
  on_close-queue r uid did w e =
      elim (Bool-cases (is_user_online uid (remove uid did w.registry).0)) [
        | inl o ↦ rw (on_close-registry r uid did w e, on_close_cases r uid did w e, o) refl
        | inr o ↦
            let (same, queue) = publish_user_offline_effect uid (without uid did w) in
            rw (on_close-registry r uid did w e, on_close_cases r uid did w e, o, queue)
              (ground arith)
      ]
