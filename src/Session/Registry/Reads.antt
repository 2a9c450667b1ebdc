-- ===== src/Session/Registry/Reads.antt =====
-- What can be read from the table after a call.
use mathlib.Core.Option
use flz_chat.Common.{
  ℕ, ◌≤◌, ◌≡◌, refl, ◌↔◌, inl, inr, true, ◌&&◌, [], ◌∷◌, none, some, String, ℤ, lookup, insert,
  erase, nat_eq, string_eq, if◌then◌else◌, ◌==◌, lookup-All, lookup-erase, lookup-insert,
  Option-cases, arith,
}
use flz_chat.Session.Conn.{OnlineConn}
use flz_chat.Session.Registry.{
  Devices, SessionRegistry, put_back, remove, get, is_user_online, user_connection_count, update,
  touch,
}
use flz_chat.Session.Registry.Invariant.{IsValid, IsBucket}

get-put_back :
    (uid u : ℕ) (d : String) (ds : Devices) (r : SessionRegistry)
    → get u d (put_back uid ds r) ≡ (if uid == u then lookup d ds else get u d r)
unfolding get put_back lookup
get-put_back uid u d [] r = ground (arith, lookup-erase uid u r.conns)
get-put_back uid u d (x ∷ ds) r = ground (arith, lookup-insert uid u (x ∷ ds) r.conns)

-- After `Remove` the device is gone, and every other device is as it was.
pub get-remove :
    (uid u : ℕ) (did d : String) (r : SessionRegistry)
    → get u d (remove uid did r).0 ≡ (if (uid == u) && (did == d) then none else get u d r)
unfolding remove get
get-remove uid u did d r = elim (Option-cases (lookup uid r.conns)) [
  | inl e ↦ ground (arith, nat_eq.beq_iff uid u, missing e)
  | inr (ds, e) ↦ ground (
    arith,
    nat_eq.beq_iff uid u,
    get-put_back uid u d (erase did ds) r,
    lookup-erase did d ds,
    present ds e,
  )
]
  where
    missing : lookup uid r.conns ≡ none → get uid d r ≡ none
    missing e = rw (get, e)

    present : (ds : Devices) → lookup uid r.conns ≡ some ds → get uid d r ≡ lookup d ds
    present ds e = rw (get, e)

-- A user is online exactly when a device is connected.
pub is_user_online_iff :
    (uid : ℕ) (r : SessionRegistry)
    → IsValid r
    → (is_user_online uid r ≡ true) ↔ (1 ≤ user_connection_count uid r)
unfolding is_user_online user_connection_count
is_user_online_iff uid r v = elim (Option-cases (lookup uid r.conns)) [
  | inl e ↦ rw (e, is_user_online, user_connection_count) (ground arith)
  | inr (ds, e) ↦
      let b = lookup-All IsBucket uid ds r.conns e v.buckets in
      rw (e, is_user_online, user_connection_count) ((λ _. b.filled), (λ _. refl))
]

get-update :
    (uid u : ℕ) (did d : String) (c old : OnlineConn) (r : SessionRegistry)
    → get uid did r ≡ some old
    → get u d (update uid did c r) ≡ (if (uid == u) && (did == d) then some c else get u d r)
unfolding get update
get-update uid u did d c old r h = elim (Option-cases (lookup uid r.conns)) [
  | inl e ↦ absurd (ground arith)
  | inr (ds, e) ↦ ground (
    arith,
    nat_eq.beq_iff uid u,
    lookup-insert uid u (insert did c ds) r.conns,
    lookup-insert did d c ds,
  )
]

-- `Touch` sets the time of one connection, if it is in the table, and changes nothing else.
pub get-touch :
    (uid u : ℕ) (did d : String) (now : ℤ) (r : SessionRegistry)
    → get u d (touch uid did now r) ≡ (
        if (uid == u) && (did == d)
        then Option.map (λ (c : OnlineConn). record c { last_active_ts = now }) (get u d r)
        else get u d r)
unfolding touch
get-touch uid u did d now r = elim (Option-cases (get uid did r)) [
  | inl e ↦ ground (arith, nat_eq.beq_iff uid u, string_eq.beq_iff did d)
  | inr (c, e) ↦ ground (
    arith,
    nat_eq.beq_iff uid u,
    string_eq.beq_iff did d,
    get-update uid u did d (record c { last_active_ts = now }) c r e,
  )
]
