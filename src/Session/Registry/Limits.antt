-- ===== src/Session/Registry/Limits.antt =====
-- The limit on the devices of a user, and the account that `Add` gives of every connection.
use flz_chat.Common.{
  ℕ, ◌≤◌, ◌≡◌, refl, ◌∙◌, ◌≢◌, inl, [], some, String, length, lookup, nat_eq, string_eq,
  if◌then◌else◌, ◌==◌, beq_refl, All, insert-All, erase-All, lookup-insert, arith,
}
use flz_chat.Session.Conn.{OnlineConn}
use flz_chat.Session.Registry.{
  Devices, SessionRegistry, evict, devices_of, place, add, get, user_connection_count,
}
use flz_chat.Session.Registry.Evict.{evict-length}
use flz_chat.Session.Registry.Newest.{Before, evict_newest}
use flz_chat.Session.Registry.Invariant.{
  IsValid, AreDevices, devices_of-AreDevices, place-AreDevices,
}

-- The devices that `Add` finds over the limit or not: those of the user, with the new connection in.
unfoldable pub candidates : OnlineConn → SessionRegistry → Devices
unfolding place devices_of
candidates conn r = place conn (devices_of conn.user_id r)

candidates-AreDevices :
    (conn : OnlineConn) (r : SessionRegistry)
    → IsValid r
    → AreDevices conn.user_id (candidates conn r)
unfolding candidates
candidates-AreDevices conn r v = place-AreDevices conn _ (devices_of-AreDevices conn.user_id r v)

added :
    (conn : OnlineConn) (max_devices u : ℕ) (r : SessionRegistry)
    → let ds = candidates conn r in
      lookup u (add (some conn) max_devices r).registry.conns ≡ (
        if conn.user_id == u
        then some (evict (length ds) max_devices ds []).0
        else lookup u r.conns)
unfolding add candidates
added conn max_devices u r = lookup-insert conn.user_id u _ r.conns

-- After `Add` the user has no more connections than the limit.
add-limit :
    (conn : OnlineConn) (max_devices : ℕ) (r : SessionRegistry)
    → IsValid r
    → user_connection_count conn.user_id (add (some conn) max_devices r).registry ≤ max_devices
unfolding user_connection_count
add-limit conn max_devices r v =
    let ds = candidates conn r in
    let a = candidates-AreDevices conn r v in
    ground (
      arith,
      added conn max_devices conn.user_id r,
      evict-length (length ds) max_devices ds [] a.devices (omega arith),
    )

-- `Add` leaves the devices of every other user as they were.
get-add_other :
    (conn : OnlineConn) (max_devices u : ℕ) (d : String) (r : SessionRegistry)
    → u ≢ conn.user_id
    → get u d (add (some conn) max_devices r).registry ≡ get u d r
unfolding get
get-add_other conn max_devices u d r ne = ground (arith, added conn max_devices u r)

-- A connection that logged in after all other devices of its user is in the table after `Add`.
get-add :
    (conn : OnlineConn) (max_devices : ℕ) (r : SessionRegistry)
    → 1 ≤ max_devices
    → IsValid r
    → All (Before conn conn.device_id) (devices_of conn.user_id r)
    → get conn.user_id conn.device_id (add (some conn) max_devices r).registry ≡ some conn
unfolding get candidates
get-add conn max_devices r p v a =
    let ds = candidates conn r in
    let d = candidates-AreDevices conn r v in
    ground (
      arith,
      added conn max_devices conn.user_id r,
      evict_newest (length ds) max_devices ds [] conn.device_id conn p d.devices placed newest,
    )
  where
    placed : lookup conn.device_id (candidates conn r) ≡ some conn
    placed = lookup-insert conn.device_id conn.device_id conn _ ∙ rw (beq_refl conn.device_id) refl

    newest : All (Before conn conn.device_id) (candidates conn r)
    newest =
        insert-All (Before conn conn.device_id) conn.device_id conn _
          (inl (beq_refl conn.device_id))
          (erase-All (Before conn conn.device_id) conn.device_id _ a)
