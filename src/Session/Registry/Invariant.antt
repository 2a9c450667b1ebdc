-- ===== src/Session/Registry/Invariant.antt =====
-- The shape of the table: no user without a device, no key twice, each connection under its own
-- user and device.
use flz_chat.Common.{
  ℕ, ◌≤◌, ◌≡◌, refl, inl, inr, [], ◌∷◌, Option, none, some, String, length, lookup, insert, erase,
  nat_eq, string_eq, All, Distinct, erase-Distinct, insert-Distinct, insert-All, erase-All,
  lookup-All, length-insert_pos, Option-cases, arith,
}
use flz_chat.Session.Conn.{OnlineConn}
use flz_chat.Session.Registry.{
  Devices, SessionRegistry, empty, evict, devices_of, place, add, put_back, remove,
}
use flz_chat.Session.Registry.Evict.{evict-All, evict-Distinct, evict-length}

-- A connection stands under its user and its device.
abbrev pub Keyed : ℕ → String × OnlineConn → Type 0
Keyed uid d = ((d.1).user_id ≡ uid) × ((d.1).device_id ≡ d.0)

pub record IsBucket (u : ℕ × Devices) : Type 0 where
  pub filled : 1 ≤ length u.1
  pub devices : Distinct u.1
  pub keyed : All (Keyed u.0) u.1

pub record IsValid (r : SessionRegistry) : Type 0 where
  pub users : Distinct r.conns
  pub buckets : All IsBucket r.conns

pub empty-IsValid : IsValid empty
empty-IsValid = record { users = tt; buckets = tt }

-- The devices of a user, none of them for a user that is not online.
pub record AreDevices (uid : ℕ) (ds : Devices) : Type 0 where
  pub devices : Distinct ds
  pub keyed : All (Keyed uid) ds

pub devices_of-AreDevices :
    (uid : ℕ) (r : SessionRegistry) → IsValid r → AreDevices uid (devices_of uid r)
unfolding devices_of
devices_of-AreDevices uid r v = elim (Option-cases (lookup uid r.conns)) [
  | inl e ↦ rw e (record { devices = tt; keyed = tt })
  | inr (ds, e) ↦
      let b = lookup-All IsBucket uid ds r.conns e v.buckets in
      rw e (record { devices = b.devices; keyed = b.keyed })
]

pub place-AreDevices :
    (conn : OnlineConn) (ds : Devices)
    → AreDevices conn.user_id ds
    → AreDevices conn.user_id (place conn ds)
unfolding place
place-AreDevices conn ds v = record {
  devices = insert-Distinct conn.device_id conn _ (erase-Distinct conn.device_id ds v.devices);
  keyed =
      insert-All (Keyed conn.user_id) conn.device_id conn _ (refl, refl)
        (erase-All (Keyed conn.user_id) conn.device_id ds v.keyed);
}

pub length-place : (conn : OnlineConn) (ds : Devices) → 1 ≤ length (place conn ds)
unfolding place
length-place conn ds = length-insert_pos conn.device_id conn (erase conn.device_id ds)

pub store-IsValid :
    (uid : ℕ) (ds : Devices) (r : SessionRegistry)
    → 1 ≤ length ds
    → AreDevices uid ds
    → IsValid r
    → IsValid (record { conns = insert uid ds r.conns })
store-IsValid uid ds r n d v = record {
  users = insert-Distinct uid ds r.conns v.users;
  buckets =
      insert-All IsBucket uid ds r.conns
        (record { filled = n; devices = d.devices; keyed = d.keyed }) v.buckets;
}

-- `Add` keeps the shape of the table, if a user may have a device at all.
pub add-IsValid :
    (conn : Option OnlineConn) (max_devices : ℕ) (r : SessionRegistry)
    → 1 ≤ max_devices
    → IsValid r
    → IsValid (add conn max_devices r).registry
unfolding add
add-IsValid none max_devices r h v = v
add-IsValid (some conn) max_devices r h v =
    let ds = place conn (devices_of conn.user_id r) in
    let d = place-AreDevices conn _ (devices_of-AreDevices conn.user_id r v) in
    let l = evict-length (length ds) max_devices ds [] d.devices (omega arith) in
    store-IsValid conn.user_id (evict (length ds) max_devices ds []).0 r
      (l.1 h (length-place conn _))
      (record {
        devices = evict-Distinct (length ds) max_devices ds [] d.devices;
        keyed = evict-All (Keyed conn.user_id) (length ds) max_devices ds [] d.keyed;
      })
      v

put_back-IsValid :
    (uid : ℕ) (ds : Devices) (r : SessionRegistry)
    → AreDevices uid ds
    → IsValid r
    → IsValid (put_back uid ds r)
unfolding put_back
put_back-IsValid uid [] r d v = record {
  users = erase-Distinct uid r.conns v.users;
  buckets = erase-All IsBucket uid r.conns v.buckets;
}
put_back-IsValid uid (x ∷ ds) r d v = store-IsValid uid (x ∷ ds) r (omega arith) d v

-- `Remove` keeps the shape of the table: the user goes with the last device.
pub remove-IsValid :
    (uid : ℕ) (did : String) (r : SessionRegistry) → IsValid r → IsValid (remove uid did r).0
unfolding remove
remove-IsValid uid did r v = elim (Option-cases (lookup uid r.conns)) [
  | inl e ↦ rw (e, remove) v
  | inr (ds, e) ↦
      let b = lookup-All IsBucket uid ds r.conns e v.buckets in
      rw (e, remove)
        (put_back-IsValid uid (erase did ds) r
          (record {
            devices = erase-Distinct did ds b.devices;
            keyed = erase-All (Keyed uid) did ds b.keyed;
          })
          v)
]
