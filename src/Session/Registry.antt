-- ===== src/Session/Registry.antt =====
-- chat/session/session_registry: the table userId -> deviceId -> connection.
pub mod Admission
pub mod Evict
pub mod Ends
pub mod Newest
pub mod Invariant
pub mod Limits
pub mod Reads
pub mod Timeouts
pub mod Updates
use mathlib.Core.Option
use flz_chat.Common.{
  ℕ, zero, suc, ◌+◌, Bool, true, false, List, [], ◌∷◌, ◌++◌, map, Option, none, some, String, ℤ,
  ltb_ℤ, leb_ℤ, ltb, length, lookup, insert, erase, nat_eq, string_eq, if◌then◌else◌,
}
use flz_chat.Session.Conn.{OnlineConn}

-- The connections of one user, by device.
abbrev pub Devices : Type 0
Devices = List (String × OnlineConn)

pub record SessionRegistry : Type 0 where
  pub conns : List (ℕ × Devices)

abbrev pub empty : SessionRegistry
empty = record { conns = [] }

-- The inner loop of `Add`: the first of the entries with the least login time.
pub earlier : String × OnlineConn → String × OnlineConn → String × OnlineConn
earlier oldest it = if ltb_ℤ (it.1).login_at (oldest.1).login_at then it else oldest

unfoldable pub oldest_from : String × OnlineConn → Devices → String × OnlineConn
unfolding earlier
oldest_from oldest [] = oldest
oldest_from oldest (it ∷ rest) = oldest_from (earlier oldest it) rest

-- The outer loop of `Add`, on fuel: the devices that stay and the connections that are evicted. Each
-- round erases a device, so as many rounds as there are devices are enough.
unfoldable pub evict : ℕ → ℕ → Devices → List OnlineConn → Devices × List OnlineConn
unfolding oldest_from
evict zero max_devices by_device evicted = (by_device, evicted)
evict (suc f) max_devices [] evicted = ([], evicted)
evict (suc f) max_devices (begin ∷ rest) evicted =
    let oldest = oldest_from begin (begin ∷ rest) in
    let next = evict f max_devices (erase oldest.0 (begin ∷ rest)) (evicted ++ oldest.1 ∷ []) in
    if ltb max_devices (length (begin ∷ rest)) then next else (begin ∷ rest, evicted)

-- `m_conns[user_id]`, which starts empty.
unfoldable pub devices_of : ℕ → SessionRegistry → Devices
devices_of uid r = Option.get_or (lookup uid r.conns) []

-- The devices once the new connection has taken the place of an old one.
pub place : OnlineConn → Devices → Devices
place conn by_device = insert conn.device_id conn (erase conn.device_id by_device)

pub record Added : Type 0 where
  pub registry : SessionRegistry
  pub replaced : Option OnlineConn
  pub evicted : List OnlineConn

unfoldable pub add : Option OnlineConn → ℕ → SessionRegistry → Added
unfolding devices_of place evict
add none max_devices r = record { registry = r; replaced = none; evicted = [] }
add (some conn) max_devices r =
    let by_device = devices_of conn.user_id r in
    let placed = place conn by_device in
    let (kept, evicted) = evict (length placed) max_devices placed [] in
    record {
      registry = record { conns = insert conn.user_id kept r.conns };
      replaced = lookup conn.device_id by_device;
      evicted = evicted;
    }

-- What `Remove` stores back: the user goes with the last device.
pub put_back : ℕ → Devices → SessionRegistry → SessionRegistry
put_back uid [] r = record { conns = erase uid r.conns }
put_back uid (d ∷ ds) r = record { conns = insert uid (d ∷ ds) r.conns }

unfoldable pub remove : ℕ → String → SessionRegistry → SessionRegistry × Bool
unfolding put_back
remove uid did r = elim (lookup uid r.conns) [
  | none ↦ (r, false)
  | some by_device ↦ (put_back uid (erase did by_device) r, true)
]

unfoldable pub get : ℕ → String → SessionRegistry → Option OnlineConn
get uid did r = elim (lookup uid r.conns) [ none ↦ none | some by_device ↦ lookup did by_device ]

abbrev pub values : Devices → List OnlineConn
values = map (λ d. d.1)

unfoldable pub get_by_user : ℕ → SessionRegistry → List OnlineConn
get_by_user uid r = elim (lookup uid r.conns) [ none ↦ [] | some by_device ↦ values by_device ]

unfoldable pub is_user_online : ℕ → SessionRegistry → Bool
is_user_online uid r = elim (lookup uid r.conns) [ none ↦ false | some _ ↦ true ]

unfoldable pub user_connection_count : ℕ → SessionRegistry → ℕ
user_connection_count uid r = elim (lookup uid r.conns) [
  | none ↦ 0
  | some by_device ↦ length by_device
]

-- A write through the shared pointer that the registry holds for a device: `Touch` and
-- `ConsumeToken` change a connection where it stands.
unfoldable pub update : ℕ → String → OnlineConn → SessionRegistry → SessionRegistry
update uid did conn r = elim (lookup uid r.conns) [
  | none ↦ r
  | some by_device ↦ record { conns = insert uid (insert did conn by_device) r.conns }
]

unfoldable pub touch : ℕ → String → ℤ → SessionRegistry → SessionRegistry
unfolding get update
touch uid did now_ms r = elim (get uid did r) [
  | none ↦ r
  | some conn ↦ update uid did (record conn { last_active_ts = now_ms }) r
]

pub collect_devices : ℤ → Devices → List OnlineConn → List OnlineConn
collect_devices deadline_ms [] out = out
collect_devices deadline_ms ((did, conn) ∷ ds) out =
    collect_devices deadline_ms ds
      (if leb_ℤ conn.last_active_ts deadline_ms then out ++ conn ∷ [] else out)

pub collect_users : ℤ → List (ℕ × Devices) → List OnlineConn → List OnlineConn
unfolding collect_devices
collect_users deadline_ms [] out = out
collect_users deadline_ms ((uid, ds) ∷ us) out =
    collect_users deadline_ms us (collect_devices deadline_ms ds out)

unfoldable pub collect_timeouted : ℤ → SessionRegistry → List OnlineConn
unfolding collect_users
collect_timeouted deadline_ms r = collect_users deadline_ms r.conns []

unfoldable pub online_users : SessionRegistry → ℕ
online_users r = length r.conns

pub count_from : List (ℕ × Devices) → ℕ → ℕ
count_from [] total = total
count_from ((uid, ds) ∷ us) total = count_from us (total + length ds)

unfoldable pub online_connections : SessionRegistry → ℕ
unfolding count_from
online_connections r = count_from r.conns 0
