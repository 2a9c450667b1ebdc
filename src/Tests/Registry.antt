-- ===== src/Tests/Registry.antt =====
-- A registry (chat/session/session_registry) of a user with two devices and one with a device.
use flz_chat.Common.{
  ℕ, ◌≡◌, refl, ◌≤◌, ◌↔◌, [], ◌∷◌, none, some, String, ℤ, pos, ◌≤ℤ◌, lookup, nat_eq, string_eq,
  Among, Distinct, insert, erase, length, ltb, false, arith,
}
use flz_chat.Session.Conn.{OnlineConn}
use flz_chat.Session.Registry.{SessionRegistry, evict, add, get, collect_timeouted}
use flz_chat.Session.Registry.Invariant.{IsValid, add-IsValid}
use flz_chat.Session.Registry.Ends.{evict-ends}
use flz_chat.Session.Registry.Limits.{candidates}
use flz_chat.Session.Registry.Timeouts.{collect_timeouted_iff}

abbrev conn_of : ℕ → String → ℕ → ℤ → OnlineConn
conn_of uid did s now_ms = record {
  user_id = uid;
  device_id = did;
  session = some s;
  io_manager = none;
  login_at = now_ms;
  last_active_ts = now_ms;
  bucket_refill_ts = now_ms;
  bucket_tokens = pos 20;
}

abbrev phone : OnlineConn
phone = conn_of 7 "phone" 1 (pos 100)

abbrev laptop : OnlineConn
laptop = conn_of 7 "laptop" 2 (pos 200)

abbrev tablet : OnlineConn
tablet = conn_of 7 "tablet" 3 (pos 300)

abbrev other : OnlineConn
other = conn_of 8 "phone" 4 (pos 150)

abbrev registry : SessionRegistry
registry = record {
  conns = (7, ("phone", phone) ∷ ("laptop", laptop) ∷ []) ∷ (8, ("phone", other) ∷ []) ∷ [];
}

registry-IsValid : IsValid registry
unfolding lookup
registry-IsValid = record {
  users = (refl, (refl, tt));
  buckets = (
    record {
      filled = omega arith;
      devices = (refl, (refl, tt));
      keyed = ((refl, refl), ((refl, refl), tt));
    },
    (record { filled = omega arith; devices = (refl, tt); keyed = ((refl, refl), tt) }, tt),
  );
}

add-IsValid_example : IsValid (add (some tablet) 2 registry).registry
add-IsValid_example = add-IsValid (some tablet) 2 registry (omega arith) registry-IsValid

three_devices : Distinct (candidates tablet registry)
unfolding candidates lookup insert erase
three_devices = (refl, (refl, (refl, tt)))

three : length (candidates tablet registry) ≤ 5
unfolding candidates lookup insert erase
three = omega arith

evict-ends_example :
    let ds = candidates tablet registry in
    let kept = evict (length ds) 2 ds [] in
    (evict 5 2 ds [] ≡ kept) × (ltb 2 (length kept.0) ≡ false)
evict-ends_example = evict-ends 5 2 (candidates tablet registry) [] three_devices three

collect_timeouted_iff_example :
    Among other (collect_timeouted (pos 160) registry)
    ↔ ((get 8 "phone" registry ≡ some other) × (pos 150 ≤ℤ pos 160))
collect_timeouted_iff_example = collect_timeouted_iff (pos 160) other registry registry-IsValid
