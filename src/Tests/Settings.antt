-- ===== src/Tests/Settings.antt =====
-- Settings (chat/config), the table of pending sends (chat/dispatch) and the rate limit
-- (chat/session/online_conn.h) at concrete inputs.
use flz_chat.Common.{
  ◌≡◌, refl, ◌≤◌, ◌*◌, ◌↔◌, true, [], ◌∷◌, none, some, String, pos, ◌+ℤ◌, ◌<ℤ◌, lookup, Distinct,
  ◌==◌, nat_eq, string_eq, if◌then◌else◌, arith,
}
use flz_chat.Config.{ConfigSource, load}
use flz_chat.Config.Load.{IsSound, load-none_iff}
use flz_chat.Session.Conn.{OnlineConn}
use flz_chat.Session.RateLimit.{accepted, accepted-le-twice_rate}
use flz_chat.Dispatch.Pending.{PendingSend, PendingMap}

-- Nothing is set but the secret, in the environment.
abbrev defaults : ConfigSource
defaults = record {
  string = λ name default. if name == "jwt.secret" then "${ENV:SECRET}" else default;
  int = λ name default. default;
  bool = λ name default. default;
  getenv = λ key. if key == "SECRET" then some "hush" else none;
}

load-none_iff_example : ((load defaults).1 ≡ none) ↔ IsSound (load defaults).0
load-none_iff_example = load-none_iff defaults

abbrev waiting : PendingSend
waiting = record {
  sender_user_id = 7;
  sender_device_id = "phone";
  created_ms = pos 1000;
  has_seq = true;
  seq = pos 3;
}

abbrev first : String
first = "m1"

abbrev second : String
second = "m2"

abbrev table : PendingMap
table = ("m1", waiting) ∷ ("m2", record waiting { created_ms = pos 90000 }) ∷ []

table-Distinct : Distinct table
unfolding lookup
table-Distinct = (refl, (refl, tt))

abbrev phone : OnlineConn
phone = record {
  user_id = 7;
  device_id = "phone";
  session = some 1;
  io_manager = none;
  login_at = pos 5000;
  last_active_ts = pos 5000;
  bucket_refill_ts = pos 5000;
  bucket_tokens = pos 2;
}

within_a_second : pos 5900 <ℤ pos 5000 +ℤ pos 1000
unfolding ◌+ℤ◌
within_a_second = omega arith

accepted-le-twice_rate_example :
    accepted phone (pos 2) (pos 5100 ∷ pos 5200 ∷ pos 5300 ∷ []) ≤ 2 * 2
accepted-le-twice_rate_example =
    accepted-le-twice_rate phone 2 (pos 5000) (pos 5900) (pos 5100 ∷ pos 5200 ∷ pos 5300 ∷ [])
      (omega arith) (omega arith, (omega arith, (omega arith, omega arith))) within_a_second
