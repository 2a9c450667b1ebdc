-- ===== src/Session/Conn.antt =====
-- chat/session/online_conn.h: one connection of a device, with its rate limit.
use flz_chat.Common.{ℕ, Bool, true, false, Option, String, ℤ, pos, ◌-ℤ◌, leb_ℤ, if◌then◌else◌}

-- A session and an IOManager are named by numbers; `none` is the null pointer.
pub record OnlineConn : Type 0 where
  pub user_id : ℕ
  pub device_id : String
  pub session : Option ℕ
  pub io_manager : Option ℕ
  pub login_at : ℤ
  pub last_active_ts : ℤ
  pub bucket_refill_ts : ℤ
  pub bucket_tokens : ℤ

unfoldable pub new : ℕ → String → Option ℕ → Option ℕ → ℤ → ℤ → OnlineConn
new uid did s iom now_ms rate_limit = record {
  user_id = uid;
  device_id = did;
  session = s;
  io_manager = iom;
  login_at = now_ms;
  last_active_ts = now_ms;
  bucket_refill_ts = now_ms;
  bucket_tokens = rate_limit;
}

-- The refill of a bucket that is a second old.
pub refill : OnlineConn → ℤ → ℤ → OnlineConn
refill c now_ms rate_limit =
    if leb_ℤ (pos 1000) (now_ms -ℤ c.bucket_refill_ts)
    then record c { bucket_refill_ts = now_ms; bucket_tokens = rate_limit }
    else c

unfoldable pub consume_token : OnlineConn → ℤ → ℤ → OnlineConn × Bool
unfolding refill
consume_token c now_ms rate_limit =
    let r = refill c now_ms rate_limit in
    if leb_ℤ r.bucket_tokens (pos 0)
    then (r, false)
    else (record r { bucket_tokens = r.bucket_tokens -ℤ pos 1 }, true)
