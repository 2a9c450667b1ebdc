-- ===== src/Tests/System.antt =====
-- A process in which a client opens a connection with a token that is accepted.
use flz_chat.Common.{
  ◌≡◌, refl, ◌≤◌, to_u64, size, ◌+ℤ◌, lookup, insert, erase, nat_eq, string_eq, none, some, pos,
  arith, to_decimal,
}
use flz_chat.Json.Values.{Json, values}
use flz_chat.Session.Conn.{OnlineConn}
use flz_chat.Session.Conn
use flz_chat.Session.Registry.{get, add}
use flz_chat.World.{continue, for_each}
use flz_chat.Servlet.{ServletEnv, on_connect}
use flz_chat.System.{Opening, System, first_system, opened, Reach, first, next, connected}
use flz_chat.System.LetIn.{IsLetIn}
use flz_chat.System.Sound.{IsSound, system-IsSound, get-IsLetIn}
use flz_chat.Tests.Tokens as Tokens
use flz_chat.Tests.Handlers as Handlers
use flz_chat.Tests.Consumer as Consumer

abbrev service : ServletEnv Json
service = record Handlers.service {
  env = record Handlers.service.env { json = Tokens.service.json };
  hmac_sha256 = Tokens.service.hmac_sha256;
}

abbrev opening : Opening
opening = record {
  moment = record {
    now_ms = pos 100000;
    iso_now = "1970-01-01T08:01:40+08:00";
    time = pos 100;
    this_io_manager = none;
  };
  request = record { get_param = λ k. "head.body.sign"; get_header = λ k. "" };
  session = 1;
}

abbrev with_phone : System Json
with_phone = opened service opening first_system

abbrev phone : OnlineConn
phone = record {
  user_id = 7;
  device_id = "phone";
  session = some 1;
  io_manager = none;
  login_at = pos 100000;
  last_active_ts = pos 100000;
  bucket_refill_ts = pos 100000;
  bucket_tokens = pos 20;
}

some_devices : 1 ≤ to_u64 service.env.config.chat.max_devices_per_user
unfolding to_u64
some_devices = omega arith

reached : Reach service Consumer.broker with_phone
reached = next first (connected opening first_system)

is_found : get 7 "phone" with_phone.world.registry ≡ some phone
unfolding get add lookup insert erase Conn.new on_connect to_u64 values size ◌+ℤ◌ to_decimal
    continue for_each
is_found = refl

system-IsSound_example : IsSound service with_phone
system-IsSound_example = system-IsSound service Consumer.broker some_devices reached

get-IsLetIn_example : IsLetIn service with_phone.openings 7 (some 1)
get-IsLetIn_example =
    get-IsLetIn service Consumer.broker 7 "phone" phone some_devices reached is_found
