-- ===== src/Config/Load.antt =====
-- Which settings are accepted at load, and where the secret comes from.
use Prim.Native.String.{◌++◌}
use text.Mathlib.TextLemmas.{cons-append}
use mathlib.Core.Option
use flz_chat.Common.{
  size-append, strip_prefix-append, ◌≤◌, ◌≡◌, ◌≢◌, ◌↔◌, refl, none, some, String, pos, ◌≤ℤ◌, ◌<ℤ◌,
  size, strip_last, string_eq, arith,
}
use flz_chat.Config.{ChatConfig, ConfigSource, env_prefix, resolve_env, check, load}

-- What the service needs of its settings.
pub record IsSound (c : ChatConfig) : Type 0 where
  pub algorithm : c.jwt.algorithm ≡ "HS256"
  pub secret : c.jwt.secret ≢ ""
  pub devices : pos 0 <ℤ c.chat.max_devices_per_user
  pub interval : pos 0 <ℤ c.chat.heartbeat_interval_seconds
  pub timeout : c.chat.heartbeat_interval_seconds <ℤ c.chat.heartbeat_timeout_seconds
  pub port_low : pos 0 <ℤ c.rabbitmq.port
  pub port_high : c.rabbitmq.port ≤ℤ pos 65535

check-IsSound : (c : ChatConfig) → check c ≡ none → IsSound c
unfolding check
check-IsSound c h =
    ground (arith, string_eq.beq_iff c.jwt.algorithm "HS256", string_eq.beq_iff c.jwt.secret "")

check_complete : (c : ChatConfig) → IsSound c → check c ≡ none
unfolding check
check_complete c s =
    ground (arith, string_eq.beq_iff c.jwt.algorithm "HS256", string_eq.beq_iff c.jwt.secret "")

-- `Load` succeeds exactly on sound settings: HS256 with a secret, positive limits, a heartbeat
-- timeout above the interval, and a port from 1 to 65535.
pub load-none_iff : (src : ConfigSource) → ((load src).1 ≡ none) ↔ IsSound (load src).0
unfolding load
load-none_iff src = (check-IsSound (load src).0, check_complete (load src).0)

strip_last-push : (key : String) → strip_last b'}' (key ++ "}") ≡ some key
unfolding strip_last
strip_last-push String.[] = refl
strip_last-push (String.◌∷◌ c String.[]) = rw (cons-append c "" "}") refl
strip_last-push (String.◌∷◌ c (String.◌∷◌ d s)) =
    rw (cons-append c (String.◌∷◌ d s) "}", cons-append d s "}")
      (rw (rw (cons-append d s "}") at (strip_last-push (String.◌∷◌ d s)), strip_last) refl)

-- A value `${ENV:key}` with a key of one byte or more stands for the environment variable, or for
-- the empty text if that is not set.
resolve_env-getenv :
    (src : ConfigSource) (key : String)
    → 1 ≤ size key
    → resolve_env src (env_prefix ++ (key ++ "}")) ≡ Option.get_or (src.getenv key) ""
unfolding resolve_env size
resolve_env-getenv src key h = ground (
  arith,
  strip_prefix-append env_prefix (key ++ "}"),
  strip_last-push key,
  size-append env_prefix (key ++ "}"),
  size-append key "}",
)
