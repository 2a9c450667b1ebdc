-- ===== src/Json/Read.antt =====
-- The reads `v.get(key, default).asT()` of chat/, which throw on a value of another type.
use flz_chat.Common.{ℕ, ℤ, pos, String, Option, bind? as ◌>>=◌}
use flz_chat.Json.{JsonOps}

module _ {V : Type 0} (J : JsonOps V) where
  -- `v.get(key, "").asString()`
  unfoldable pub get_string : V → String → Option String
  get_string v key = do x ← J.get v key (J.text ""); J.as_string x

  -- `v.get(key, 0).asInt()`, `.asInt64()` and `.asUInt64()`
  unfoldable pub get_int : V → String → Option ℤ
  get_int v key = do x ← J.get v key (J.int64 (pos 0)); J.as_int x

  unfoldable pub get_int64 : V → String → Option ℤ
  get_int64 v key = do x ← J.get v key (J.int64 (pos 0)); J.as_int64 x

  unfoldable pub get_uint64 : V → String → Option ℕ
  get_uint64 v key = do x ← J.get v key (J.int64 (pos 0)); J.as_uint64 x
