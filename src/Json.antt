-- ===== src/Json.antt =====
-- jsoncpp and flz::JsonUtil, which the repository only calls: a parameter of every module that
-- handles JSON. `none` is a Json::Exception, or a text that JsonUtil::FromString does not read.
pub mod Laws
pub mod Values
pub mod Read
use flz_chat.Common.{ℕ, ℤ, Bool, String, Option, List}

pub record JsonOps (V : Type 0) : Type 0 where
  pub is_null : V → Bool
  pub is_object : V → Bool
  pub is_array : V → Bool
  pub is_string : V → Bool
  pub is_int : V → Bool
  pub is_int64 : V → Bool
  pub is_uint64 : V → Bool
  -- `isMember(key)`, `get(key, default)` and `operator[](key)`; they throw on other values than
  -- objects and null.
  pub is_member : V → String → Option Bool
  pub get : V → String → V → Option V
  pub at : V → String → Option V
  -- The items of an array, by `size()` and `operator[](index)`.
  pub items : V → List V
  -- The conversions, which throw on a value of another type or out of range.
  pub as_string : V → Option String
  pub as_int : V → Option ℤ
  pub as_int64 : V → Option ℤ
  pub as_uint64 : V → Option ℕ
  -- The constructors, and `out[key] = value` on an object or on null.
  pub null : V
  pub object : V
  pub text : String → V
  pub int64 : ℤ → V
  pub uint64 : ℕ → V
  pub put : V → String → V → V
  -- JsonUtil::FromString and JsonUtil::ToString.
  pub from_string : String → Option V
  pub to_string : V → String
