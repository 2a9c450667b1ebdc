-- ===== src/Json/Laws.antt =====
-- What jsoncpp documents of the calls that the repository makes.
use flz_chat.Common.{
  ℕ, ℤ, pos, negsuc, ltb, ◌^◌, Bool, true, false, String, some, ◌≡◌, ◌==◌, string_eq, if◌then◌else◌,
}
use flz_chat.Json.{JsonOps}

-- Whether an integer fits in a signed type of `w` bits and a sign.
unfoldable pub fits : ℕ → ℤ → Bool
fits w (pos n) = ltb n (2 ^ w)
fits w (negsuc n) = ltb n (2 ^ w)

pub record JsonLaws {V : Type 0} (J : JsonOps V) : Type 0 where
  -- A member that was written is read back, and the others are as they were.
  pub get-put :
      (o v d : V) (k j : String)
      → J.is_object o ≡ true
      → J.get (J.put o k v) j d ≡ (if k == j then some v else J.get o j d)
  pub at-put :
      (o v : V) (k j : String)
      → J.is_object o ≡ true
      → J.at (J.put o k v) j ≡ (if k == j then some v else J.at o j)
  pub is_member-put :
      (o v : V) (k j : String)
      → J.is_object o ≡ true
      → J.is_member (J.put o k v) j ≡ (if k == j then some true else J.is_member o j)
  -- A write to an object leaves an object.
  pub is_object-put :
      (o v : V) (k : String) → J.is_object o ≡ true → J.is_object (J.put o k v) ≡ true
  -- A first write turns null into an object.
  pub put-null : (v : V) (k : String) → J.put J.null k v ≡ J.put J.object k v
  pub is_member-object : (k : String) → J.is_member J.object k ≡ some false
  pub is_object-object : J.is_object J.object ≡ true
  pub as_string-text : (s : String) → J.as_string (J.text s) ≡ some s
  pub as_string-is_string : (v : V) → J.is_string v ≡ true → (s : String) × (J.as_string v ≡ some s)
  -- An integer is read back where it is in the range of the type that it is read as.
  pub as_int-int64 : (i : ℤ) → fits 31 i ≡ true → J.as_int (J.int64 i) ≡ some i
  pub as_int64-int64 : (i : ℤ) → fits 63 i ≡ true → J.as_int64 (J.int64 i) ≡ some i
  pub is_int64-int64 : (i : ℤ) → fits 63 i ≡ true → J.is_int64 (J.int64 i) ≡ true
  pub as_uint64-uint64 : (n : ℕ) → ltb n (2 ^ 64) ≡ true → J.as_uint64 (J.uint64 n) ≡ some n
