-- ===== src/Json/Values.antt =====
-- A JSON of values, at a text form that is given: it satisfies the laws, which so can hold, and it
-- runs the examples.
use flz_chat.Common.{
  ℕ, ℤ, pos, negsuc, ltb, ◌^◌, Bool, true, false, ◌≡◌, refl, ◌==◌, Bool-cases, inl, inr, string_eq,
  String, Option, none, some, List, [], ◌∷◌, if◌then◌else◌, arith,
}
use flz_chat.Json.{JsonOps}
use flz_chat.Json.Laws.{JsonLaws, fits}

mutual
  pub data Json : Type 0 where
    null : Json
    text : String → Json
    number : ℤ → Json
    object : Fields → Json
    array : Items → Json

  pub data Fields : Type 0 where
    empty : Fields
    field : String → Json → Fields → Fields

  pub data Items : Type 0 where
    end : Items
    item : Json → Items → Items

unfoldable find_field : String → Fields → Option Json
find_field k empty = none
find_field k (field j v fs) = let rest = find_field k fs in if j == k then some v else rest

unfoldable list_items : Items → List Json
list_items end = []
list_items (item v vs) = v ∷ list_items vs

unfoldable fields_of : Json → Option Fields
fields_of null = some empty
fields_of (text s) = none
fields_of (number i) = none
fields_of (object fs) = some fs
fields_of (array vs) = none

abbrev is_null : Json → Bool
is_null v = elim v [ null ↦ true | _ ↦ false ]

abbrev is_object : Json → Bool
is_object v = elim v [ object fs ↦ true | _ ↦ false ]

abbrev is_array : Json → Bool
is_array v = elim v [ array vs ↦ true | _ ↦ false ]

abbrev is_string : Json → Bool
is_string v = elim v [ text s ↦ true | _ ↦ false ]

unfoldable is_signed : ℕ → Json → Bool
unfolding fits
is_signed w v = elim v [ number i ↦ fits w i | _ ↦ false ]

unfoldable as_signed : ℕ → Json → Option ℤ
unfolding fits
as_signed w v = elim v [ number i ↦ if fits w i then some i else none | _ ↦ none ]

unfoldable as_unsigned : ℤ → Option ℕ
as_unsigned (pos n) = if ltb n (2 ^ 64) then some n else none
as_unsigned (negsuc n) = none

unfoldable as_uint64 : Json → Option ℕ
unfolding as_unsigned
as_uint64 v = elim v [ number i ↦ as_unsigned i | _ ↦ none ]

abbrev as_string : Json → Option String
as_string v = elim v [ text s ↦ some s | _ ↦ none ]

abbrev items_of : Json → List Json
items_of v = elim v [ array vs ↦ list_items vs | _ ↦ [] ]

unfoldable has_field : String → Fields → Bool
unfolding find_field
has_field k fs = elim (find_field k fs) [ none ↦ false | some v ↦ true ]

-- A member of an object, or what stands for a missing one.
abbrev member : {A : Type 0} → Json → (Fields → A) → Option A
member v f = elim (fields_of v) [ none ↦ none | some fs ↦ some (f fs) ]

unfoldable find_or : String → Json → Fields → Json
unfolding find_field
find_or k d fs = elim (find_field k fs) [ none ↦ d | some v ↦ v ]

unfoldable put_member : Json → String → Json → Json
put_member null k v = object (field k v empty)
put_member (object fs) k v = object (field k v fs)
put_member (text s) k v = text s
put_member (number i) k v = number i
put_member (array vs) k v = array vs

unfoldable pub values : (String → Option Json) → (Json → String) → JsonOps Json
unfolding is_signed as_signed as_uint64 has_field find_or fields_of put_member list_items
values parse print = record {
  is_null = is_null;
  is_object = is_object;
  is_array = is_array;
  is_string = is_string;
  is_int = is_signed 31;
  is_int64 = is_signed 63;
  is_uint64 =
      λ v. elim v [ number i ↦ elim (as_unsigned i) [ none ↦ false | some n ↦ true ] | _ ↦ false ];
  is_member = λ v k. member v (has_field k);
  get = λ v k d. member v (find_or k d);
  at = λ v k. member v (find_or k null);
  items = items_of;
  as_string = as_string;
  as_int = as_signed 31;
  as_int64 = as_signed 63;
  as_uint64 = as_uint64;
  null = null;
  object = object empty;
  text = text;
  int64 = number;
  uint64 = λ n. number (pos n);
  put = put_member;
  from_string = parse;
  to_string = print;
}

is_object-inv {ℓ} :
    {A : Type ℓ} (v : Json) → is_object v ≡ true → ((fs : Fields) → v ≡ object fs → A) → A
is_object-inv (object fs) h k = k fs refl
is_object-inv null h k = absurd (ground arith)
is_object-inv (text s) h k = absurd (ground arith)
is_object-inv (number i) h k = absurd (ground arith)
is_object-inv (array vs) h k = absurd (ground arith)

find_or-field :
    (k j : String) (v d : Json) (fs : Fields)
    → some (find_or j d (field k v fs)) ≡ (if k == j then some v else some (find_or j d fs))
unfolding find_or find_field
find_or-field k j v d fs = elim (Bool-cases (k == j)) [
  | inl e ↦ rw (e, find_or, find_field) refl
  | inr e ↦ rw (e, find_or, find_field) refl
]

has_field-field :
    (k j : String) (v : Json) (fs : Fields)
    → some (has_field j (field k v fs)) ≡ (if k == j then some true else some (has_field j fs))
unfolding has_field find_field
has_field-field k j v fs = elim (Bool-cases (k == j)) [
  | inl e ↦ rw (e, has_field, find_field) refl
  | inr e ↦ rw (e, has_field, find_field) refl
]

text_of : (v : Json) → is_string v ≡ true → (s : String) × (as_string v ≡ some s)
text_of (text s) h = (s, refl)
text_of null h = absurd (ground arith)
text_of (object fs) h = absurd (ground arith)
text_of (number i) h = absurd (ground arith)
text_of (array vs) h = absurd (ground arith)

pub values_laws :
    (parse : String → Option Json) (print : Json → String) → JsonLaws (values parse print)
unfolding values
values_laws parse print = record {
  get-put = λ o v d k j h. is_object-inv o h (λ fs e. rw e (find_or-field k j v d fs));
  at-put = λ o v k j h. is_object-inv o h (λ fs e. rw e (find_or-field k j v null fs));
  is_member-put = λ o v k j h. is_object-inv o h (λ fs e. rw e (has_field-field k j v fs));
  is_object-put = λ o v k h. is_object-inv o h (λ fs e. rw e refl);
  put-null = λ v k. refl;
  is_member-object = λ k. refl;
  is_object-object = refl;
  as_string-text = λ s. refl;
  as_string-is_string = text_of;
  as_int-int64 = λ i h. ground arith;
  as_int64-int64 = λ i h. ground arith;
  is_int64-int64 = λ i h. h;
  as_uint64-uint64 = λ n h. ground arith;
}
