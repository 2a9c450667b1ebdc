-- ===== src/Session/Registry/Updates.antt =====
-- Writes through the shared pointers that the table holds.
use flz_chat.Common.{
  ℕ, ◌≡◌, refl, ◌∙◌, inl, inr, List, some, String, ℤ, lookup, nat_eq, string_eq, All,
  insert-Distinct, insert-All, lookup-All, length-insert_pos, Option-cases, arith,
}
use flz_chat.Session.Conn.{OnlineConn, consume_token}
use flz_chat.Session.Registry.{SessionRegistry, get, update, touch}
use flz_chat.Session.Registry.Invariant.{Keyed, IsBucket, IsValid}

-- A connection of the table is written in place: the table stays valid.
pub update-IsValid :
    (uid : ℕ) (did : String) (conn old : OnlineConn) (r : SessionRegistry)
    → get uid did r ≡ some old
    → conn.user_id ≡ old.user_id
    → conn.device_id ≡ old.device_id
    → IsValid r
    → IsValid (update uid did conn r)
unfolding get update
update-IsValid uid did conn old r h u d v = elim (Option-cases (lookup uid r.conns)) [
  | inl e ↦ rw (e, update) v
  | inr (ds, e) ↦
      let b = lookup-All IsBucket uid ds r.conns e v.buckets in
      let found : lookup did ds ≡ some old = ground arith in
      rw (e, update)
        (record {
          users = insert-Distinct uid _ r.conns v.users;
          buckets =
              insert-All IsBucket uid _ r.conns
                (record {
                  filled = length-insert_pos did conn ds;
                  devices = insert-Distinct did conn ds b.devices;
                  keyed = insert-All (Keyed uid) did conn ds (keys ds b.keyed found) b.keyed;
                })
                v.buckets;
        })
]
  where
    keys :
        (ds : List (String × OnlineConn))
        → All (Keyed uid) ds
        → lookup did ds ≡ some old
        → Keyed uid (did, conn)
    keys ds a f = let k = lookup-All (Keyed uid) did old ds f a in (u ∙ k.0, d ∙ k.1)

pub touch-IsValid :
    (uid : ℕ) (did : String) (now_ms : ℤ) (r : SessionRegistry)
    → IsValid r
    → IsValid (touch uid did now_ms r)
unfolding touch
touch-IsValid uid did now_ms r v = elim (Option-cases (get uid did r)) [
  | inl e ↦ rw (e, touch) v
  | inr (c, e) ↦
      rw (e, touch)
        (update-IsValid uid did (record c { last_active_ts = now_ms }) c r e refl refl v)
]

pub consume_token_keys :
    (c : OnlineConn) (now rate : ℤ)
    → let c' = (consume_token c now rate).0 in
      (c'.user_id ≡ c.user_id) × (c'.device_id ≡ c.device_id)
unfolding consume_token
consume_token_keys c now rate = ground arith
