-- ===== src/Session/Registry/Admission.antt =====
-- A property of the connections in the table that only their user and their session decide.
use flz_chat.Common.{
  ℕ, ◌≡◌, refl, Option, some, String, ◌∷◌, [], ℤ, lookup, insert, erase, nat_eq, string_eq, All,
  All-mono, insert-All, erase-All, lookup-All, Option-cases, inl, inr, arith, subst, sym,
}
use flz_chat.Session.Conn.{OnlineConn, consume_token}
use flz_chat.Session.Registry.{
  Devices, SessionRegistry, devices_of, place, add, put_back, remove, get, update, touch,
}
use flz_chat.Session.Registry.Evict.{evict-All}

-- What is said of a user and a session.
abbrev pub Admission : Type 1
Admission = ℕ → Option ℕ → Type 0

-- A connection under its device.
abbrev Holds : Admission → ℕ → String × OnlineConn → Type 0
Holds P uid d = P uid (d.1).session

abbrev Bucket : Admission → ℕ × Devices → Type 0
Bucket P u = All (Holds P u.0) u.1

-- Every connection of the table has the property, for the user that it stands under.
abbrev pub Admits : Admission → SessionRegistry → Type 0
Admits P r = All (Bucket P) r.conns

module _ (P : Admission) where
  -- What is read from the table has the property.
  pub get-Admits :
      (uid : ℕ) (did : String) (c : OnlineConn) (r : SessionRegistry)
      → get uid did r ≡ some c
      → Admits P r
      → P uid c.session
  unfolding get
  get-Admits uid did c r h a = elim (Option-cases (lookup uid r.conns)) [
    | inl e ↦ absurd (ground arith)
    | inr (ds, e) ↦
        lookup-All (Holds P uid) did c ds (rw (e, get) at h)
          (lookup-All (Bucket P) uid ds r.conns e a)
  ]

  devices_of-Holds :
      (uid : ℕ) (r : SessionRegistry) → Admits P r → All (Holds P uid) (devices_of uid r)
  unfolding devices_of
  devices_of-Holds uid r a = elim (Option-cases (lookup uid r.conns)) [
    | inl e ↦ rw e tt
    | inr (ds, e) ↦ rw e (lookup-All (Bucket P) uid ds r.conns e a)
  ]

  store-Admits :
      (uid : ℕ) (ds : Devices) (r : SessionRegistry)
      → All (Holds P uid) ds
      → Admits P r
      → Admits P (record { conns = insert uid ds r.conns })
  store-Admits uid ds r h a = insert-All (Bucket P) uid ds r.conns h a

  pub add-Admits :
      (conn : OnlineConn) (max_devices : ℕ) (r : SessionRegistry)
      → P conn.user_id conn.session
      → Admits P r
      → Admits P (add (some conn) max_devices r).registry
  unfolding add place
  add-Admits conn max_devices r p a =
      let ds = devices_of conn.user_id r in
      store-Admits conn.user_id _ r
        (evict-All (Holds P conn.user_id) _ max_devices (place conn ds) [] (
          insert-All (Holds P conn.user_id) conn.device_id conn _ p (
            erase-All (Holds P conn.user_id) conn.device_id ds
              (devices_of-Holds conn.user_id r a))))
        a

  put_back-Admits :
      (uid : ℕ) (ds : Devices) (r : SessionRegistry)
      → All (Holds P uid) ds
      → Admits P r
      → Admits P (put_back uid ds r)
  unfolding put_back
  put_back-Admits uid [] r h a = erase-All (Bucket P) uid r.conns a
  put_back-Admits uid (d ∷ ds) r h a = store-Admits uid (d ∷ ds) r h a

  pub remove-Admits :
      (uid : ℕ) (did : String) (r : SessionRegistry) → Admits P r → Admits P (remove uid did r).0
  unfolding remove
  remove-Admits uid did r a = elim (Option-cases (lookup uid r.conns)) [
    | inl e ↦ rw (e, remove) a
    | inr (ds, e) ↦
        rw (e, remove)
          (put_back-Admits uid (erase did ds) r
            (erase-All (Holds P uid) did ds (lookup-All (Bucket P) uid ds r.conns e a)) a)
  ]

  -- A connection that is written in place, with its session kept.
  pub update-Admits :
      (uid : ℕ) (did : String) (conn old : OnlineConn) (r : SessionRegistry)
      → get uid did r ≡ some old
      → conn.session ≡ old.session
      → Admits P r
      → Admits P (update uid did conn r)
  unfolding update
  update-Admits uid did conn old r h s a = elim (Option-cases (lookup uid r.conns)) [
    | inl e ↦ rw (e, update) a
    | inr (ds, e) ↦
        rw (e, update)
          (store-Admits uid _ r
            (insert-All (Holds P uid) did conn ds
              (subst (P uid) (sym s) (get-Admits uid did old r h a))
              (lookup-All (Bucket P) uid ds r.conns e a))
            a)
  ]

  pub touch-Admits :
      (uid : ℕ) (did : String) (now_ms : ℤ) (r : SessionRegistry)
      → Admits P r
      → Admits P (touch uid did now_ms r)
  unfolding touch
  touch-Admits uid did now_ms r a = elim (Option-cases (get uid did r)) [
    | inl e ↦ rw (e, touch) a
    | inr (c, e) ↦
        rw (e, touch) (update-Admits uid did (record c { last_active_ts = now_ms }) c r e refl a)
  ]

pub consume_token_session :
    (c : OnlineConn) (now rate : ℤ) → (consume_token c now rate).0.session ≡ c.session
unfolding consume_token
consume_token_session c now rate = ground arith

-- A weaker property holds as well.
pub Admits-mono :
    (P Q : Admission)
    → ((uid : ℕ) (s : Option ℕ) → P uid s → Q uid s)
    → (r : SessionRegistry) → Admits P r
    → Admits Q r
Admits-mono P Q f r a =
    All-mono _ _ (λ u b. All-mono (Holds P u.0) (Holds Q u.0) (λ d h. f u.0 (d.1).session h) u.1 b)
      r.conns a
