-- ===== src/Session/Registry/Timeouts.antt =====
-- Which connections the heartbeat check collects, and how many connections the table counts.
use mathlib.Core.List.{append-nil, append_assoc}
use flz_chat.Common.{
  ℕ, ◌≡◌, refl, sym, subst, ap, ◌∙◌, ◌⊎◌, ◌↔◌, inl, inr, List, [], ◌∷◌, ◌++◌, some, String, ℤ,
  leb_ℤ, ◌≤ℤ◌, lookup, nat_eq, string_eq, if◌then◌else◌, ◌==◌, All, Among, Among-append_left,
  Among-append_right, Among-append_cases, Among-lookup, leb_ℤ→le, le→leb_ℤ, Distinct, Bool-cases,
  Option-cases, arith,
}
use flz_chat.Session.Conn.{OnlineConn}
use flz_chat.Session.Registry.{
  Devices, SessionRegistry, values, get, collect_timeouted, collect_users, collect_devices,
}
use flz_chat.Session.Registry.Invariant.{IsValid, IsBucket, Keyed}

-- The connections of a list that have been silent since the deadline.
overdue : ℤ → List OnlineConn → List OnlineConn
overdue deadline [] = []
overdue deadline (c ∷ cs) =
    if leb_ℤ c.last_active_ts deadline then c ∷ overdue deadline cs else overdue deadline cs

collect_devices-overdue :
    (deadline : ℤ) (ds : Devices) (out : List OnlineConn)
    → collect_devices deadline ds out ≡ out ++ overdue deadline (values ds)
unfolding collect_devices overdue
collect_devices-overdue deadline [] out = simp append-nil
collect_devices-overdue deadline ((did, c) ∷ ds) out =
    elim (Bool-cases (leb_ℤ c.last_active_ts deadline)) [
      | inl q ↦ rw q (collect_devices-overdue deadline ds (out ++ c ∷ []) ∙ simp append_assoc)
      | inr q ↦ rw q (collect_devices-overdue deadline ds out)
    ]

-- Every connection of the table.
connections_of : List (ℕ × Devices) → List OnlineConn
connections_of [] = []
connections_of ((uid, ds) ∷ us) = values ds ++ connections_of us

overdue-append :
    (deadline : ℤ) (xs ys : List OnlineConn)
    → overdue deadline (xs ++ ys) ≡ overdue deadline xs ++ overdue deadline ys
unfolding overdue
overdue-append deadline [] ys = refl
overdue-append deadline (c ∷ xs) ys = ground (arith, overdue-append deadline xs ys)

collect_users-overdue :
    (deadline : ℤ) (us : List (ℕ × Devices)) (out : List OnlineConn)
    → collect_users deadline us out ≡ out ++ overdue deadline (connections_of us)
unfolding collect_users connections_of overdue
collect_users-overdue deadline [] out = simp append-nil
collect_users-overdue deadline ((uid, ds) ∷ us) out =
    rw (collect_devices-overdue deadline ds out, overdue-append deadline (values ds))
      (collect_users-overdue deadline us (out ++ overdue deadline (values ds)) ∙ simp append_assoc)

overdue-Among :
    (deadline : ℤ) (c : OnlineConn) (cs : List OnlineConn)
    → Among c (overdue deadline cs)
    → Among c cs × (c.last_active_ts ≤ℤ deadline)
unfolding overdue
overdue-Among deadline c [] a = elim a [ ]
overdue-Among deadline c (x ∷ cs) a = elim (Bool-cases (leb_ℤ x.last_active_ts deadline)) [
  | inl q ↦ here (overdue-Among deadline c cs) (rw q at a) (leb_ℤ→le x.last_active_ts deadline q)
  | inr q ↦ let (m, l) = overdue-Among deadline c cs (rw q at a) in (inr m, l)
]
  where
    here :
        (Among c (overdue deadline cs) → Among c cs × (c.last_active_ts ≤ℤ deadline))
        → (x ≡ c) ⊎ Among c (overdue deadline cs)
        → x.last_active_ts ≤ℤ deadline
        → ((x ≡ c) ⊎ Among c cs) × (c.last_active_ts ≤ℤ deadline)
    here ih (inl e) l = (inl e, subst (λ (d : OnlineConn). d.last_active_ts ≤ℤ deadline) e l)
    here ih (inr m) l = let (k, j) = ih m in (inr k, j)

Among-overdue :
    (deadline : ℤ) (c : OnlineConn) (cs : List OnlineConn)
    → Among c cs
    → c.last_active_ts ≤ℤ deadline
    → Among c (overdue deadline cs)
unfolding overdue
Among-overdue deadline c [] a l = elim a [ ]
Among-overdue deadline c (x ∷ cs) (inl e) l =
    rw
      (le→leb_ℤ x.last_active_ts deadline
        (subst (λ (d : OnlineConn). d.last_active_ts ≤ℤ deadline) (sym e) l))
      (inl e)
Among-overdue deadline c (x ∷ cs) (inr m) l = elim (Bool-cases (leb_ℤ x.last_active_ts deadline)) [
  | inl q ↦ rw q (inr (Among-overdue deadline c cs m l))
  | inr q ↦ rw q (Among-overdue deadline c cs m l)
]

lookup-Among :
    (k : String) (c : OnlineConn) (ds : Devices) → lookup k ds ≡ some c → Among c (values ds)
unfolding lookup
lookup-Among k c [] h = absurd (cc)
lookup-Among k c ((j, w) ∷ ds) h = elim (Bool-cases (j == k)) [
  | inl q ↦ inl (ground arith)
  | inr q ↦ inr (lookup-Among k c ds (ground arith))
]

-- A connection of a user stands under its own device.
Among-device :
    (uid : ℕ) (c : OnlineConn) (ds : Devices)
    → All (Keyed uid) ds
    → Among c (values ds)
    → (c.user_id ≡ uid) × Among (c.device_id, c) ds
Among-device uid c [] a m = elim m [ ]
Among-device uid c ((j, w) ∷ ds) a (inl e) = (
  ap (λ (d : OnlineConn). d.user_id) (sym e) ∙ a.0.0,
  inl (
      subst (λ (d : OnlineConn). ◌≡◌ {A = String × OnlineConn} (j, w) (d.device_id, d)) e
        (ap {B = String × OnlineConn} (λ i. (i, w)) (sym a.0.1))),
)
Among-device uid c ((j, w) ∷ ds) a (inr m) = let (u, d) = Among-device uid c ds a.1 m in (u, inr d)

Among-connections :
    (c : OnlineConn) (us : List (ℕ × Devices))
    → Distinct us
    → All IsBucket us
    → Among c (connections_of us)
    → (ds : Devices) × (lookup c.user_id us ≡ some ds) × (lookup c.device_id ds ≡ some c)
unfolding connections_of lookup
Among-connections c [] d a m = elim m [ ]
Among-connections c ((uid, ds) ∷ us) d a m =
    part (Among-connections c us d.1 a.1) (Among-append_cases c (values ds) (connections_of us) m)
  where
    later :
        (es : Devices) × (lookup c.user_id us ≡ some es) × (lookup c.device_id es ≡ some c)
        → (es : Devices) × (lookup c.user_id ((uid, ds) ∷ us) ≡ some es)
          × (lookup c.device_id es ≡ some c)
    later (es, e, f) = (es, ground (arith, nat_eq.beq_iff uid c.user_id, d.0), f)

    part :
        (Among c (connections_of us)
          → (es : Devices) × (lookup c.user_id us ≡ some es) × (lookup c.device_id es ≡ some c))
        → Among c (values ds) ⊎ Among c (connections_of us)
        → (es : Devices) × (lookup c.user_id ((uid, ds) ∷ us) ≡ some es)
          × (lookup c.device_id es ≡ some c)
    part ih (inl h) =
        let (u, k) = Among-device uid c ds a.0.keyed h in
        (
          ds,
          ground (arith, nat_eq.beq_iff uid c.user_id),
          Among-lookup c.device_id c ds a.0.devices k,
        )
    part ih (inr h) = later (ih h)

connections-Among :
    (c : OnlineConn) (u : ℕ) (ds : Devices) (us : List (ℕ × Devices))
    → lookup u us ≡ some ds
    → Among c (values ds)
    → Among c (connections_of us)
unfolding connections_of lookup
connections-Among c u ds [] h m = absurd (cc)
connections-Among c u ds ((uid, es) ∷ us) h m = elim (Bool-cases (uid == u)) [
  | inl q ↦
      let same : es ≡ ds = ground arith in
      Among-append_left c (values es) (connections_of us) (rw same m)
  | inr q ↦
      Among-append_right c (values es) (connections_of us)
        (connections-Among c u ds us (ground arith) m)
]

-- The heartbeat check collects exactly the connections of the table that have been silent since the
-- deadline: no live connection, and every silent one.
pub collect_timeouted_iff :
    (deadline : ℤ) (c : OnlineConn) (r : SessionRegistry)
    → IsValid r
    → Among c (collect_timeouted deadline r)
      ↔ ((get c.user_id c.device_id r ≡ some c) × (c.last_active_ts ≤ℤ deadline))
unfolding collect_timeouted get
collect_timeouted_iff deadline c r v = (
  (λ a.
      let (m, l) = overdue-Among deadline c (connections_of r.conns) (rw collected at a) in
      let (ds, e, f) = Among-connections c r.conns v.users v.buckets m in (rw (e, get) f, l)),
  (λ (p, l). rw collected (Among-overdue deadline c (connections_of r.conns) (found p) l)),
)
  where
    collected : collect_timeouted deadline r ≡ overdue deadline (connections_of r.conns)
    collected = collect_users-overdue deadline r.conns []

    found : get c.user_id c.device_id r ≡ some c → Among c (connections_of r.conns)
    found p = elim (Option-cases (lookup c.user_id r.conns)) [
      | inl e ↦ absurd (ground arith)
      | inr (ds, e) ↦
          connections-Among c c.user_id ds r.conns e
            (lookup-Among c.device_id c ds (rw (e, get) at p))
    ]
