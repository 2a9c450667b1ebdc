-- ===== src/Metrics/Histogram.antt =====
-- The latency histogram of chat/metrics: the running sums that `RenderPrometheus` writes.
use flz_chat.Common.{
  ℕ, ◌+◌, ◌%◌, ◌<◌, ◌≤◌, ◌≡◌, refl, ◌∙◌, ap, sym, inl, inr, List, [], ◌∷◌, map, All, leb, leb→le,
  length, Bool-cases, if◌then◌else◌, arith,
}
use flz_chat.Metrics.{
  ChatMetrics, new, hist_bounds, u64_mod, observe_bucket, observe_msg_send_latency_ms,
}
use flz_chat.Metrics.Render.{cumulate}

-- How many values are at most a bound.
unfoldable pub at_most : ℕ → List ℕ → ℕ
at_most b [] = 0
at_most b (v ∷ vs) = if leb v b then at_most b vs + 1 else at_most b vs

-- The histogram after values, the latest first.
unfoldable pub observed : List ℕ → ChatMetrics
observed [] = new
observed (v ∷ vs) = observe_msg_send_latency_ms v (observed vs)

-- One more in the sums whose bound is not below the value.
bump : ℕ → List ℕ → List ℕ → List ℕ
bump v [] sums = sums
bump v (b ∷ bs) [] = []
bump v (b ∷ bs) (s ∷ ss) = (if leb v b then (s + 1) % u64_mod else s) ∷ bump v bs ss

abbrev Ascends : List ℕ → Type 0
Ascends [] = Unit
Ascends (b ∷ bs) = All (λ c. b < c) bs × Ascends bs

All-leb : (v b : ℕ) (bs : List ℕ) → v ≤ b → All (λ c. b < c) bs → All (λ c. v ≤ c) bs
All-leb v b [] p a = tt
All-leb v b (c ∷ cs) p a = (omega (arith, a.0), All-leb v b cs p a.1)

cumulate-shift :
    (v c : ℕ) (bs ns : List ℕ)
    → All (λ b. v ≤ b) bs
    → length ns ≡ length bs
    → cumulate ((c + 1) % u64_mod) ns ≡ bump v bs (cumulate c ns)
unfolding cumulate bump
cumulate-shift v c [] [] a e = refl
cumulate-shift v c [] (n ∷ ns) a e = absurd (omega (arith, e))
cumulate-shift v c (b ∷ bs) [] a e = absurd (omega (arith, e))
cumulate-shift v c (b ∷ bs) (n ∷ ns) a e =
    let sum : ((c + 1) % u64_mod + n) % u64_mod ≡ ((c + n) % u64_mod + 1) % u64_mod = omega arith in
    rw sum (ground (arith, cumulate-shift v ((c + n) % u64_mod) bs ns a.1 (omega (arith, e)), a.0))

cumulate-observe :
    (v c : ℕ) (bs ns : List ℕ)
    → Ascends bs
    → length ns ≡ length bs
    → cumulate c (observe_bucket v bs ns) ≡ bump v bs (cumulate c ns)
unfolding cumulate bump observe_bucket
cumulate-observe v c [] [] a e = refl
cumulate-observe v c [] (n ∷ ns) a e = absurd (omega (arith, e))
cumulate-observe v c (b ∷ bs) [] a e = absurd (omega (arith, e))
cumulate-observe v c (b ∷ bs) (n ∷ ns) a e = elim (Bool-cases (leb v b)) [
  | inl q ↦
      let below = All-leb v b bs (leb→le v b q) a.0 in
      let sum : (c + (n + 1) % u64_mod) % u64_mod ≡ ((c + n) % u64_mod + 1) % u64_mod =
        omega arith in
      rw (q, observe_bucket, cumulate, sum)
        (ap (λ (l : List ℕ). (((c + n) % u64_mod + 1) % u64_mod) ∷ l)
          (cumulate-shift v ((c + n) % u64_mod) bs ns below (omega (arith, e))))
  | inr q ↦
      rw (q, observe_bucket)
        (ap (λ (l : List ℕ). ((c + n) % u64_mod) ∷ l)
          (cumulate-observe v ((c + n) % u64_mod) bs ns a.1 (omega (arith, e))))
]

length-observe_bucket :
    (v : ℕ) (bs ns : List ℕ) → length ns ≡ length bs → length (observe_bucket v bs ns) ≡ length bs
unfolding observe_bucket
length-observe_bucket v [] ns e = e
length-observe_bucket v (b ∷ bs) [] e = absurd (omega (arith, e))
length-observe_bucket v (b ∷ bs) (n ∷ ns) e = elim (Bool-cases (leb v b)) [
  | inl q ↦ rw (q, observe_bucket) e
  | inr q ↦ rw (q, observe_bucket) (omega (arith, length-observe_bucket v bs ns (omega (arith, e))))
]

-- A value more in the sums that are as they should be.
bump-map :
    (v : ℕ) (vs bs : List ℕ)
    → bump v bs (map (λ b. at_most b vs % u64_mod) bs) ≡ map (λ b. at_most b (v ∷ vs) % u64_mod) bs
unfolding bump at_most
bump-map v vs [] = refl
bump-map v vs (b ∷ bs) =
    let n = at_most b vs in
    let first : (if leb v b then (n % u64_mod + 1) % u64_mod else n % u64_mod)
        ≡ (if leb v b then n + 1 else n) % u64_mod =
      elim (Bool-cases (leb v b)) [ inl q ↦ rw q (omega arith) | inr q ↦ rw q refl ] in
    let rest = bump-map v vs bs in λ i. first i ∷ rest i

record IsExact (vs : List ℕ) (m : ChatMetrics) : Type 0 where
  buckets : m.hist_buckets ≡ hist_bounds
  size : length m.hist_bucket_counts ≡ length hist_bounds
  sums : cumulate 0 m.hist_bucket_counts ≡ map (λ b. at_most b vs % u64_mod) hist_bounds
  count : m.hist_count ≡ length vs % u64_mod

ascends : Ascends hist_bounds
ascends = omega arith

observe-IsExact :
    (v : ℕ) (vs : List ℕ) (m : ChatMetrics)
    → IsExact vs m
    → IsExact (v ∷ vs) (observe_msg_send_latency_ms v m)
unfolding observe_msg_send_latency_ms
observe-IsExact v vs m x =
    let at_bounds : observe_bucket v m.hist_buckets m.hist_bucket_counts
        ≡ observe_bucket v hist_bounds m.hist_bucket_counts =
      ap (λ (bs : List ℕ). observe_bucket v bs m.hist_bucket_counts) x.buckets in
    record {
      buckets = x.buckets;
      size =
          ap (λ (l : List ℕ). length l) at_bounds
          ∙ length-observe_bucket v hist_bounds m.hist_bucket_counts x.size;
      sums =
          ap (cumulate 0) at_bounds
          ∙ (cumulate-observe v 0 hist_bounds m.hist_bucket_counts ascends x.size
              ∙ (ap (bump v hist_bounds) x.sums ∙ bump-map v vs hist_bounds));
      count = omega (arith, x.count);
    }

observed-IsExact : (vs : List ℕ) → IsExact vs (observed vs)
unfolding observed new cumulate at_most
observed-IsExact [] = record { buckets = refl; size = refl; sums = refl; count = refl }
observed-IsExact (v ∷ vs) = observe-IsExact v vs (observed vs) (observed-IsExact vs)

-- After any latencies, the sum that is written for a bound is the number of latencies that are at most
-- the bound, and the count is the number of all of them, modulo 2^64.
pub histogram_exact :
    (vs : List ℕ)
    → let m = observed vs in
      (cumulate 0 m.hist_bucket_counts ≡ map (λ b. at_most b vs % u64_mod) m.hist_buckets)
      × (m.hist_count ≡ length vs % u64_mod)
histogram_exact vs =
    let x = observed-IsExact vs in
    (x.sums ∙ ap (map (λ b. at_most b vs % u64_mod)) (sym x.buckets), x.count)
