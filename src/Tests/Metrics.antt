-- ===== src/Tests/Metrics.antt =====
-- The counters and the page of chat/metrics at concrete calls.
use flz_chat.Common.{
  ℕ, ◌%◌, ◌≡◌, refl, [], ◌∷◌, map, length, nat_eq, string_eq, insert_ordered, less, lookup,
}
use flz_chat.Metrics.{u64_mod, increment}
use flz_chat.Metrics.Counters.{counted}
use flz_chat.Metrics.Histogram.{at_most, observed, histogram_exact}
use flz_chat.Metrics.Render.{cumulate, labels, samples}

histogram_exact_example :
    let m = observed (7 ∷ 1500 ∷ 40 ∷ []) in
    (cumulate 0 m.hist_bucket_counts
      ≡ map (λ b. at_most b (7 ∷ 1500 ∷ 40 ∷ []) % u64_mod) m.hist_buckets)
    × (m.hist_count ≡ length {A = ℕ} (7 ∷ 1500 ∷ 40 ∷ []) % u64_mod)
histogram_exact_example = histogram_exact (7 ∷ 1500 ∷ 40 ∷ [])

published_label : labels "business.msg.ack|fail" ≡ ("business.msg.ack", "fail")
unfolding labels
published_label = refl

frames_page : samples (λ type. type) (counted ("ping" ∷ "bye" ∷ "ping" ∷ [])) ≡ "bye 1\nping 2\n"
unfolding samples counted increment insert_ordered less lookup
frames_page = refl
