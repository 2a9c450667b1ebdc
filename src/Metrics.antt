-- ===== src/Metrics.antt =====
-- chat/metrics: the counters and the latency histogram. Numbers are uint64_t and wrap.
pub mod Render
pub mod Counters
pub mod Histogram
use mathlib.Core.Option
use flz_chat.Common.{
  ℕ, ◌+◌, ◌%◌, ◌^◌, List, [], ◌∷◌, String, leb, lookup, insert_ordered, string_eq, if◌then◌else◌,
}
use Prim.Native.String.{◌++◌}

abbrev pub Counters : Type 0
Counters = List (String × ℕ)

abbrev pub u64_mod : ℕ
u64_mod = 2 ^ 64

-- `++counters[label]`, which starts at 0.
unfoldable pub increment : String → Counters → Counters
increment label counters =
    insert_ordered label ((Option.get_or (lookup label counters) 0 + 1) % u64_mod) counters

pub record ChatMetrics : Type 0 where
  pub ws_in : Counters
  pub ws_out : Counters
  pub mq_publish : Counters
  pub mq_consume : Counters
  pub mq_reconnect : Counters
  pub jwt_fail : Counters
  pub hist_buckets : List ℕ
  pub hist_bucket_counts : List ℕ
  pub hist_sum : ℕ
  pub hist_count : ℕ

abbrev pub hist_bounds : List ℕ
hist_bounds = 5 ∷ 10 ∷ 20 ∷ 50 ∷ 100 ∷ 200 ∷ 500 ∷ 1000 ∷ []

-- `m_hist_bucket_counts.resize(m_hist_buckets.size(), 0)`
pub zeros : List ℕ → List ℕ
zeros [] = []
zeros (b ∷ bs) = 0 ∷ zeros bs

unfoldable pub new : ChatMetrics
unfolding zeros
new = record {
  ws_in = [];
  ws_out = [];
  mq_publish = [];
  mq_consume = [];
  mq_reconnect = [];
  jwt_fail = [];
  hist_buckets = hist_bounds;
  hist_bucket_counts = zeros hist_bounds;
  hist_sum = 0;
  hist_count = 0;
}

unfoldable pub inc_ws_in : String → ChatMetrics → ChatMetrics
unfolding increment
inc_ws_in type m = record m { ws_in = increment type m.ws_in }

unfoldable pub inc_ws_out : String → ChatMetrics → ChatMetrics
unfolding increment
inc_ws_out type m = record m { ws_out = increment type m.ws_out }

unfoldable pub inc_mq_publish : String → String → ChatMetrics → ChatMetrics
unfolding increment
inc_mq_publish routing_key result m = record m {
  mq_publish = increment (routing_key ++ ("|" ++ result)) m.mq_publish;
}

unfoldable pub inc_mq_consume : String → String → ChatMetrics → ChatMetrics
unfolding increment
inc_mq_consume routing_key result m = record m {
  mq_consume = increment (routing_key ++ ("|" ++ result)) m.mq_consume;
}

unfoldable pub inc_mq_reconnect : String → ChatMetrics → ChatMetrics
unfolding increment
inc_mq_reconnect role m = record m { mq_reconnect = increment role m.mq_reconnect }

unfoldable pub inc_jwt_verify_fail : String → ChatMetrics → ChatMetrics
unfolding increment
inc_jwt_verify_fail reason m = record m { jwt_fail = increment reason m.jwt_fail }

-- The loop of `ObserveMsgSendLatencyMs`: the first bucket that bounds the value.
pub observe_bucket : ℕ → List ℕ → List ℕ → List ℕ
observe_bucket value [] counts = counts
observe_bucket value (b ∷ bs) [] = []
observe_bucket value (b ∷ bs) (n ∷ ns) =
    if leb value b then ((n + 1) % u64_mod) ∷ ns else n ∷ observe_bucket value bs ns

unfoldable pub observe_msg_send_latency_ms : ℕ → ChatMetrics → ChatMetrics
unfolding observe_bucket
observe_msg_send_latency_ms value_ms m = record m {
  hist_bucket_counts = observe_bucket value_ms m.hist_buckets m.hist_bucket_counts;
  hist_sum = (m.hist_sum + value_ms) % u64_mod;
  hist_count = (m.hist_count + 1) % u64_mod;
}
