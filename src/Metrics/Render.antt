-- ===== src/Metrics/Render.antt =====
-- `RenderPrometheus` of chat/metrics: the page that a Prometheus server reads.
use Prim.Native.Char.{code}
use Prim.Native.String.{◌++◌}
use flz_chat.Common.{
  ℕ, ◌+◌, ◌%◌, String, Option, none, some, List, [], ◌∷◌, ◌==◌, nat_eq, to_decimal, if◌then◌else◌,
}
use flz_chat.Session.Registry.{SessionRegistry, online_users, online_connections}
use flz_chat.Metrics.{ChatMetrics, Counters, u64_mod}

-- The text before the first '|', and the text after it.
unfoldable pub split_bar : String → Option (String × String)
split_bar String.[] = none
split_bar (String.◌∷◌ c s) =
    let rest : Option (String × String) = elim (split_bar s) [
      | none ↦ none
      | some (key, result) ↦ some (String.◌∷◌ c key, result)
    ] in
    if code c == b'|' then some ("", s) else rest

-- The routing key and the result of a label.
unfoldable pub labels : String → String × String
unfolding split_bar
labels label = elim (split_bar label) [ none ↦ (label, "ok") | some parts ↦ parts ]

-- A number after its name.
abbrev pub sample : String → ℕ → String
sample name value = name ++ (" " ++ (to_decimal value ++ "\n"))

-- The loop over a map of counters.
unfoldable pub samples : (String → String) → Counters → String
unfolding to_decimal
samples name [] = ""
samples name ((label, value) ∷ rest) = sample (name label) value ++ samples name rest

abbrev frame_label : String → String → String
frame_label direction type =
    "chat_ws_frames_total{direction=\"" ++ (direction ++ ("\",type=\"" ++ (type ++ "\"}")))

abbrev message_label : String → String → String
message_label name label =
    let (key, result) = labels label in
    name ++ ("{routing_key=\"" ++ (key ++ ("\",result=\"" ++ (result ++ "\"}"))))

-- The running sums of the histogram.
unfoldable pub cumulate : ℕ → List ℕ → List ℕ
cumulate cumulative [] = []
cumulate cumulative (n ∷ ns) = let sum = (cumulative + n) % u64_mod in sum ∷ cumulate sum ns

unfoldable pub bucket_lines : List ℕ → List ℕ → String
unfolding to_decimal
bucket_lines [] sums = ""
bucket_lines (b ∷ bs) [] = ""
bucket_lines (b ∷ bs) (sum ∷ sums) =
    sample ("chat_msg_send_latency_ms_bucket{le=\"" ++ (to_decimal b ++ "\"}")) sum
    ++ bucket_lines bs sums

unfoldable pub render_prometheus : SessionRegistry → ChatMetrics → String
unfolding online_users online_connections to_decimal labels samples cumulate bucket_lines
render_prometheus registry m =
    sample "chat_online_users" (online_users registry)
    ++ (sample "chat_online_connections" (online_connections registry)
        ++ (samples (frame_label "in") m.ws_in
            ++ (samples (frame_label "out") m.ws_out
                ++ (samples (message_label "chat_mq_publish_total") m.mq_publish
                    ++ (samples (message_label "chat_mq_consume_total") m.mq_consume
                        ++ (samples (λ role. "chat_mq_reconnect_total{role=\"" ++ (role ++ "\"}"))
                              m.mq_reconnect
                            ++ (bucket_lines m.hist_buckets (cumulate 0 m.hist_bucket_counts)
                                ++ (sample "chat_msg_send_latency_ms_bucket{le=\"+Inf\"}"
                                      m.hist_count
                                    ++ (sample "chat_msg_send_latency_ms_sum" m.hist_sum
                                        ++ (sample "chat_msg_send_latency_ms_count" m.hist_count
                                            ++ samples
                                                (λ reason.
                                                  "chat_jwt_verify_fail_total{reason=\""
                                                  ++ (reason ++ "\"}"))
                                                m.jwt_fail))))))))))
