-- ===== src/Agent/SessionMetrics/Totals.antt =====
-- The totals of a session are those of its requests: agent-runtime/app/events/subscribers/
-- session_metrics_collector.py.
use mathlib.Core.Path.{subst}
use codelab_ai_service.Agent.SessionMetrics.{
  completed, failed, started_at, LlmRequestMetrics, SessionMetrics, SessionMetricsCollector,
  add_request, get_session_metrics, request_completed, request_failed, request_started,
  MetricsEvent, new_metrics, on_events, record_request, on_event, new_collector,
}
use codelab_ai_service.Prelude.{
  Bool-cases, List, String, arith, if◌then◌else◌, inl, inr, length, refl, some, ℕ, ◌++◌, ◌+◌, ◌∷◌,
  ◌≡◌, [], Option-cases, get_or, lookup, lookup-insert, str_eq,
}

-- The sum of a figure over the requests that succeeded.
abbrev pub total : (LlmRequestMetrics → ℕ) → List LlmRequestMetrics → ℕ
total f [] = 0
total f (r ∷ rs) = let rest = total f rs in if r.success then f r + rest else rest

-- The counters of a session say what its list of requests says.
pub record IsExact (m : SessionMetrics) : Type 0 where
  pub requests : m.total_requests ≡ length m.requests
  pub split : m.successful_requests + m.failed_requests ≡ m.total_requests
  pub successes : m.successful_requests ≡ total (λ r. 1) m.requests
  pub duration : m.total_duration_ms ≡ total (λ r. r.duration_ms) m.requests
  pub prompt : m.total_prompt_tokens ≡ total (λ r. r.prompt_tokens) m.requests
  pub completion : m.total_completion_tokens ≡ total (λ r. r.completion_tokens) m.requests
  pub tokens : m.total_tokens ≡ total (λ r. r.total_tokens) m.requests
  pub tools : m.requests_with_tools ≡ total (λ r. if r.has_tool_calls then 1 else 0) m.requests

total-append :
    (f : LlmRequestMetrics → ℕ) (r : LlmRequestMetrics) (rs : List LlmRequestMetrics)
    → total f (rs ++ r ∷ []) ≡ total f rs + (if r.success then f r else 0)
total-append f r [] = ground arith
total-append f r (x ∷ rs) = ground (arith, total-append f r rs)

length-added :
    (r : LlmRequestMetrics) (rs : List LlmRequestMetrics) → length (rs ++ r ∷ []) ≡ length rs + 1
length-added r [] = refl
length-added r (x ∷ rs) = ground (arith, length-added r rs)

add_request-IsExact :
    (r : LlmRequestMetrics) (m : SessionMetrics) → IsExact m → IsExact (add_request r m)
unfolding add_request
add_request-IsExact r m h = elim (Bool-cases r.success) [
  | inl e ↦
      rw (e, add_request)
        (record {
          requests = ground (arith, h.requests, length-added r m.requests);
          split = ground (arith, h.split);
          successes = ground (arith, e, h.successes, total-append (λ q. 1) r m.requests);
          duration = ground (arith, e, h.duration, total-append (λ q. q.duration_ms) r m.requests);
          prompt = ground (arith, e, h.prompt, total-append (λ q. q.prompt_tokens) r m.requests);
          completion =
              ground (arith, e, h.completion, total-append (λ q. q.completion_tokens) r m.requests);
          tokens = ground (arith, e, h.tokens, total-append (λ q. q.total_tokens) r m.requests);
          tools = ground (
            arith,
            e,
            h.tools,
            total-append (λ q. if q.has_tool_calls then 1 else 0) r m.requests,
          );
        })
  | inr e ↦
      rw (e, add_request)
        (record {
          requests = ground (arith, h.requests, length-added r m.requests);
          split = ground (arith, h.split);
          successes = ground (arith, e, h.successes, total-append (λ q. 1) r m.requests);
          duration = ground (arith, e, h.duration, total-append (λ q. q.duration_ms) r m.requests);
          prompt = ground (arith, e, h.prompt, total-append (λ q. q.prompt_tokens) r m.requests);
          completion =
              ground (arith, e, h.completion, total-append (λ q. q.completion_tokens) r m.requests);
          tokens = ground (arith, e, h.tokens, total-append (λ q. q.total_tokens) r m.requests);
          tools = ground (
            arith,
            e,
            h.tools,
            total-append (λ q. if q.has_tool_calls then 1 else 0) r m.requests,
          );
        })
]

abbrev pub AllExact : SessionMetricsCollector → Type 0
AllExact w =
    (session_id : String) (m : SessionMetrics)
    → get_session_metrics session_id w ≡ some m
    → IsExact m

new_metrics-IsExact : (session_id : String) → IsExact (new_metrics session_id)
new_metrics-IsExact session_id = record {
  requests = refl;
  split = refl;
  successes = refl;
  duration = refl;
  prompt = refl;
  completion = refl;
  tokens = refl;
  tools = refl;
}

record_request-AllExact :
    (s : String) (r : LlmRequestMetrics) (w : SessionMetricsCollector)
    → AllExact w
    → AllExact (record_request s r w)
unfolding record_request
record_request-AllExact s r w h session_id m found =
    let old = get_or (lookup s w.session_metrics) (new_metrics s) in
    let exact : IsExact old = elim (Option-cases (lookup s w.session_metrics)) [
      | inl e ↦ rw (e) (new_metrics-IsExact s)
      | inr (k, e) ↦ rw (e) (h s k e)
    ] in
    let looked = lookup-insert s session_id (add_request r old) w.session_metrics in
    elim (Bool-cases (str_eq s session_id)) [
      | inl e ↦
          let same : add_request r old ≡ m = ground (arith, found, looked, e) in
          subst IsExact same (add_request-IsExact r old exact)
      | inr e ↦ h session_id m (ground (arith, found, looked, e))
    ]

on_event-AllExact :
    (e : MetricsEvent) (w : SessionMetricsCollector) → AllExact w → AllExact (on_event e w)
unfolding on_event
on_event-AllExact (request_started s now model) w h = h
on_event-AllExact (request_completed s now model duration prompt completion sum tools) w h =
    record_request-AllExact s
      (completed (started_at s now w) model duration prompt completion sum tools) w h
on_event-AllExact (request_failed s now model error) w h =
    record_request-AllExact s (failed (started_at s now w) model error) w h

on_events-AllExact :
    (es : List MetricsEvent) (w : SessionMetricsCollector) → AllExact w → AllExact (on_events es w)
unfolding on_events
on_events-AllExact [] w h = h
on_events-AllExact (e ∷ es) w h = on_events-AllExact es (on_event e w) (on_event-AllExact e w h)

-- After any events of the language model the counters of a session agree with its list of requests:
-- the requests are as many as the counter says and each is counted as successful or failed, and the
-- successes, the durations, the three counts of tokens and the requests with tools are the sums
-- over the successful requests of the list.
pub get_session_metrics-IsExact :
    (es : List MetricsEvent) (session_id : String) (m : SessionMetrics)
    → get_session_metrics session_id (on_events es new_collector) ≡ some m
    → IsExact m
unfolding lookup
get_session_metrics-IsExact es session_id m found =
    on_events-AllExact es new_collector (λ s k h. cc) session_id m found
