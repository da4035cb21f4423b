-- ===== src/Agent/SessionMetrics.antt =====
-- agent-runtime/app/events/subscribers/session_metrics_collector.py: the requests of each session to
-- the language model, and their totals. The averages, which are quotients of floats, are left out.
pub mod Totals
mod Tests
use codelab_ai_service.Prelude.{
  Bool, Dict, List, Option, String, false, get_or, if◌then◌else◌, insert, lookup, map, none, remove,
  some, true, ℕ, ◌++◌, ◌+◌, ◌∷◌, [],
}

pub record LlmRequestMetrics : Type 0 where
  pub timestamp : ℕ
  pub model : String
  pub duration_ms : ℕ
  pub prompt_tokens : ℕ
  pub completion_tokens : ℕ
  pub total_tokens : ℕ
  pub has_tool_calls : Bool
  pub success : Bool
  pub error : Option String

pub record SessionMetrics : Type 0 where
  pub session_id : String
  pub requests : List LlmRequestMetrics
  pub total_requests : ℕ
  pub successful_requests : ℕ
  pub failed_requests : ℕ
  pub total_duration_ms : ℕ
  pub total_prompt_tokens : ℕ
  pub total_completion_tokens : ℕ
  pub total_tokens : ℕ
  pub requests_with_tools : ℕ

abbrev pub new_metrics : String → SessionMetrics
new_metrics session_id = record {
  session_id = session_id;
  requests = [];
  total_requests = 0;
  successful_requests = 0;
  failed_requests = 0;
  total_duration_ms = 0;
  total_prompt_tokens = 0;
  total_completion_tokens = 0;
  total_tokens = 0;
  requests_with_tools = 0;
}

unfoldable pub add_request : LlmRequestMetrics → SessionMetrics → SessionMetrics
add_request r m =
    let added : SessionMetrics = record m {
      requests = m.requests ++ r ∷ [];
      total_requests = m.total_requests + 1;
    } in
    if r.success
    then record added {
      successful_requests = m.successful_requests + 1;
      total_duration_ms = m.total_duration_ms + r.duration_ms;
      total_prompt_tokens = m.total_prompt_tokens + r.prompt_tokens;
      total_completion_tokens = m.total_completion_tokens + r.completion_tokens;
      total_tokens = m.total_tokens + r.total_tokens;
      requests_with_tools =
          if r.has_tool_calls then m.requests_with_tools + 1 else m.requests_with_tools;
    }
    else record added { failed_requests = m.failed_requests + 1 }

-- A request that has started.
pub record PendingRequest : Type 0 where
  pub model : String
  pub timestamp : ℕ

pub record SessionMetricsCollector : Type 0 where
  pub session_metrics : Dict SessionMetrics
  pub pending_requests : Dict PendingRequest

abbrev pub new_collector : SessionMetricsCollector
new_collector = record { session_metrics = []; pending_requests = [] }

-- The events of the language model that the collector listens to: with the session and the time, the
-- model and what came of the request.
pub data MetricsEvent : Type 0 where
  request_started : String → ℕ → String → MetricsEvent
  request_completed : String → ℕ → String → ℕ → ℕ → ℕ → ℕ → Bool → MetricsEvent
  request_failed : String → ℕ → String → String → MetricsEvent

-- The time of the start, when it is known.
abbrev pub started_at : String → ℕ → SessionMetricsCollector → ℕ
started_at session_id now w = elim (lookup session_id w.pending_requests) [
  | none ↦ now
  | some p ↦ p.timestamp
]

unfoldable pub record_request :
    String → LlmRequestMetrics → SessionMetricsCollector → SessionMetricsCollector
unfolding add_request
record_request session_id r w =
    let m = get_or (lookup session_id w.session_metrics) (new_metrics session_id) in
    record {
      session_metrics = insert session_id (add_request r m) w.session_metrics;
      pending_requests = remove session_id w.pending_requests;
    }

-- The figures of a request that succeeded, and of one that failed.
abbrev pub completed : ℕ → String → ℕ → ℕ → ℕ → ℕ → Bool → LlmRequestMetrics
completed timestamp model duration prompt completion total tools = record {
  timestamp = timestamp;
  model = model;
  duration_ms = duration;
  prompt_tokens = prompt;
  completion_tokens = completion;
  total_tokens = total;
  has_tool_calls = tools;
  success = true;
  error = none;
}

abbrev pub failed : ℕ → String → String → LlmRequestMetrics
failed timestamp model error = record {
  timestamp = timestamp;
  model = model;
  duration_ms = 0;
  prompt_tokens = 0;
  completion_tokens = 0;
  total_tokens = 0;
  has_tool_calls = false;
  success = false;
  error = some error;
}

unfoldable pub on_event : MetricsEvent → SessionMetricsCollector → SessionMetricsCollector
unfolding record_request
on_event (request_started session_id now model) w = record w {
  pending_requests =
      insert session_id (record { model = model; timestamp = now }) w.pending_requests;
}
on_event (request_completed session_id now model duration prompt completion total tools) w =
    record_request session_id
      (completed (started_at session_id now w) model duration prompt completion total tools) w
on_event (request_failed session_id now model error) w =
    record_request session_id (failed (started_at session_id now w) model error) w

unfoldable pub on_events : List MetricsEvent → SessionMetricsCollector → SessionMetricsCollector
unfolding on_event
on_events [] w = w
on_events (e ∷ es) w = on_events es (on_event e w)

abbrev pub get_session_metrics : String → SessionMetricsCollector → Option SessionMetrics
get_session_metrics session_id w = lookup session_id w.session_metrics

abbrev pub get_all_sessions : SessionMetricsCollector → List String
get_all_sessions w = map (λ (entry : String × SessionMetrics). entry.0) w.session_metrics

abbrev pub clear_session_metrics : String → SessionMetricsCollector → SessionMetricsCollector
clear_session_metrics session_id w = record w {
  session_metrics = remove session_id w.session_metrics;
}
