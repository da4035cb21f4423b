-- ===== src/Agent/SessionMetrics/Tests.antt =====
-- Requests of one session: two that succeed, and one that fails.
use codelab_ai_service.Prelude.{
  lookup, insert, remove, List, false, none, refl, some, true, ◌∷◌, ◌≡◌, [],
}
use codelab_ai_service.Agent.SessionMetrics.{
  MetricsEvent, SessionMetrics, request_started, request_completed, request_failed, on_events,
  new_collector, get_session_metrics,
}
use codelab_ai_service.Agent.SessionMetrics.Totals.{IsExact, get_session_metrics-IsExact}

abbrev events : List MetricsEvent
events =
    request_started "s" 1 "m"
    ∷ request_completed "s" 2 "m" 7 10 20 30 true
    ∷ request_failed "s" 3 "m" "timeout"
    ∷ request_completed "s" 4 "m" 5 1 2 3 false
    ∷ []

abbrev figures : SessionMetrics
figures = record {
  session_id = "s";
  requests =
      record {
        timestamp = 1;
        model = "m";
        duration_ms = 7;
        prompt_tokens = 10;
        completion_tokens = 20;
        total_tokens = 30;
        has_tool_calls = true;
        success = true;
        error = none;
      }
      ∷ record {
        timestamp = 3;
        model = "m";
        duration_ms = 0;
        prompt_tokens = 0;
        completion_tokens = 0;
        total_tokens = 0;
        has_tool_calls = false;
        success = false;
        error = some "timeout";
      }
      ∷ record {
        timestamp = 4;
        model = "m";
        duration_ms = 5;
        prompt_tokens = 1;
        completion_tokens = 2;
        total_tokens = 3;
        has_tool_calls = false;
        success = true;
        error = none;
      }
      ∷ [];
  total_requests = 3;
  successful_requests = 2;
  failed_requests = 1;
  total_duration_ms = 12;
  total_prompt_tokens = 11;
  total_completion_tokens = 22;
  total_tokens = 33;
  requests_with_tools = 1;
}

counted : get_session_metrics "s" (on_events events new_collector) ≡ some figures
unfolding on_events lookup insert remove
counted = refl

get_session_metrics-IsExact_example : IsExact figures
get_session_metrics-IsExact_example = get_session_metrics-IsExact events "s" figures counted
