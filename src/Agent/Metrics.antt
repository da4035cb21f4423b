-- ===== src/Agent/Metrics.antt =====
-- agent-runtime/app/events/subscribers/metrics_collector.py: counters of the switches and the work of
-- agents, of the executions of tools and of the decisions of users. Durations are whole numbers; the
-- average and the rate, which are quotients of floats, are given by their two terms.
mod Tests
use Prim.Native.String.{◌++◌}
use codelab_ai_service.Prelude.{
  Bool, Dict, Option, String, false, get_or, if◌then◌else◌, insert, lookup, none, some, str_eq,
  true, ℕ, ◌+◌, [],
}

pub record Work : Type 0 where
  pub count : ℕ
  pub total_duration_ms : ℕ
  pub success_count : ℕ
  pub failure_count : ℕ

pub record Executions : Type 0 where
  pub requested : ℕ
  pub completed : ℕ
  pub failed : ℕ
  pub requires_approval : ℕ

pub record Decisions : Type 0 where
  pub approved : ℕ
  pub edited : ℕ
  pub rejected : ℕ

pub record MetricsCollector : Type 0 where
  pub agent_switches : Dict ℕ
  pub agent_processing : Dict Work
  pub tool_executions : Dict Executions
  pub hitl_decisions : Dict Decisions
  pub errors : Dict (Dict ℕ)

abbrev pub reset_metrics : MetricsCollector
reset_metrics = record {
  agent_switches = [];
  agent_processing = [];
  tool_executions = [];
  hitl_decisions = [];
  errors = [];
}

-- The events that are counted, with what is read of their data.
pub data MetricEvent : Type 0 where
  agent_switched : String → String → MetricEvent
  processing_completed : String → ℕ → Bool → MetricEvent
  error_occurred : String → String → MetricEvent
  execution_requested execution_completed execution_failed approval_required : String → MetricEvent
  decision_made : String → String → MetricEvent

abbrev pub switch_key : String → String → String
switch_key from to = from ++ "_to_" ++ to

-- One more under a key.
unfoldable pub count_one : String → Dict ℕ → Dict ℕ
count_one key d = insert key (get_or (lookup key d) 0 + 1) d

abbrev pub no_work : Work
no_work = record { count = 0; total_duration_ms = 0; success_count = 0; failure_count = 0 }

abbrev pub add_work : ℕ → Bool → Work → Work
add_work duration success w = record {
  count = w.count + 1;
  total_duration_ms = w.total_duration_ms + duration;
  success_count = if success then w.success_count + 1 else w.success_count;
  failure_count = if success then w.failure_count else w.failure_count + 1;
}

unfoldable pub collect_agent_metrics : MetricEvent → MetricsCollector → MetricsCollector
unfolding count_one
collect_agent_metrics (agent_switched from to) m = record m {
  agent_switches = count_one (switch_key from to) m.agent_switches;
}
collect_agent_metrics (processing_completed agent duration success) m = record m {
  agent_processing =
      insert agent (add_work duration success (get_or (lookup agent m.agent_processing) no_work))
        m.agent_processing;
}
collect_agent_metrics (error_occurred agent error_type) m = record m {
  errors = insert agent (count_one error_type (get_or (lookup agent m.errors) [])) m.errors;
}
collect_agent_metrics _ m = m

abbrev pub no_executions : Executions
no_executions = record { requested = 0; completed = 0; failed = 0; requires_approval = 0 }

-- A tool that was never requested is not counted.
abbrev pub change_executions :
    String → (Executions → Executions) → MetricsCollector → MetricsCollector
change_executions tool_name f m = elim (lookup tool_name m.tool_executions) [
  | none ↦ m
  | some e ↦ record m { tool_executions = insert tool_name (f e) m.tool_executions }
]

unfoldable pub collect_tool_metrics : MetricEvent → MetricsCollector → MetricsCollector
collect_tool_metrics (execution_requested tool_name) m =
    let e = get_or (lookup tool_name m.tool_executions) no_executions in
    record m {
      tool_executions =
          insert tool_name (record e { requested = e.requested + 1 }) m.tool_executions;
    }
collect_tool_metrics (execution_completed tool_name) m =
    change_executions tool_name (λ e. record e { completed = e.completed + 1 }) m
collect_tool_metrics (execution_failed tool_name) m =
    change_executions tool_name (λ e. record e { failed = e.failed + 1 }) m
collect_tool_metrics (approval_required tool_name) m =
    change_executions tool_name (λ e. record e { requires_approval = e.requires_approval + 1 }) m
collect_tool_metrics _ m = m

abbrev pub no_decisions : Decisions
no_decisions = record { approved = 0; edited = 0; rejected = 0 }

-- `none` is the `KeyError` of a decision that has no counter.
abbrev pub add_decision : String → Decisions → Option Decisions
add_decision decision d =
    if str_eq decision "APPROVE"
    then some (record d { approved = d.approved + 1 })
    else if str_eq decision "EDIT"
    then some (record d { edited = d.edited + 1 })
    else if str_eq decision "REJECT"
    then some (record d { rejected = d.rejected + 1 })
    else none

-- Whether the handler returned; the counters of a new tool are there even where it raised.
unfoldable pub collect_hitl_metrics : MetricEvent → MetricsCollector → Bool × MetricsCollector
collect_hitl_metrics (decision_made decision tool_name) m =
    let d = get_or (lookup tool_name m.hitl_decisions) no_decisions in
    elim (add_decision decision d) [
      | none ↦ (false, record m { hitl_decisions = insert tool_name d m.hitl_decisions })
      | some d' ↦ (true, record m { hitl_decisions = insert tool_name d' m.hitl_decisions })
    ]
collect_hitl_metrics _ m = (true, m)

unfoldable pub get_agent_switch_count : String → String → MetricsCollector → ℕ
get_agent_switch_count from to m = get_or (lookup (switch_key from to) m.agent_switches) 0

-- The total and the count, of which the average is the quotient.
unfoldable pub get_agent_avg_duration : String → MetricsCollector → ℕ × ℕ
get_agent_avg_duration agent m =
    let w = get_or (lookup agent m.agent_processing) no_work in (w.total_duration_ms, w.count)

-- The successes and the executions that ended.
unfoldable pub get_tool_success_rate : String → MetricsCollector → ℕ × ℕ
get_tool_success_rate tool_name m =
    let e = get_or (lookup tool_name m.tool_executions) no_executions in
    (e.completed, e.completed + e.failed)
