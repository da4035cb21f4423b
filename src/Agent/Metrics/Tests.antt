-- ===== src/Agent/Metrics/Tests.antt =====
-- A switch is counted under its two agents; a decision in small letters has no counter.
use codelab_ai_service.Agent.Metrics.{
  reset_metrics, collect_agent_metrics, collect_hitl_metrics, get_agent_switch_count,
  agent_switched, decision_made,
}
use codelab_ai_service.Prelude.{false, insert, lookup, refl, ◌≡◌}

switched_once :
    get_agent_switch_count "ask" "coder"
      (collect_agent_metrics (agent_switched "ask" "coder") reset_metrics)
    ≡ 1
unfolding get_agent_switch_count collect_agent_metrics lookup insert
switched_once = refl

uncounted : (collect_hitl_metrics (decision_made "approve" "write_file") reset_metrics).0 ≡ false
unfolding collect_hitl_metrics
uncounted = refl
