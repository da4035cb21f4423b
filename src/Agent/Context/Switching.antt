-- ===== src/Agent/Context/Switching.antt =====
-- When `switch_to` of agent_context.py makes a switch, and what a refused one leaves.
use codelab_ai_service.Prelude.{
  ◌≡◌, ◌≤◌, ◌≢◌, String, Option, true, arith, Bool, false, if◌then◌else◌, leb,
}
use codelab_ai_service.Agent.Context.{
  AgentType, AgentContext, Stamp, Outcome, already_active, limit_reached, refused, switched,
  new_switch, with_switch, same_agent, switch_to, mark_updated, reset_to_orchestrator,
  can_switch_to, orchestrator,
}
use codelab_ai_service.Agent.Context.History.{ne_of_same_agent}

-- What a call of `switch_to` may do, by its outcome.
abbrev pub Switches :
    Stamp → AgentType → String → Option String → AgentContext → Outcome × AgentContext → Type 0
Switches stamp target reason confidence c (switched s, c') =
    (c.current_agent ≢ target)
    × (s ≡ new_switch stamp target reason confidence c)
    × (c' ≡ mark_updated stamp.marked (with_switch stamp s c))
Switches stamp target reason confidence c (refused (already_active from to), c') =
    (c.current_agent ≡ target) × (c' ≡ c)
Switches stamp target reason confidence c (refused (limit_reached from to n), c') =
    (c.current_agent ≢ target) × (c.max_switches ≤ c.switch_count) × (c' ≡ c)

eq_of_same_agent : (a b : AgentType) → same_agent a b ≡ true → a ≡ b
unfolding same_agent
eq_of_same_agent a b h = ground arith

pub switch_to_cases :
    (stamp : Stamp) (target : AgentType) (reason : String) (confidence : Option String)
    (c : AgentContext)
    → Switches stamp target reason confidence c (switch_to stamp target reason confidence c)
unfolding switch_to
switch_to_cases stamp target reason confidence c =
    ground (arith, eq_of_same_agent c.current_agent target, ne_of_same_agent c.current_agent target)

abbrev is_switched : Outcome → Bool
is_switched (switched s) = true
is_switched (refused e) = false

-- `switch_to` makes a switch exactly when `can_switch_to` says that it may. A switch goes to another
-- agent, and leaves its record at the end of the history, the target as the agent and the counter
-- one higher; a refusal says whether the agent is active already or the limit is reached, and
-- changes nothing.
switch_to-can_switch_to :
    (stamp : Stamp) (target : AgentType) (reason : String) (confidence : Option String)
    (c : AgentContext)
    → let result = switch_to stamp target reason confidence c in
      (is_switched result.0 ≡ can_switch_to target c)
      × Switches stamp target reason confidence c result
unfolding switch_to can_switch_to
switch_to-can_switch_to stamp target reason confidence c =
    (ground arith, switch_to_cases stamp target reason confidence c)

-- `reset_to_orchestrator` brings the context back to the orchestrator unless the limit of switches is
-- reached; then, also for the start of a new task, the agent stays.
current_agent-reset_to_orchestrator :
    (stamp : Stamp) (reason : String) (c : AgentContext)
    → (reset_to_orchestrator stamp reason c).1.current_agent
      ≡ (if leb c.max_switches c.switch_count then c.current_agent else orchestrator)
unfolding reset_to_orchestrator
current_agent-reset_to_orchestrator stamp reason c =
    ground (arith, eq_of_same_agent c.current_agent orchestrator)
