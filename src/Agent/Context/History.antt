-- ===== src/Agent/Context/History.antt =====
-- The history of switches of a context (agent_context.py) is a chain that ends at its agent.
-- The switches lead from `first` to `last`, each from where the one before it led, to another agent.
use codelab_ai_service.Prelude.{
  ◌≡◌, ◌≢◌, refl, ◌≤◌, Option, some, true, false, List, [], ◌∷◌, ◌++◌, String, arith, length,
  length-append, none,
}
use codelab_ai_service.Agent.Context.{
  AgentType, orchestrator, AgentSwitch, AgentContext, Stamp, Call, switch, reset, annotate,
  same_agent, switch_to, apply, run, new_context, new_switch,
}

abbrev pub Leads : AgentType → List AgentSwitch → AgentType → Type 0
Leads first [] last = first ≡ last
Leads first (s ∷ ss) last =
    (s.from_agent ≡ some first) × (first ≢ s.to_agent) × Leads s.to_agent ss last

-- What holds of a context whose first agent was `first`.
pub record IsConsistent (first : AgentType) (c : AgentContext) : Type 0 where
  pub chain : Leads first c.switch_history c.current_agent
  pub counted : c.switch_count ≡ length c.switch_history
  pub capped : c.switch_count ≤ c.max_switches

Leads-append :
    (first mid : AgentType) (s : AgentSwitch) (ss : List AgentSwitch)
    → Leads first ss mid
    → s.from_agent ≡ some mid
    → mid ≢ s.to_agent
    → Leads first (ss ++ s ∷ []) s.to_agent
Leads-append first mid s [] h from ne = rw h (from, ne, refl)
Leads-append first mid s (x ∷ ss) h from ne =
    (h.0, h.1, Leads-append x.to_agent mid s ss h.2 from ne)

pub same_agent_refl : (a : AgentType) → same_agent a a ≡ true
unfolding same_agent
same_agent_refl orchestrator = refl
same_agent_refl _ = refl

pub ne_of_same_agent : (a b : AgentType) → same_agent a b ≡ false → a ≢ b
ne_of_same_agent a b h e = cc (same_agent_refl b, e)

pub switch_to-IsConsistent :
    (first : AgentType) (stamp : Stamp) (target : AgentType) (reason : String)
    (confidence : Option String) (c : AgentContext)
    → IsConsistent first c
    → IsConsistent first (switch_to stamp target reason confidence c).1
unfolding switch_to
switch_to-IsConsistent first stamp target reason confidence c h =
    let s = new_switch stamp target reason confidence c in
    ground (
      arith,
      Leads-append first c.current_agent s c.switch_history h.chain refl,
      ne_of_same_agent c.current_agent target,
      length-append c.switch_history (s ∷ []),
    )

apply-IsConsistent :
    (first : AgentType) (call : Call) (c : AgentContext)
    → IsConsistent first c
    → IsConsistent first (apply call c)
unfolding apply
apply-IsConsistent first (switch stamp target reason confidence) c h =
    switch_to-IsConsistent first stamp target reason confidence c h
apply-IsConsistent first (reset stamp reason) c h =
    ground (arith, switch_to-IsConsistent first stamp orchestrator reason none c h)
apply-IsConsistent first (annotate now key val) c h = ground arith

run-keeps :
    (first : AgentType) (calls : List Call) (c : AgentContext)
    → IsConsistent first c
    → IsConsistent first (run calls c)
unfolding run
run-keeps first [] c h = h
run-keeps first (call ∷ calls) c h =
    run-keeps first calls (apply call c) (apply-IsConsistent first call c h)

-- After any sequence of switches, resets and annotations, failing ones included, a context that
-- began with `agent` has a history that leads from `agent` to the current agent without a gap and
-- without a switch to the same agent, as long as its counter, which is at most `max_switches`.
pub run-IsConsistent :
    (id session_id : String) (agent : AgentType) (calls : List Call)
    → IsConsistent agent (run calls (new_context id session_id agent))
run-IsConsistent id session_id agent calls =
    run-keeps agent calls (new_context id session_id agent)
      (record { chain = refl; counted = refl; capped = omega arith })
