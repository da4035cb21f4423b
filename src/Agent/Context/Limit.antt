-- ===== src/Agent/Context/Limit.antt =====
-- The limit of switches of agent_context.py: what a run of calls can do at it, and on the way to it.
use codelab_ai_service.Prelude.{List, arith, refl, ◌∙◌, ◌∷◌, ◌≡◌, ◌≤◌, []}
use codelab_ai_service.Agent.Context.{AgentContext, apply, run, Call, switch, reset, annotate}

-- What the methods of the context leave alone at the limit.
pub record SameAgent (c d : AgentContext) : Type 0 where
  pub agent : d.current_agent ≡ c.current_agent
  pub history : d.switch_history ≡ c.switch_history
  pub count : d.switch_count ≡ c.switch_count
  pub limit : d.max_switches ≡ c.max_switches

apply-SameAgent :
    (call : Call) (c : AgentContext) → c.max_switches ≤ c.switch_count → SameAgent c (apply call c)
unfolding apply
apply-SameAgent (switch stamp target reason confidence) c h = ground arith
apply-SameAgent (reset stamp reason) c h = ground arith
apply-SameAgent (annotate now key val) c h = ground arith

-- Once a context has made its `max_switches` switches, no sequence of calls changes its agent, its
-- history or its counter.
pub run-SameAgent :
    (calls : List Call) (c : AgentContext)
    → c.max_switches ≤ c.switch_count
    → SameAgent c (run calls c)
unfolding run
run-SameAgent [] c h = record { agent = refl; history = refl; count = refl; limit = refl }
run-SameAgent (call ∷ calls) c h =
    let one = apply-SameAgent call c h in
    let rest = run-SameAgent calls (apply call c) (omega arith) in
    record {
      agent = rest.agent ∙ one.agent;
      history = rest.history ∙ one.history;
      count = rest.count ∙ one.count;
      limit = rest.limit ∙ one.limit;
    }
