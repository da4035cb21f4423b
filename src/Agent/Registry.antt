-- ===== src/Agent/Registry.antt =====
-- agent-runtime/app/domain/services/agent_registry.py: the agents by their type, in the order of their
-- first registration. An agent is any value; `agent_router` is this registry.
use codelab_ai_service.Agent.Context.{AgentType, same_agent}
use codelab_ai_service.Prelude.{
  Bool, List, Option, false, if◌then◌else◌, is_some, length, map, none, some, true, ℕ, ◌∷◌, [],
}

abbrev pub AgentRegistry {ℓ} : Type ℓ → Type ℓ
AgentRegistry A = List (AgentType × A)

module _ {ℓ} {A : Type ℓ} where
  -- A type that is registered already gets the new agent, in its old place.
  unfoldable pub register_agent : AgentType → A → AgentRegistry A → AgentRegistry A
  register_agent type agent [] = (type, agent) ∷ []
  register_agent type agent ((t, a) ∷ agents) =
      let rest = register_agent type agent agents in
      if same_agent t type then (t, agent) ∷ agents else (t, a) ∷ rest

  -- `none` is the `ValueError` of a type that is not registered.
  unfoldable pub get_agent : AgentType → AgentRegistry A → Option A
  get_agent type [] = none
  get_agent type ((t, a) ∷ agents) = if same_agent t type then some a else get_agent type agents

  abbrev pub has_agent : AgentType → AgentRegistry A → Bool
  has_agent type agents = is_some (get_agent type agents)

  abbrev pub list_agents : AgentRegistry A → List AgentType
  list_agents agents = map (λ (entry : AgentType × A). entry.0) agents

  abbrev pub get_agent_count : AgentRegistry A → ℕ
  get_agent_count agents = length agents

  -- Whether there was one; a type is registered once.
  unfoldable pub unregister_agent : AgentType → AgentRegistry A → Bool × AgentRegistry A
  unregister_agent type [] = (false, [])
  unregister_agent type ((t, a) ∷ agents) =
      let rest = unregister_agent type agents in
      if same_agent t type then (true, agents) else (rest.0, (t, a) ∷ rest.1)

  unfoldable pub clear_all : AgentRegistry A → AgentRegistry A
  clear_all agents = []
