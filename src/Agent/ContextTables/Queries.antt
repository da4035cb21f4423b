-- ===== src/Agent/ContextTables/Queries.antt =====
-- The other queries of agent-runtime/app/infrastructure/persistence/repositories/
-- agent_context_repository_impl.py. `none` is the `RepositoryError` of a row that raises.
use codelab_ai_service.Agent.Context.{
  AgentType, AgentContext, value, architect, ask, coder, debug, orchestrator, universal,
}
use codelab_ai_service.Agent.ContextTables.{
  ContextModel, ContextDb, ContextFound, missing, found, broken, has_context_id, read_brief,
  read_context,
}
use codelab_ai_service.Prelude.{
  Bool, Dict, List, Option, String, drop, get_or, insert, keep, leb, length, lookup, ltb, map, none,
  some, str_eq, take, ℕ, ◌+◌, ◌∷◌, [],
}
use codelab_ai_service.Prelude.Sorting.{sort_by}

-- Each row is read in its turn.
abbrev pub all_found : List ContextFound → Option (List AgentContext)
all_found [] = some []
all_found (f ∷ fs) =
    let rest = all_found fs in
    elim f [
      | missing ↦ none
      | broken ↦ none
      | found c ↦ elim rest [ none ↦ none | some cs ↦ some (c ∷ cs) ]
    ]

abbrev pub is_updated_later : ContextModel → ContextModel → Bool
is_updated_later a b = leb b.updated_at a.updated_at

abbrev pub has_more_switches : ContextModel → ContextModel → Bool
has_more_switches a b = leb b.switch_count a.switch_count

-- The method `list`.
unfoldable pub list_contexts : ℕ → ℕ → ContextDb → Option (List AgentContext)
unfolding read_brief
list_contexts limit offset db = all_found (
    map (λ model. read_brief model db)
      (take limit (drop offset (sort_by is_updated_later db.contexts))))

unfoldable pub context_exists : String → ContextDb → Bool
context_exists id db = ltb 0 (length (keep (has_context_id id) db.contexts))

unfoldable pub count_contexts : ContextDb → ℕ
count_contexts db = length db.contexts

abbrev pub works_now : AgentType → ContextModel → Bool
works_now agent model = str_eq model.current_agent (value agent)

unfoldable pub find_by_agent_type : AgentType → ℕ → ContextDb → Option (List AgentContext)
unfolding read_brief value
find_by_agent_type agent limit db = all_found (
    map (λ model. read_brief model db)
      (take limit (sort_by is_updated_later (keep (works_now agent) db.contexts))))

unfoldable pub find_with_many_switches : ℕ → ℕ → ContextDb → Option (List AgentContext)
unfolding read_context
find_with_many_switches min_switches limit db = all_found (
    map (λ model. read_context model db)
      (take limit (
        sort_by has_more_switches
          (keep (λ model. leb min_switches model.switch_count) db.contexts))))

-- `group_by(current_agent)` with its counts, in the order of the first rows.
unfoldable pub group_agents : List ContextModel → Dict ℕ
group_agents [] = []
group_agents (model ∷ models) =
    let rest = group_agents models in
    insert model.current_agent (get_or (lookup model.current_agent rest) 0 + 1) rest

-- An agent without contexts gets a zero.
abbrev pub with_zero : AgentType → Dict ℕ → Dict ℕ
with_zero agent stats = elim (lookup (value agent) stats) [
  | none ↦ insert (value agent) 0 stats
  | some n ↦ stats
]

unfoldable pub get_agent_usage_stats : ContextDb → Dict ℕ
unfolding group_agents value
get_agent_usage_stats db = with_zero universal (
    with_zero ask (
      with_zero debug (
        with_zero architect (with_zero coder (with_zero orchestrator (group_agents db.contexts))))))
