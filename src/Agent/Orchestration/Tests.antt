-- ===== src/Agent/Orchestration/Tests.antt =====
-- The theorem about `switch_agent` (agent_orchestration.py) on tables with one session.
use codelab_ai_service.Prelude.{none, true, ◌∷◌, []}
use codelab_ai_service.Agent.Session.{new_session}
use codelab_ai_service.Agent.SessionRepository.{new_model}
use codelab_ai_service.Agent.Context.{Stamp, coder}
use codelab_ai_service.Agent.ContextTables.{ContextDb}
use codelab_ai_service.Agent.Orchestration.{ContextRepository, Service, switch_agent}
use codelab_ai_service.Agent.Orchestration.Events.{Answers, switch_agent-Answers}
use codelab_ai_service.Agent.Orchestration.Tables.{tables}

abbrev pub memory : ContextRepository
memory = tables 3

abbrev stamp : Stamp
stamp = record { uuid = "sw"; created = 10; switched = 11; marked = 12 }

abbrev pub one_session : ContextDb
one_session = record {
  sessions = new_model (new_session "s" 1 2) ∷ [];
  contexts = [];
  switches = [];
}

abbrev pub empty : Service memory
empty = record { store = one_session; publisher = true; published = [] }

switch_agent-Answers_example :
    Answers memory stamp "s" coder "code" empty
      (switch_agent memory "ctx" stamp "s" coder "code" none empty)
switch_agent-Answers_example = switch_agent-Answers memory "ctx" stamp "s" coder "code" none empty
