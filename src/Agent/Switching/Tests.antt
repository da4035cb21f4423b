-- ===== src/Agent/Switching/Tests.antt =====
-- A request to switch at concrete services.
use codelab_ai_service.Prelude.Json.{text}
use codelab_ai_service.Agent.Context.{AgentContext, coder, ask, new_context}
use codelab_ai_service.Agent.Orchestration.{get_or_create_context}
use codelab_ai_service.Agent.Orchestration.Tests.{memory, empty}
use codelab_ai_service.Agent.Session.{Session, new_session}
use codelab_ai_service.Agent.SessionRepository.{
  new_model, find_by_id, to_entity, select_messages, messages_of,
}
use codelab_ai_service.Prelude.Sorting.{sort_by}
use codelab_ai_service.Agent.SessionManagement.{get_session}
use codelab_ai_service.Agent.Chunk.{StreamChunk, new_chunk, switch_agent}
use codelab_ai_service.Agent.Switching.{
  Services, SwitchReads, HelperError, create_agent_switched_chunk, handle_agent_switch_request,
}
use codelab_ai_service.Prelude.{false, inr, lookup, some, true, ◌∷◌, ◌≡◌, ◌⊎◌, [], insert, refl}

abbrev pub services : Services memory
services = record {
  sessions = record {
    db = record { sessions = new_model (new_session "s" 1 2) ∷ []; messages = [] };
    publisher = false;
    published = [];
  };
  contexts = empty;
}

abbrev pub reads : SwitchReads
reads = record {
  posted = record { uuid = "m"; created = 3; active = 4; marked = 5 };
  uuid = "x";
  stamp = record { uuid = "sw"; created = 10; switched = 11; marked = 12 };
}

abbrev pub request : StreamChunk
request = record (new_chunk switch_agent true) {
  metadata = some (("target_agent", text "coder") ∷ []);
}

abbrev pub current : AgentContext
current = new_context "c" "s" ask

abbrev pub answer : (HelperError ⊎ (AgentContext × StreamChunk)) × Services memory
answer = handle_agent_switch_request memory (λ j. []) reads "s" request current services

abbrev pub made : AgentContext
made = new_context "x" "s" coder

abbrev pub note : StreamChunk
note = create_agent_switched_chunk ask coder "Agent requested switch" (text "medium") false

pub answered : answer ≡ (inr (made, note), answer.1)
unfolding handle_agent_switch_request lookup get_session find_by_id to_entity select_messages
    messages_of sort_by codelab_ai_service.Agent.Orchestration.switch_agent get_or_create_context
    insert create_agent_switched_chunk codelab_ai_service.Agent.Session.get_history_for_llm
    codelab_ai_service.Agent.ContextTables.find_by_session_id
    codelab_ai_service.Agent.ContextTables.save_context
answered = refl
