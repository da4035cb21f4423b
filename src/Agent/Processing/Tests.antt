-- ===== src/Agent/Processing/Tests.antt =====
-- An agent that talks, asks for the coder and would go on: what the user gets.
use codelab_ai_service.Agent.Context.{coder, ask}
use codelab_ai_service.Agent.Orchestration.Tests.{memory}
use codelab_ai_service.Agent.Chunk.{StreamChunk, new_chunk, assistant_message}
use codelab_ai_service.Agent.Registry.{AgentRegistry, get_agent}
use codelab_ai_service.Agent.Session.{Session, new_session}
use codelab_ai_service.Agent.SessionManagement.{get_session}
use codelab_ai_service.Agent.SessionRepository.{find_by_id, to_entity, select_messages, messages_of}
use codelab_ai_service.Agent.Switching.{SwitchRequest, Services, switch_request}
use codelab_ai_service.Agent.Switching.Tests.{
  services, reads, request, current, answer, answered, made, note,
}
use codelab_ai_service.Agent.Processing.{Agent, ProcessReads, ended, yielded, watch}
use codelab_ai_service.Agent.Processing.Handover.{starting, watch-hands_over}
use codelab_ai_service.Prelude.Sorting.{sort_by}
use codelab_ai_service.Prelude.{lookup, true, inr, none, refl, some, ◌∷◌, ◌≡◌, []}

abbrev talk : StreamChunk
talk = new_chunk assistant_message true

abbrev talker : Agent memory
talker message context session w = yielded talk w (ended w)

abbrev agents : AgentRegistry (Agent memory)
agents = (ask, λ message context session w. ended w) ∷ (coder, talker) ∷ []

abbrev process_reads : ProcessReads
process_reads = record {
  posted = reads.posted;
  birth = record { uuid = "b"; created = 1; active = 2 };
  uuid = "c";
  explicit = reads;
  routed = reads;
  asked = reads;
}

abbrev wanted : SwitchRequest
wanted = record { target = coder; reason = "Agent requested switch"; confidence = some "medium" }

abbrev session : Session
session = record (new_session "s" 1 2) { updated_at = some 2 }

wanted_agent : switch_request request ≡ some wanted
unfolding lookup
wanted_agent = refl

there : get_session "s" (answer.1).sessions ≡ inr session
unfolding get_session find_by_id to_entity select_messages messages_of sort_by lookup
    codelab_ai_service.Agent.Switching.handle_agent_switch_request
    codelab_ai_service.Agent.Session.get_history_for_llm
    codelab_ai_service.Agent.Orchestration.switch_agent
    codelab_ai_service.Agent.ContextTables.find_by_session_id
    codelab_ai_service.Agent.ContextTables.save_context
there = refl

registered : get_agent coder agents ≡ some talker
unfolding get_agent codelab_ai_service.Agent.Context.same_agent
registered = refl

watch-hands_over_example :
    watch memory
      (λ j. [])
      agents
      "s"
      none
      none
      process_reads
      current
      (starting memory
        ((talk, services) ∷ [])
        (yielded request services (yielded talk services (ended services))))
    ≡ record { chunks = talk ∷ note ∷ talk ∷ []; raised = none; services = answer.1 }
unfolding codelab_ai_service.Agent.Processing.Handover.chunks_in
    codelab_ai_service.Agent.Processing.Handover.breaking
    codelab_ai_service.Agent.Processing.Handover.end_of
    codelab_ai_service.Agent.Processing.Handover.AreQuiet
watch-hands_over_example =
    watch-hands_over memory (λ j. []) agents "s" none none process_reads current
      ((talk, services) ∷ []) request note services answer.1
      (yielded talk services (ended services)) wanted made session talker (refl, tt) refl
      wanted_agent answered there registered
