-- ===== src/Agent/StreamHandler/Tests.antt =====
-- The handler of answers at concrete inputs.
use codelab_ai_service.Prelude.Json.{Json}
use codelab_ai_service.Agent.Message.{LlmMessage, is_valid_content, parse_role}
use codelab_ai_service.Agent.Session.{
  new_session, set_title_from_message, add_message as add_to_session,
}
use codelab_ai_service.Agent.SessionRepository.{
  save, new_model, message_row, find_by_id, put_model, add_messages, messages_of, to_entity,
  select_messages,
}
use codelab_ai_service.Agent.Approvals.{get_pending, save_pending}
use codelab_ai_service.Agent.Approvals.Manager.{add_pending}
use codelab_ai_service.Agent.SessionManagement.{
  SessionError, add_message, get_session, message_from,
}
use codelab_ai_service.Agent.Hitl.{default_hitl_policy, requires_approval, matches_pattern}
use codelab_ai_service.Agent.Llm.{LlmResponse, ToolCall, process_response, to_dict}
use codelab_ai_service.Prelude.{
  ap, Dict, List, String, Text, codes, false, inr, is_some, is_space, none, refl, some, strip, true,
  ◌∷◌, ◌≡◌, ◌⊎◌, [],
}
use codelab_ai_service.Agent.Chunk.{StreamChunk, new_chunk, tool_call, is_tool_call}
use codelab_ai_service.Agent.Tools.{ToolSpec, filter_tools}
use codelab_ai_service.Agent.StreamHandler.{
  Runtime, Moment, handle, handle_tool_call, current_agent,
}
use codelab_ai_service.Agent.StreamHandler.Approving.{handle-pending}
use codelab_ai_service.Prelude.Sorting.{sort_by}

abbrev runtime : Runtime
runtime = record {
  service = record {
    db = record { sessions = new_model (new_session "s" 1 2) ∷ []; messages = [] };
    publisher = false;
    published = [];
  };
  manager = record { rows = []; events = [] };
  events = [];
}

abbrev call : ToolCall
call = record { id = "c"; tool_name = "write_file"; arguments = [] }

abbrev chat : List LlmMessage → List ToolSpec → Text ⊎ LlmResponse
chat history tools = inr (record {
  content = [];
  tool_calls = call ∷ call ∷ [];
  usage = record { prompt_tokens = 1; completion_tokens = 2; total_tokens = 3 };
  model = "m";
  finish_reason = none;
})

abbrev moment : Moment
moment = record {
  requested = 7;
  posted = record { uuid = "a"; created = 8; active = 9; marked = 10 };
  duration = 11;
}

abbrev dumps : Dict Json → String
dumps d = "{}"

abbrev show : SessionError → Text
show e = []

abbrev answer : StreamChunk × Runtime
answer = handle dumps show chat default_hitl_policy moment "s" [] "m" none runtime

abbrev write_chunk : StreamChunk
write_chunk = record (new_chunk tool_call true) {
  call_id = some "c";
  tool_name = some "write_file";
  arguments = some [];
  requires_approval = some true;
}

answered : answer.0 ≡ write_chunk
unfolding handle handle_tool_call process_response requires_approval matches_pattern add_message
    get_session message_from find_by_id to_entity select_messages messages_of sort_by parse_role
    is_valid_content add_to_session set_title_from_message save put_model add_messages message_row
    add_pending save_pending strip codelab_ai_service.Prelude.is_space current_agent to_dict
    filter_tools
answered = refl

dangerous : (requires_approval default_hitl_policy (codes "write_file")).0 ≡ true
unfolding requires_approval matches_pattern
dangerous = refl

handle-pending_example :
    (answer.0.requires_approval ≡ some true)
    × (is_some (get_pending "c" answer.1.manager.rows) ≡ true)
handle-pending_example =
    handle-pending dumps show chat default_hitl_policy moment "s" [] "m" none runtime answer.1
      answer.0 "write_file" "c" refl (ap (λ (c : StreamChunk). is_tool_call c) answered)
      (ap (λ (c : StreamChunk). c.tool_name) answered)
      (ap (λ (c : StreamChunk). c.call_id) answered) dangerous refl
