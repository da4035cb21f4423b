-- ===== src/Agent/StreamHandler.antt =====
-- agent-runtime/app/application/handlers/stream_llm_response_handler.py: a request to the language
-- model, its answer put into the session, and the chunk for the client. The client of the model is an
-- argument, which answers a response or raises with a text. So are the clock, `uuid4`, `json.dumps` and
-- `str` of an error. The events are those of agent-runtime/app/infrastructure/events/
-- llm_event_publisher.py, in the order of publication.
pub mod Approving
mod Tests
use codelab_ai_service.Agent.Llm.{
  ToolCall, LlmResponse, ProcessedResponse, TokenUsage, process_response, to_dict,
  get_first_tool_call,
}
use codelab_ai_service.Prelude.Json.{Json, object_of}
use codelab_ai_service.Agent.Message.{LlmMessage}
use codelab_ai_service.Agent.Approvals.{Request}
use codelab_ai_service.Agent.Approvals.Manager.{Manager, add_pending}
use codelab_ai_service.Agent.SessionManagement.{
  SessionService, SessionError, Posted, Draft, returned, failed, add_message,
}
use codelab_ai_service.Agent.Hitl.{HitlPolicy}
use codelab_ai_service.Agent.Tools.{filter_tools, tools_spec, ToolSpec}
use codelab_ai_service.Agent.Chunk.{
  StreamChunk, new_chunk, error_chunk, tool_call, assistant_message,
}
use codelab_ai_service.Prelude.{
  Bool, Dict, List, Option, String, Text, false, get_or, if◌then◌else◌, inl, inr, is_truthy, length,
  none, some, str_eq, true, ℕ, ◌&&◌, ◌++◌, ◌∷◌, ◌⊎◌, [],
}

pub data LlmEvent : Type 0 where
  request_started : String → String → ℕ → ℕ → LlmEvent
  tool_execution_requested : String → ToolCall → String → LlmEvent
  tool_approval_required : String → ToolCall → String → LlmEvent
  request_completed : String → String → ℕ → TokenUsage → Bool → LlmEvent
  request_failed : String → String → Text → LlmEvent

-- The services that the handler works on, and what it published.
pub record Runtime : Type 0 where
  pub service : SessionService
  pub manager : Manager
  pub events : List LlmEvent

abbrev pub emit : LlmEvent → Runtime → Runtime
emit e w = record w { events = w.events ++ e ∷ [] }

-- What one call reads of the clock and of `uuid4`.
pub record Moment : Type 0 where
  pub requested : ℕ
  pub posted : Posted
  pub duration : ℕ

-- The name of the last message of an assistant that has one.
unfoldable pub current_agent : List LlmMessage → Option String
current_agent [] = none
current_agent (m ∷ history) = elim (current_agent history) [
  | some name ↦ some name
  | none ↦ if str_eq (get_or m.role "") "assistant" && is_truthy m.name then m.name else none
]

abbrev pub tool_draft : (Dict Json → String) → ToolCall → Draft
tool_draft dumps call = record {
  role = "assistant";
  content = [];
  name = none;
  tool_call_id = none;
  tool_calls = some (to_dict dumps call ∷ []);
}

abbrev pub text_draft : Text → Draft
text_draft content = record {
  role = "assistant";
  content = content;
  name = none;
  tool_call_id = none;
  tool_calls = none;
}

abbrev pub approval_request : String → ToolCall → ProcessedResponse → Request
approval_request session_id call p = record {
  request_id = call.id;
  request_type = "tool";
  subject = call.tool_name;
  session_id = session_id;
  details = ("arguments", object_of call.arguments) ∷ [];
  reason = p.approval_reason;
}

-- The chunk of a tool call, and that of a message.
abbrev pub tool_chunk : ToolCall → ProcessedResponse → StreamChunk
tool_chunk call p = record (new_chunk tool_call true) {
  call_id = some call.id;
  tool_name = some call.tool_name;
  arguments = some call.arguments;
  requires_approval = some p.requires_approval;
}

abbrev pub message_chunk : Text → StreamChunk
message_chunk content = record (new_chunk assistant_message true) {
  content = some content;
  token = some content;
}

-- The end of both branches: the message is put into the session, then the completion is published.
-- What it raises stands beside what was done before.
abbrev pub complete :
    Moment
    → String
    → Draft
    → ProcessedResponse
    → Bool
    → StreamChunk
    → Runtime
    → (SessionError ⊎ StreamChunk) × Runtime
complete moment session_id d p calls chunk w =
    elim (add_message moment.posted session_id d w.service) [
      | failed e ↦ (inl e, w)
      | returned m service ↦ (
        inr chunk,
        emit (request_completed session_id p.model moment.duration p.usage calls)
            (record w { service = service }),
      )
    ]

-- The request for approval of a call that needs one, and the event about it.
abbrev pub ask_approval : Moment → String → ToolCall → ProcessedResponse → Runtime → Runtime
ask_approval moment session_id call p w =
    if p.requires_approval
    then emit
        (tool_approval_required session_id call
          (if is_truthy p.approval_reason then get_or p.approval_reason "" else "Unknown"))
        (record w {
          manager = add_pending moment.requested (approval_request session_id call p) w.manager;
        })
    else w

unfoldable pub handle_tool_call :
    (Dict Json → String)
    → Moment
    → String
    → ToolCall
    → ProcessedResponse
    → List LlmMessage
    → Runtime
    → (SessionError ⊎ StreamChunk) × Runtime
unfolding current_agent
handle_tool_call dumps moment session_id call p history w =
    let agent = get_or (current_agent history) "unknown" in
    let asked =
      ask_approval moment session_id call p
        (emit (tool_execution_requested session_id call agent) w) in
    complete moment session_id (tool_draft dumps call) p true (tool_chunk call p) asked

unfoldable pub handle_assistant_message :
    Moment → String → ProcessedResponse → Runtime → (SessionError ⊎ StreamChunk) × Runtime
handle_assistant_message moment session_id p w =
    complete moment session_id (text_draft p.content) p false (message_chunk p.content) w

-- The branch that the processed answer takes.
abbrev pub handle_processed :
    (Dict Json → String)
    → Moment
    → String
    → ProcessedResponse
    → List LlmMessage
    → Runtime
    → (SessionError ⊎ StreamChunk) × Runtime
handle_processed dumps moment session_id p history w = elim (get_first_tool_call p.tool_calls) [
  | some call ↦ handle_tool_call dumps moment session_id call p history w
  | none ↦ handle_assistant_message moment session_id p w
]

-- The `except` clause.
abbrev pub report : String → String → Text → Runtime → StreamChunk × Runtime
report session_id model message w =
    (error_chunk message, emit (request_failed session_id model message) w)

abbrev pub conclude :
    (SessionError → Text)
    → String
    → String
    → (SessionError ⊎ StreamChunk) × Runtime
    → StreamChunk × Runtime
conclude show session_id model (inl e, w) = report session_id model (show e) w
conclude show session_id model (inr chunk, w) = (chunk, w)

-- The handler yields one chunk.
unfoldable pub handle :
    (Dict Json → String)
    → (SessionError → Text)
    → (List LlmMessage → List ToolSpec → Text ⊎ LlmResponse)
    → HitlPolicy
    → Moment
    → String
    → List LlmMessage
    → String
    → Option (List String)
    → Runtime
    → StreamChunk × Runtime
unfolding handle_tool_call handle_assistant_message process_response
handle dumps show chat policy moment session_id history model allowed w =
    let tools = filter_tools tools_spec allowed in
    let begun = emit (request_started session_id model (length history) (length tools)) w in
    elim (chat history tools) [
      | inl message ↦ report session_id model message begun
      | inr response ↦ conclude show session_id model (
          handle_processed dumps moment session_id (process_response policy response) history begun)
    ]
