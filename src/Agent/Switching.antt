-- ===== src/Agent/Switching.antt =====
-- agent-runtime/app/domain/services/helpers/agent_switch_helper.py: a switch of agents that an agent
-- asked for, with the result of its call of `switch_mode` in the session. The repository of contexts is
-- that of the orchestration service.
pub mod Consistency
pub mod Tests
use codelab_ai_service.Prelude.Json.{Json, text, null, get_member}
use codelab_ai_service.Agent.Context.{
  AgentType, AgentContext, Stamp, SwitchError, value, coder, architect, debug, ask, universal,
  orchestrator,
}
use codelab_ai_service.Agent.Orchestration.{
  ContextRepository, Service, Reply, switch_agent, ok, raised, unavailable,
}
use codelab_ai_service.Agent.Message.{LlmMessage}
use codelab_ai_service.Agent.Session.{Session, get_history_for_llm}
use codelab_ai_service.Agent.SessionManagement.{
  SessionService, SessionError, Posted, returned, failed, get_session, add_tool_result, plain,
}
use codelab_ai_service.Agent.Chunk.{StreamChunk, new_chunk, agent_switched}
use codelab_ai_service.Prelude.{
  Bool, List, Option, String, Text, codes, false, find, get_or, if◌then◌else◌, inl, inr, is_truthy,
  lookup, none, some, str_eq, ◌++◌, ◌∷◌, ◌⊎◌, [],
}

-- `AgentType(value)`: `none` is the `ValueError`.
abbrev pub parse_agent : Json → Option AgentType
parse_agent (text s) =
    if str_eq s "orchestrator"
    then some orchestrator
    else if str_eq s "coder"
    then some coder
    else if str_eq s "architect"
    then some architect
    else if str_eq s "debug"
    then some debug
    else if str_eq s "ask"
    then some ask
    else if str_eq s "universal"
    then some universal
    else none
parse_agent _ = none

-- tc.get("function", {}).get("name") == "switch_mode", and tc.get("id") as a text.
abbrev pub is_switch_call : Json → Bool
is_switch_call call = elim (get_member "function" call) [
  | none ↦ false
  | some f ↦ elim (get_member "name" f) [ some (text name) ↦ str_eq name "switch_mode" | _ ↦ false ]
]

abbrev pub call_id_of : Json → Option String
call_id_of call = elim (get_member "id" call) [ some (text id) ↦ some id | _ ↦ none ]

-- The search in one message: the first call of `switch_mode`.
abbrev pub call_in : LlmMessage → Option Json
call_in m =
    if str_eq (get_or m.role "") "assistant"
    then find is_switch_call (get_or m.tool_calls [])
    else none

-- The messages from the end: the call of the last message that has one.
unfoldable pub last_switch_call : List LlmMessage → Option Json
last_switch_call [] = none
last_switch_call (m ∷ history) = elim (last_switch_call history) [
  | some call ↦ some call
  | none ↦ call_in m
]

unfoldable pub find_switch_mode_call_id : Session → Option String
unfolding last_switch_call
find_switch_mode_call_id session = elim (last_switch_call (get_history_for_llm none session)) [
  | none ↦ none
  | some call ↦ call_id_of call
]

-- What the helper raises.
pub data HelperError : Type 0 where
  session_error : SessionError → HelperError
  switch_error : SwitchError → HelperError
  bad_request : HelperError
  repository_error : HelperError

unfoldable pub create_agent_switched_chunk :
    AgentType → AgentType → String → Json → Bool → StreamChunk
create_agent_switched_chunk from to reason confidence final =
    record (new_chunk agent_switched final) {
      content = some (codes "Switched to " ++ codes (value to) ++ codes " agent");
      metadata = some (
          ("from_agent", text (value from))
          ∷ ("to_agent", text (value to))
          ∷ ("reason", text reason)
          ∷ ("confidence", confidence)
          ∷ []);
    }

-- The parameters of a request: a missing entry has its default, and one of a wrong type raises.
pub record SwitchRequest : Type 0 where
  pub target : AgentType
  pub reason : String
  pub confidence : Option String

abbrev pub as_confidence : Json → Option (Option String)
as_confidence (text s) = some (some s)
as_confidence null = some none
as_confidence _ = none

abbrev pub switch_request : StreamChunk → Option SwitchRequest
switch_request chunk = elim chunk.metadata [
  | none ↦ none
  | some m ↦ elim (parse_agent (get_or (lookup "target_agent" m) null)) [
    | none ↦ none
    | some target ↦ elim (get_or (lookup "reason" m) (text "Agent requested switch")) [
      | text reason ↦ elim (as_confidence (get_or (lookup "confidence" m) (text "medium"))) [
        | none ↦ none
        | some confidence ↦
            some (record { target = target; reason = reason; confidence = confidence })
      ]
      | _ ↦ none
    ]
  ]
]

-- What a switch reads of the clock and of `uuid4`.
pub record SwitchReads : Type 0 where
  pub posted : Posted
  pub uuid : String
  pub stamp : Stamp

abbrev pub confidence_json : Option String → Json
confidence_json none = null
confidence_json (some s) = text s

module _ (repo : ContextRepository) where
  -- The services of sessions and of contexts.
  pub record Services : Type 0 where
    pub sessions : SessionService
    pub contexts : Service repo

  -- The answer of the orchestration service; what it raises goes on.
  abbrev pub replied : Services → Reply × Service repo → (HelperError ⊎ AgentContext) × Services
  replied w (ok c, contexts) = (inr c, record w { contexts = contexts })
  replied w (raised e, contexts) = (inl (switch_error e), record w { contexts = contexts })
  replied w (unavailable, contexts) = (inl repository_error, record w { contexts = contexts })

  unfoldable pub execute_agent_switch :
      SwitchReads
      → String
      → AgentType
      → String
      → Option String
      → Services
      → (HelperError ⊎ AgentContext) × Services
  execute_agent_switch reads session_id target reason confidence w =
      replied w
        (switch_agent repo reads.uuid reads.stamp session_id target reason confidence w.contexts)

  -- The result of the call, when there is a call to answer.
  unfoldable pub add_switch_mode_tool_result :
      (Json → Text)
      → SwitchReads
      → String
      → Option String
      → AgentType
      → SessionService
      → SessionError ⊎ SessionService
  add_switch_mode_tool_result dumps reads session_id call_id target s =
      if is_truthy call_id
      then elim (add_tool_result dumps reads.posted session_id (get_or call_id "")
          (some (plain (codes "Switched to " ++ codes (value target) ++ codes " agent"))) none s) [
            | returned m s' ↦ inr s'
            | failed e ↦ inl e
          ]
      else inr s

  -- The chunk that tells of a switch, or what the switch raised.
  abbrev pub notify :
      AgentType
      → SwitchRequest
      → (HelperError ⊎ AgentContext) × Services
      → (HelperError ⊎ (AgentContext × StreamChunk)) × Services
  notify from q (inl e, w) = (inl e, w)
  notify from q (inr c, w) = (
    inr (
      c,
      create_agent_switched_chunk from q.target q.reason (confidence_json q.confidence) false,
    ),
    w,
  )

  unfoldable pub handle_agent_switch_request :
      (Json → Text)
      → SwitchReads
      → String
      → StreamChunk
      → AgentContext
      → Services
      → (HelperError ⊎ (AgentContext × StreamChunk)) × Services
  unfolding execute_agent_switch add_switch_mode_tool_result find_switch_mode_call_id
  handle_agent_switch_request dumps reads session_id chunk current w = elim (switch_request chunk) [
    | none ↦ (inl bad_request, w)
    | some q ↦ elim (get_session session_id w.sessions) [
      | inl e ↦ (inl (session_error e), w)
      | inr session ↦
          elim (add_switch_mode_tool_result dumps reads session_id
            (find_switch_mode_call_id session) q.target w.sessions) [
              | inl e ↦ (inl (session_error e), w)
              | inr s ↦ notify current.current_agent q (
                  execute_agent_switch reads session_id q.target q.reason q.confidence
                    (record w { sessions = s }))
            ]
    ]
  ]
