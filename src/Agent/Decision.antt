-- ===== src/Agent/Decision.antt =====
-- agent-runtime/app/domain/services/hitl_decision_handler.py: the decision of a user on the call of a
-- tool. The handler imports `HITLDecision` from models/hitl_models, a module that the repository does not
-- have: what the import gives, if it succeeds, is an argument. `parse_decision` is the enum of that name
-- in agent-runtime/app/domain/entities/hitl.py. `dumps` is `json.dumps`.
pub mod Deciding
mod Tests
use codelab_ai_service.Prelude.Json.{Json, text, object, no_members, object_of}
use codelab_ai_service.Agent.Orchestration.{ContextRepository}
use codelab_ai_service.Agent.Approvals.{PendingApprovalState, get_pending}
use codelab_ai_service.Agent.Approvals.Manager.{Manager, approve, reject}
use codelab_ai_service.Agent.SessionManagement.{
  SessionError, Done, Posted, Draft, returned, failed, add_message,
}
use codelab_ai_service.Agent.Message.{Message}
use codelab_ai_service.Agent.Chunk.{StreamChunk, error_chunk}
use codelab_ai_service.Agent.Registry.{AgentRegistry}
use codelab_ai_service.Agent.Switching.{Services}
use codelab_ai_service.Agent.Processing.{Agent, ProcessReads, Processed, process}
use codelab_ai_service.Prelude.{
  Dict, Option, String, Text, codes, get_or, if◌then◌else◌, is_truthy, lookup, none, some, str_eq,
  ℕ, ◌++◌, ◌∷◌, [],
}

pub data HitlDecision : Type 0 where
  approval edit rejection : HitlDecision

-- `HITLDecision(decision)`
unfoldable pub parse_decision : String → Option HitlDecision
parse_decision s =
    if str_eq s "approve"
    then some approval
    else if str_eq s "edit"
    then some edit
    else if str_eq s "reject"
    then some rejection
    else none

abbrev pub arguments_of : PendingApprovalState → Json
arguments_of a = get_or (lookup "arguments" a.details) (object no_members)

-- `modified_arguments or arguments`: an empty dictionary is not true.
abbrev pub edited : Option (Dict Json) → Json → Json
edited none arguments = arguments
edited (some []) arguments = arguments
edited (some (x ∷ d)) arguments = object_of (x ∷ d)

unfoldable pub process_decision :
    HitlDecision → String → Json → Option (Dict Json) → Option String → Json
process_decision approval tool_name arguments modified feedback =
    object_of
      (("status", text "approved") ∷ ("tool_name", text tool_name) ∷ ("arguments", arguments) ∷ [])
process_decision edit tool_name arguments modified feedback = object_of (
    ("status", text "approved_with_edits")
    ∷ ("tool_name", text tool_name)
    ∷ ("arguments", edited modified arguments)
    ∷ [])
process_decision rejection tool_name arguments modified feedback = object_of (
    ("status", text "rejected")
    ∷ ("tool_name", text tool_name)
    ∷ (
      "feedback",
      text (if is_truthy feedback then get_or feedback "" else "User rejected this operation"),
    )
    ∷ [])

-- The status of the request.
unfoldable pub settle_decision : HitlDecision → ℕ → String → Option String → Manager → Manager
settle_decision rejection now id feedback m = (reject now id feedback m).1
settle_decision approval now id feedback m = (approve now id m).1
settle_decision edit now id feedback m = (approve now id m).1

abbrev pub result_draft : String → String → Text → Draft
result_draft call_id tool_name content = record {
  role = "tool";
  content = content;
  name = some tool_name;
  tool_call_id = some call_id;
  tool_calls = none;
}

module _ (repo : ContextRepository) where
  -- The answer: the import raised, one chunk and nothing changed, what the session service raised with the manager as it
  -- is by then, or the processing that goes on.
  pub data Decided : Type 0 where
    not_imported : Decided
    declined : StreamChunk → Decided
    interrupted : SessionError → Manager → Decided
    continued : Manager → Processed repo → Decided

  -- What follows the recording of the decision in the history.
  unfoldable pub carry_on :
      (Json → Text)
      → AgentRegistry (Agent repo)
      → ProcessReads
      → String
      → Manager
      → Services repo
      → Done Message
      → Decided
  carry_on dumps agents reads session_id m w (failed e) = interrupted e m
  carry_on dumps agents reads session_id m w (returned message s) =
      continued m
        (process repo dumps agents session_id (some []) none reads (record w { sessions = s }))

  unfoldable pub decide_pending :
      (Json → Text)
      → AgentRegistry (Agent repo)
      → ProcessReads
      → ℕ
      → Posted
      → String
      → String
      → HitlDecision
      → Option (Dict Json)
      → Option String
      → PendingApprovalState
      → Manager
      → Services repo
      → Decided
  unfolding carry_on process_decision settle_decision
  decide_pending dumps agents reads now posted session_id call_id d modified feedback a m w =
      let result = process_decision d a.subject (arguments_of a) modified feedback in
      let m' = settle_decision d now call_id feedback m in
      carry_on dumps agents reads session_id m' w
        (add_message posted session_id (result_draft call_id a.subject (dumps result)) w.sessions)

  unfoldable pub handle_decision :
      Option (String → Option HitlDecision)
      → (Json → Text)
      → AgentRegistry (Agent repo)
      → ProcessReads
      → ℕ
      → Posted
      → String
      → String
      → String
      → Option (Dict Json)
      → Option String
      → Manager
      → Services repo
      → Decided
  unfolding decide_pending
  handle_decision none dumps agents reads now posted session_id call_id decision modified feedback m
        w =
      not_imported
  handle_decision (some parse) dumps agents reads now posted session_id call_id decision modified
        feedback m w =
      elim (parse decision) [
        | none ↦ declined (error_chunk (codes "Invalid HITL decision: " ++ codes decision))
        | some d ↦ elim (get_pending call_id m.rows) [
          | none ↦
              declined
                (error_chunk (codes "No pending approval found for request_id=" ++ codes call_id))
          | some a ↦
              decide_pending dumps agents reads now posted session_id call_id d modified feedback a
                m w
        ]
      ]
