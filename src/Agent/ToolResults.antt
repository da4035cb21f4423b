-- ===== src/Agent/ToolResults.antt =====
-- agent-runtime/app/domain/services/tool_result_handler.py: the result of a tool, put into the session,
-- and the work that goes on with the current agent. `because` is the text of a rejection.
use codelab_ai_service.Prelude.Json.{Json}
use codelab_ai_service.Agent.Context.{AgentContext, orchestrator}
use codelab_ai_service.Agent.Orchestration.{ContextRepository, get_or_create_context}
use codelab_ai_service.Agent.Message.{user}
use codelab_ai_service.Agent.Session.{Session, get_messages_by_role}
use codelab_ai_service.Agent.Approvals.{get_pending}
use codelab_ai_service.Agent.Approvals.Manager.{Manager, approve, reject}
use codelab_ai_service.Agent.SessionManagement.{
  SessionError, returned, failed, get_session, get_or_create_session, add_tool_result, ToolResult,
}
use codelab_ai_service.Agent.Registry.{AgentRegistry, get_agent}
use codelab_ai_service.Agent.Switching.{HelperError, replied, Services, session_error}
use codelab_ai_service.Agent.Processing.{
  Agent, Outputs, ProcessReads, helper_error, not_registered, stopped, watch,
}
use codelab_ai_service.Prelude.{
  Option, String, Text, has_text, if◌then◌else◌, inl, inr, last?, none, some, ℕ, ◌⊎◌, [],
}

-- A pending request is decided by the result: an error rejects it. What the manager raises is caught.
unfoldable pub settle_pending : (Text → String) → ℕ → String → Option Text → Manager → Manager
settle_pending because now call_id error m = elim (get_pending call_id m.rows) [
  | none ↦ m
  | some a ↦ elim error [
    | none ↦ (approve now call_id m).1
    | some e ↦
        if has_text e
        then (reject now call_id (some (because e)) m).1
        else (approve now call_id m).1
  ]
]

-- The content of the last message of the user.
unfoldable pub extract_last_user_message : Session → Text
extract_last_user_message session = elim (last? (get_messages_by_role user session)) [
  | none ↦ []
  | some m ↦ m.content
]

module _ (repo : ContextRepository) (dumps : Json → Text) (agents : AgentRegistry (Agent repo))
    (session_id : String) (reads : ProcessReads) where
  abbrev fails : SessionError → Services repo → Outputs repo
  fails e w = stopped repo (some (helper_error (session_error e))) w

  -- The work goes on, without a message for the current agent.
  abbrev pub go_on : AgentContext → Services repo → Outputs repo
  go_on context w = elim (get_agent context.current_agent agents) [
    | none ↦ stopped repo (some (not_registered context.current_agent)) w
    | some agent ↦ elim (get_session session_id w.sessions) [
      | inl e ↦ fails e w
      | inr session ↦
          watch repo dumps agents session_id none (some (extract_last_user_message session)) reads
            context (agent none context session w)
    ]
  ]

  -- The result is put into the session, and the context is the one that there is.
  abbrev pub add_with :
      String
      → Option ToolResult
      → Option Text
      → (HelperError ⊎ AgentContext) × Services repo
      → Outputs repo
  add_with call_id result error (inl e, w) = stopped repo (some (helper_error e)) w
  add_with call_id result error (inr context, w) =
      elim (add_tool_result dumps reads.posted session_id call_id result error w.sessions) [
        | failed e ↦ fails e w
        | returned m s ↦ go_on context (record w { sessions = s })
      ]

  abbrev pub add_result : String → Option ToolResult → Option Text → Services repo → Outputs repo
  add_result call_id result error w =
      add_with call_id result error
        (replied repo w (get_or_create_context repo reads.uuid session_id orchestrator w.contexts))

  unfoldable pub handle_result :
      (Text → String)
      → ℕ
      → String
      → Option ToolResult
      → Option Text
      → Manager
      → Services repo
      → Manager × Outputs repo
  unfolding settle_pending
  handle_result because now call_id result error m w = (
    settle_pending because now call_id error m,
    elim (get_or_create_session reads.birth session_id w.sessions) [
      | failed e ↦ fails e w
      | returned session s ↦ add_result call_id result error (record w { sessions = s })
    ],
  )
