-- ===== src/Agent/Switcher.antt =====
-- agent-runtime/app/domain/services/agent_switcher.py: a switch that the user asked for. What fails ends
-- in an error of its own in the code; its cause is kept here.
use Prim.Native.String.{◌++◌}
use codelab_ai_service.Agent.Context.{AgentType, AgentContext, same_agent, value, orchestrator}
use codelab_ai_service.Agent.Orchestration.{ContextRepository, get_or_create_context}
use codelab_ai_service.Agent.Chunk.{StreamChunk}
use codelab_ai_service.Agent.Switching.{
  Services, SwitchReads, HelperError, execute_agent_switch, create_agent_switched_chunk, replied,
}
use codelab_ai_service.Prelude.Json.{text}
use codelab_ai_service.Prelude.{
  Option, String, get_or, if◌then◌else◌, inl, inr, none, some, true, ◌⊎◌,
}

-- f"User requested switch to {target_agent.value}"
abbrev pub default_reason : AgentType → String
default_reason target = "User requested switch to " ++ value target

module _ (repo : ContextRepository) where
  -- The chunk that tells of the switch, after it.
  abbrev pub told_of :
      StreamChunk
      → (HelperError ⊎ AgentContext) × Services repo
      → (HelperError ⊎ StreamChunk) × Services repo
  told_of chunk (inl e, w) = (inl e, w)
  told_of chunk (inr c, w) = (inr chunk, w)

  -- A switch to the agent that works already is told of, and changes nothing.
  unfoldable pub switch_from :
      SwitchReads
      → String
      → AgentType
      → String
      → String
      → (HelperError ⊎ AgentContext) × Services repo
      → (HelperError ⊎ StreamChunk) × Services repo
  switch_from reads session_id target why confidence (inl e, w) = (inl e, w)
  switch_from reads session_id target why confidence (inr context, w) =
      let chunk =
        create_agent_switched_chunk context.current_agent target why (text confidence) true in
      if same_agent context.current_agent target
      then (inr chunk, w)
      else told_of chunk (execute_agent_switch repo reads session_id target why (some confidence) w)

  unfoldable pub switch_by_user :
      SwitchReads
      → String
      → AgentType
      → Option String
      → String
      → Services repo
      → (HelperError ⊎ StreamChunk) × Services repo
  unfolding switch_from value
  switch_by_user reads session_id target reason confidence w =
      switch_from reads session_id target (get_or reason (default_reason target)) confidence
        (replied repo w (get_or_create_context repo reads.uuid session_id orchestrator w.contexts))

  -- What it raised, if anything.
  abbrev pub reset_answer :
      (HelperError ⊎ AgentContext) × Services repo → Option HelperError × Services repo
  reset_answer (inl e, w) = (some e, w)
  reset_answer (inr c, w) = (none, w)

  unfoldable pub reset_session :
      SwitchReads → String → Services repo → Option HelperError × Services repo
  reset_session reads session_id w =
      reset_answer
        (execute_agent_switch repo reads session_id orchestrator "Session reset" (some "high") w)
