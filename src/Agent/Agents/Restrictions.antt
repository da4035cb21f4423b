-- ===== src/Agent/Agents/Restrictions.antt =====
-- No agent passes on a call of a tool that it may not make: agent-runtime/app/agents/*.py.
use codelab_ai_service.Prelude.Json.{Json}
use codelab_ai_service.Agent.Context.{
  AgentType, coder, architect, debug, ask, universal, orchestrator,
}
use codelab_ai_service.Agent.Message.{LlmMessage}
use codelab_ai_service.Agent.Session.{Session, get_history_for_llm}
use codelab_ai_service.Agent.Chunk.{StreamChunk, is_tool_call}
use codelab_ai_service.Agent.Agents.{
  pass, stop, process, check_of, agent_of, offered_tools, coder_check, architect_check, debug_check,
  ask_check, universal_check, with_prompt, tool_error, debug_error, ask_error, coder_refusal,
  architect_refusal, coder_agent, architect_agent, debug_agent, ask_agent, universal_agent,
}
use codelab_ai_service.Agent.Agents.Checks.{
  is_within, relay-All, allowed, allowed-pass, allowed-stop, plain-pass, plain-stop, switching-pass,
  switching-stop,
}
use codelab_ai_service.Prelude.{
  All, List, Option, String, Text, arith, false, inl, inr, none, refl, true, ◌≡◌,
}

module _ (show : Json → Text) where
  check_of-pass :
      (type : AgentType) (c : StreamChunk)
      → check_of show type c ≡ pass
      → is_within (agent_of type) c ≡ true
  unfolding coder_check architect_check debug_check ask_check universal_check
  check_of-pass coder c h =
      let wrong = tool_error c "is not allowed for Coder agent" in
      plain-pass show coder_agent (allowed coder_agent (coder_refusal show) true wrong c) c
        (allowed-pass coder_agent (coder_refusal show) true wrong c (inl refl)) h
  check_of-pass architect c h =
      let wrong = tool_error c "is not allowed for Architect agent" in
      switching-pass show architect_agent
        (allowed architect_agent (architect_refusal show) true wrong c) c
        (allowed-pass architect_agent (architect_refusal show) true wrong c (inl refl)) h
  check_of-pass debug c h =
      switching-pass show debug_agent (allowed debug_agent show false (debug_error c) c) c
        (allowed-pass debug_agent show false (debug_error c) c (inr refl)) h
  check_of-pass ask c h =
      switching-pass show ask_agent (allowed ask_agent show false (ask_error c) c) c
        (allowed-pass ask_agent show false (ask_error c) c (inr refl)) h
  check_of-pass universal c h =
      let wrong = tool_error c "is not available" in
      plain-pass show universal_agent (allowed universal_agent show false wrong c) c
        (allowed-pass universal_agent show false wrong c (inr refl)) h
  check_of-pass orchestrator c h = ground (arith, h)

  check_of-stop :
      (type : AgentType) (c d : StreamChunk)
      → check_of show type c ≡ stop d
      → is_tool_call d ≡ false
  unfolding coder_check architect_check debug_check ask_check universal_check
  check_of-stop coder c d h =
      let wrong = tool_error c "is not allowed for Coder agent" in
      plain-stop show coder_agent (allowed coder_agent (coder_refusal show) true wrong c) c d
        (allowed-stop coder_agent (coder_refusal show) true wrong c d refl) h
  check_of-stop architect c d h =
      let wrong = tool_error c "is not allowed for Architect agent" in
      switching-stop show architect_agent
        (allowed architect_agent (architect_refusal show) true wrong c) c d
        (allowed-stop architect_agent (architect_refusal show) true wrong c d refl) h
  check_of-stop debug c d h =
      switching-stop show debug_agent (allowed debug_agent show false (debug_error c) c) c d
        (allowed-stop debug_agent show false (debug_error c) c d (ground arith)) h
  check_of-stop ask c d h =
      switching-stop show ask_agent (allowed ask_agent show false (ask_error c) c) c d
        (allowed-stop ask_agent show false (ask_error c) c d (ground arith)) h
  check_of-stop universal c d h =
      let wrong = tool_error c "is not available" in
      plain-stop show universal_agent (allowed universal_agent show false wrong c) c d
        (allowed-stop universal_agent show false wrong c d refl) h
  check_of-stop orchestrator c d h = ground (arith, h)

-- Whatever the model streams, every chunk that an agent yields calls no tool, or calls a tool of
-- the list of that agent, and, when the agent has restrictions on files and the tool is write_file,
-- at a path that matches one of them.
pub process-is_within :
    (show : Json → Text) (stream : List LlmMessage → Option (List String) → List StreamChunk)
    (type : AgentType) (prompt : Text) (session : Session)
    → All (λ c. is_within (agent_of type) c ≡ true) (process show stream type prompt session).chunks
unfolding process
process-is_within show stream type prompt session =
    relay-All (agent_of type) (check_of show type) (check_of-pass show type)
      (check_of-stop show type)
      (stream (with_prompt prompt (get_history_for_llm none session)) (offered_tools type))
