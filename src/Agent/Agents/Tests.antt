-- ===== src/Agent/Agents/Tests.antt =====
-- Agents at concrete streams.
use codelab_ai_service.Prelude.Json.{Json, text}
use codelab_ai_service.Agent.Context.{architect}
use codelab_ai_service.Agent.Session.{new_session}
use codelab_ai_service.Agent.Chunk.{StreamChunk, new_chunk, tool_call, error_chunk}
use codelab_ai_service.Agent.Tools.{is_among}
use codelab_ai_service.Agent.Agents.{
  process, agent_of, relay, architect_check, can_use_tool, can_edit_file, match_file, is_line,
  architect_refusal,
}
use codelab_ai_service.Agent.Agents.Checks.{is_within}
use codelab_ai_service.Agent.Agents.Restrictions.{process-is_within}
use codelab_ai_service.Prelude.{
  All, List, String, Text, codes, false, lookup, refl, some, true, ◌∷◌, ◌≡◌, [],
}

abbrev show : Json → Text
show (text s) = codes s
show _ = []

abbrev write : String → StreamChunk
write path = record (new_chunk tool_call true) {
  tool_name = some "write_file";
  call_id = some "c";
  arguments = some (("path", text path) ∷ []);
}

abbrev streamed : List StreamChunk
streamed = write "notes.md" ∷ write "main.py" ∷ write "more.md" ∷ []

process-is_within_example :
    All
      (λ c. is_within (agent_of architect) c ≡ true)
      (process show
        (λ history tools. streamed)
        architect
        (codes "plan")
        (new_session "s" 1 2)).chunks
process-is_within_example =
    process-is_within show (λ history tools. streamed) architect (codes "plan")
      (new_session "s" 1 2)

stopped_at_code : relay (architect_check show) streamed ≡ record {
  chunks = write "notes.md" ∷ error_chunk (architect_refusal show (text "main.py")) ∷ [];
  raised = false;
}
unfolding relay architect_check can_use_tool can_edit_file match_file is_line is_among lookup
    codelab_ai_service.Prelude.text_eq
stopped_at_code = refl
