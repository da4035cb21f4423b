-- ===== src/Agent/Agents.antt =====
-- The agents: agent-runtime/app/agents/base_agent.py, and coder_agent.py, architect_agent.py,
-- debug_agent.py, ask_agent.py and universal_agent.py beside it. What the model streams is an argument,
-- a function of the history and of the tools that are offered; `show` is what an f-string prints of a
-- value. Prompts are arguments too.
pub mod Checks
pub mod Restrictions
mod Tests
use codelab_ai_service.Prelude.Json.{Json, text}
use codelab_ai_service.Agent.Context.{
  AgentType, coder, architect, debug, ask, universal, orchestrator,
}
use codelab_ai_service.Agent.Message.{LlmMessage}
use codelab_ai_service.Agent.Session.{Session, get_history_for_llm}
use codelab_ai_service.Agent.Tools.{is_among}
use codelab_ai_service.Agent.Chunk.{
  StreamChunk, new_chunk, error_chunk, is_tool_call, calls, switch_agent,
}
use codelab_ai_service.Agent.Approvals.Policy.{ends_with}
use codelab_ai_service.Prelude.{
  Bool, List, Option, String, Text, codes, false, get_or, if◌then◌else◌, leb, length, lookup, ltb,
  none, not, some, str_eq, take, true, ℕ, ◌&&◌, ◌++◌, ◌-◌, ◌==◌, ◌||◌, ◌∷◌, [],
}

-- The regular expression `.*` with a suffix, then `$`, which also matches before a final newline.
pub data FilePattern : Type 0 where
  suffix : Text → FilePattern

abbrev pub newline : ℕ
newline = 10

unfoldable pub is_line : Text → Bool
is_line [] = true
is_line (c ∷ s) = not (c == newline) && is_line s

abbrev pub is_line_with : Text → Text → Bool
is_line_with end s = is_line s && leb (length end) (length s) && ends_with end s

-- `re.match(pattern, path)`: the path, or the path without its final newline, is a line with the end.
unfoldable pub match_file : FilePattern → Text → Bool
unfolding is_line
match_file (suffix end) path =
    is_line_with end path
    || (ends_with (newline ∷ []) path
        && ltb 0 (length path)
        && is_line_with end (take (length path - 1) path))

pub record BaseAgent : Type 0 where
  pub agent_type : AgentType
  pub allowed_tools : List String
  pub file_restrictions : List FilePattern

unfoldable pub can_use_tool : BaseAgent → String → Bool
can_use_tool agent name = is_among name agent.allowed_tools

abbrev pub matches_any : List FilePattern → Text → Bool
matches_any [] path = false
matches_any (p ∷ ps) path = match_file p path || matches_any ps path

unfoldable pub can_edit_file : BaseAgent → Text → Bool
can_edit_file agent path = elim agent.file_restrictions [
  | [] ↦ true
  | p ∷ ps ↦ matches_any (p ∷ ps) path
]

abbrev pub coder_agent : BaseAgent
coder_agent = record {
  agent_type = coder;
  allowed_tools =
      "read_file" ∷ "write_file" ∷ "list_files" ∷ "search_in_code" ∷ "create_directory"
      ∷ "execute_command" ∷ "attempt_completion" ∷ "ask_followup_question" ∷ [];
  file_restrictions = [];
}

abbrev pub architect_agent : BaseAgent
architect_agent = record {
  agent_type = architect;
  allowed_tools =
      "read_file" ∷ "write_file" ∷ "list_files" ∷ "search_in_code" ∷ "attempt_completion"
      ∷ "ask_followup_question" ∷ "switch_mode" ∷ [];
  file_restrictions = suffix (codes ".md") ∷ [];
}

abbrev pub debug_agent : BaseAgent
debug_agent = record {
  agent_type = debug;
  allowed_tools =
      "read_file" ∷ "list_files" ∷ "search_in_code" ∷ "execute_command" ∷ "attempt_completion"
      ∷ "ask_followup_question" ∷ "switch_mode" ∷ [];
  file_restrictions = [];
}

abbrev pub ask_agent : BaseAgent
ask_agent = record {
  agent_type = ask;
  allowed_tools =
      "read_file" ∷ "search_in_code" ∷ "list_files" ∷ "attempt_completion" ∷ "switch_mode" ∷ [];
  file_restrictions = [];
}

abbrev pub universal_agent : BaseAgent
universal_agent = record {
  agent_type = universal;
  allowed_tools =
      "read_file" ∷ "write_file" ∷ "list_files" ∷ "search_in_code" ∷ "create_directory"
      ∷ "execute_command" ∷ "attempt_completion" ∷ "ask_followup_question" ∷ [];
  file_restrictions = [];
}

-- What an agent does with a chunk: it passes it on, ends with another, or raises.
pub data ChunkVerdict : Type 0 where
  pass : ChunkVerdict
  stop : StreamChunk → ChunkVerdict
  raise : ChunkVerdict

-- What it has yielded, and whether it raised.
pub record Stream : Type 0 where
  pub chunks : List StreamChunk
  pub raised : Bool

-- The loop over the chunks of the model.
unfoldable pub relay : (StreamChunk → ChunkVerdict) → List StreamChunk → Stream
relay check [] = record { chunks = []; raised = false }
relay check (c ∷ cs) =
    let rest = relay check cs in
    elim (check c) [
      | pass ↦ record rest { chunks = c ∷ rest.chunks }
      | stop d ↦ record { chunks = d ∷ []; raised = false }
      | raise ↦ record { chunks = []; raised = true }
    ]

abbrev pub system_message : Text → LlmMessage
system_message prompt = record {
  role = some "system";
  content = some prompt;
  name = none;
  tool_call_id = none;
  tool_calls = none;
}

-- The system prompt, in the place of a first system message or before the history.
abbrev pub with_prompt : Text → List LlmMessage → List LlmMessage
with_prompt prompt [] = system_message prompt ∷ []
with_prompt prompt (m ∷ history) =
    if str_eq (get_or m.role "") "system"
    then record m { content = some prompt } ∷ history
    else system_message prompt ∷ m ∷ history

-- arguments.get(key, default), on a chunk: a chunk without arguments raises.
abbrev pub argument : String → Json → StreamChunk → Option Json
argument key default c = elim c.arguments [
  | none ↦ none
  | some args ↦ some (get_or (lookup key args) default)
]

-- f"Tool '{name}' " and the rest.
abbrev pub tool_error : StreamChunk → String → StreamChunk
tool_error c rest =
    error_chunk (codes "Tool '" ++ codes (get_or c.tool_name "None") ++ codes "' " ++ codes rest)

-- The chunk that asks for another agent.
abbrev pub switch_chunk : (Json → Text) → Json → Json → StreamChunk
switch_chunk show mode reason = record (new_chunk switch_agent true) {
  content = some (codes "Switching to " ++ show mode ++ codes " agent");
  metadata = some (("target_agent", mode) ∷ ("reason", reason) ∷ []);
}

-- A call of `switch_mode` becomes a request to switch.
abbrev pub ask_switch : (Json → Text) → StreamChunk → ChunkVerdict
ask_switch show c = elim (argument "mode" (text "orchestrator") c) [
  | none ↦ raise
  | some mode ↦ elim (argument "reason" (text "Agent requested switch") c) [
    | none ↦ raise
    | some reason ↦ stop (switch_chunk show mode reason)
  ]
]

abbrev pub is_allowed : BaseAgent → StreamChunk → Bool
is_allowed agent c = elim c.tool_name [ none ↦ false | some name ↦ can_use_tool agent name ]

-- The path of a call of `write_file`, checked: a path that is no text makes `re.match` raise.
abbrev pub check_path : BaseAgent → (Json → Text) → StreamChunk → ChunkVerdict
check_path agent refusal c = elim (argument "path" (text "") c) [
  | none ↦ raise
  | some (text path) ↦
      if can_edit_file agent (codes path) then pass else stop (error_chunk (refusal (text path)))
  | some value ↦ elim agent.file_restrictions [ [] ↦ pass | p ∷ ps ↦ raise ]
]

abbrev pub coder_refusal : (Json → Text) → Json → Text
coder_refusal show path =
    codes "File '" ++ show path ++ codes "' editing is restricted for Coder agent"

unfoldable pub coder_check : (Json → Text) → StreamChunk → ChunkVerdict
coder_check show c =
    if not (is_tool_call c)
    then pass
    else if not (is_allowed coder_agent c)
    then stop (tool_error c "is not allowed for Coder agent")
    else if calls c "write_file"
    then check_path coder_agent (coder_refusal show) c
    else pass

abbrev pub architect_refusal : (Json → Text) → Json → Text
architect_refusal show path =
    codes "Architect agent can only create/edit markdown (.md) files. File '"
    ++ show path
    ++ codes "' is not allowed. For code changes, please switch to Coder agent."

unfoldable pub architect_check : (Json → Text) → StreamChunk → ChunkVerdict
architect_check show c =
    if not (is_tool_call c)
    then pass
    else if calls c "switch_mode"
    then ask_switch show c
    else if not (is_allowed architect_agent c)
    then stop (tool_error c "is not allowed for Architect agent")
    else if calls c "write_file"
    then check_path architect_agent (architect_refusal show) c
    else pass

abbrev pub debug_error : StreamChunk → StreamChunk
debug_error c =
    if calls c "write_file"
    then error_chunk (
        codes
          "Debug agent cannot modify files. Debug agent can only analyze and suggest fixes. For code changes, please switch to Coder agent.")
    else tool_error c "is not allowed for Debug agent"

unfoldable pub debug_check : (Json → Text) → StreamChunk → ChunkVerdict
debug_check show c =
    if not (is_tool_call c)
    then pass
    else if calls c "switch_mode"
    then ask_switch show c
    else if not (is_allowed debug_agent c)
    then stop (debug_error c)
    else pass

abbrev pub ask_error : StreamChunk → StreamChunk
ask_error c =
    if calls c "write_file"
    then error_chunk (
        codes
          "Ask agent cannot modify files. Ask agent can only read and explain. For code changes, please switch to Coder agent.")
    else if calls c "execute_command"
    then error_chunk (
        codes
          "Ask agent cannot execute commands. For running commands, please switch to Coder or Debug agent.")
    else tool_error c "is not allowed for Ask agent"

unfoldable pub ask_check : (Json → Text) → StreamChunk → ChunkVerdict
ask_check show c =
    if not (is_tool_call c)
    then pass
    else if calls c "switch_mode"
    then ask_switch show c
    else if not (is_allowed ask_agent c)
    then stop (ask_error c)
    else pass

unfoldable pub universal_check : StreamChunk → ChunkVerdict
universal_check c =
    if not (is_tool_call c)
    then pass
    else if not (is_allowed universal_agent c)
    then stop (tool_error c "is not available")
    else pass

-- The check of each agent; the orchestrator routes, and streams nothing of the model.
abbrev pub check_of : (Json → Text) → AgentType → StreamChunk → ChunkVerdict
check_of show coder c = coder_check show c
check_of show architect c = architect_check show c
check_of show debug c = debug_check show c
check_of show ask c = ask_check show c
check_of show universal c = universal_check c
check_of show orchestrator c = raise

abbrev pub agent_of : AgentType → BaseAgent
agent_of coder = coder_agent
agent_of architect = architect_agent
agent_of debug = debug_agent
agent_of ask = ask_agent
agent_of universal = universal_agent
agent_of orchestrator = record {
  agent_type = orchestrator;
  allowed_tools = "read_file" ∷ "list_files" ∷ "search_in_code" ∷ [];
  file_restrictions = [];
}

-- The tools that the model is offered: all of them to the universal agent.
abbrev pub offered_tools : AgentType → Option (List String)
offered_tools universal = none
offered_tools type = some (agent_of type).allowed_tools

unfoldable pub process :
    (Json → Text)
    → (List LlmMessage → Option (List String) → List StreamChunk)
    → AgentType
    → Text
    → Session
    → Stream
unfolding relay coder_check architect_check debug_check ask_check universal_check
process show stream type prompt session =
    relay (check_of show type)
      (stream (with_prompt prompt (get_history_for_llm none session)) (offered_tools type))
