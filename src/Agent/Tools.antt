-- ===== src/Agent/Tools.antt =====
-- The tools of agents: the names of agent-runtime/app/domain/services/tool_registry.py, and the filter
-- of agent-runtime/app/domain/services/tool_filter_service.py. That a tool runs here or in
-- the IDE is what the registry says.
mod Tests
pub mod Access
use codelab_ai_service.Prelude.Json.{Json, text, bool, num}
use codelab_ai_service.Prelude.Int.{pos}
use codelab_ai_service.Prelude.{
  String, Bool, List, Option, false, find, if◌then◌else◌, keep, none, not, some, str_eq, true, ◌||◌,
  ◌∷◌, [], map,
}

-- A parameter of a tool: its name, its type in JSON Schema, and its default.
pub record Parameter : Type 0 where
  pub name : String
  pub type : String
  pub default : Option Json

-- A specification, less its descriptions and the bounds of its parameters.
pub record ToolSpec : Type 0 where
  pub name : String
  pub parameters : List Parameter
  pub required : List String

abbrev pub param : String → String → Parameter
param name type = record { name = name; type = type; default = none }

abbrev pub param_or : String → String → Json → Parameter
param_or name type default = record { name = name; type = type; default = some default }

abbrev pub create_tool_spec : String → List Parameter → List String → ToolSpec
create_tool_spec name parameters required = record {
  name = name;
  parameters = parameters;
  required = required;
}

abbrev pub tools_spec : List ToolSpec
tools_spec =
    create_tool_spec "echo" (param "text" "string" ∷ []) ("text" ∷ [])
    ∷ create_tool_spec "calculator" (param "expr" "string" ∷ []) ("expr" ∷ [])
    ∷ create_tool_spec "switch_mode"
        (param "mode" "string"
          ∷ param_or "reason" "string" (text "Task requires different agent capabilities")
          ∷ [])
        ("mode" ∷ [])
    ∷ create_tool_spec "read_file"
        (param "path" "string"
          ∷ param_or "encoding" "string" (text "utf-8")
          ∷ param "start_line" "integer"
          ∷ param "end_line" "integer"
          ∷ [])
        ("path" ∷ [])
    ∷ create_tool_spec "write_file"
        (param "path" "string"
          ∷ param "content" "string"
          ∷ param_or "encoding" "string" (text "utf-8")
          ∷ param_or "create_dirs" "boolean" (bool false)
          ∷ param_or "backup" "boolean" (bool true)
          ∷ [])
        ("path" ∷ "content" ∷ [])
    ∷ create_tool_spec "list_files"
        (param "path" "string"
          ∷ param_or "recursive" "boolean" (bool false)
          ∷ param_or "include_hidden" "boolean" (bool false)
          ∷ param "pattern" "string"
          ∷ [])
        ("path" ∷ [])
    ∷ create_tool_spec "create_directory"
        (param "path" "string" ∷ param_or "recursive" "boolean" (bool true) ∷ []) ("path" ∷ [])
    ∷ create_tool_spec "execute_command"
        (param "command" "string"
          ∷ param "cwd" "string"
          ∷ param_or "timeout" "integer" (num (pos 60))
          ∷ param_or "shell" "boolean" (bool false)
          ∷ [])
        ("command" ∷ [])
    ∷ create_tool_spec "search_in_code"
        (param "query" "string"
          ∷ param_or "path" "string" (text ".")
          ∷ param "file_pattern" "string"
          ∷ param_or "case_sensitive" "boolean" (bool false)
          ∷ param_or "regex" "boolean" (bool false)
          ∷ param_or "max_results" "integer" (num (pos 100))
          ∷ [])
        ("query" ∷ [])
    ∷ []

abbrev pub local_tools : List String
local_tools = "echo" ∷ "calculator" ∷ "switch_mode" ∷ []

-- `name in names`
unfoldable pub is_among : String → List String → Bool
is_among name [] = false
is_among name (n ∷ names) = str_eq n name || is_among name names

abbrev pub is_local_tool : String → Bool
is_local_tool name = is_among name local_tools

unfoldable pub get_tool_spec : List ToolSpec → String → Option ToolSpec
get_tool_spec tools name = find (λ (tool : ToolSpec). str_eq tool.name name) tools

abbrev pub names_of : List ToolSpec → List String
names_of tools = map (λ (tool : ToolSpec). tool.name) tools

-- The registry is an argument; `none` is no filter.
unfoldable pub filter_tools : List ToolSpec → Option (List String) → List ToolSpec
filter_tools tools none = tools
filter_tools tools (some allowed) = keep (λ (tool : ToolSpec). is_among tool.name allowed) tools

-- The names that the filter warns about.
unfoldable pub unknown_tools : List ToolSpec → List String → List String
unknown_tools tools allowed = keep (λ name. not (is_among name (names_of tools))) allowed

unfoldable pub get_tool_names : List ToolSpec → Option (List String) → List String
unfolding filter_tools
get_tool_names tools allowed = names_of (filter_tools tools allowed)

unfoldable pub is_tool_allowed : String → Option (List String) → Bool
is_tool_allowed name none = true
is_tool_allowed name (some allowed) = is_among name allowed

-- The reason of a refusal.
pub data AccessError : Type 0 where
  does_not_exist not_allowed : String → AccessError

unfoldable pub validate_tool_access :
    List ToolSpec → String → Option (List String) → Option AccessError
unfolding is_tool_allowed
validate_tool_access tools name allowed =
    if not (is_among name (names_of tools))
    then some (does_not_exist name)
    else if not (is_tool_allowed name allowed)
    then some (not_allowed name)
    else none
