-- ===== src/Agent/Tools/Tests.antt =====
-- The filter of tools at concrete inputs.
use codelab_ai_service.Agent.Tools.{
  tools_spec, is_among, get_tool_names, is_tool_allowed, validate_tool_access, not_allowed,
  unknown_tools,
}
use codelab_ai_service.Agent.Tools.Access.{is_among-get_tool_names}
use codelab_ai_service.Prelude.{false, none, refl, some, true, ◌∷◌, ◌≡◌, []}

is_among-get_tool_names_example :
    is_among "write_file" (get_tool_names tools_spec (some ("read_file" ∷ [])))
    ≡ elim (validate_tool_access tools_spec "write_file" (some ("read_file" ∷ []))) [
      | none ↦ true
      | some e ↦ false
    ]
is_among-get_tool_names_example =
    is_among-get_tool_names "write_file" tools_spec (some ("read_file" ∷ []))

refused_write :
    validate_tool_access tools_spec "write_file" (some ("read_file" ∷ []))
    ≡ some (not_allowed "write_file")
unfolding validate_tool_access is_tool_allowed is_among
refused_write = refl

-- The tools that agents are allowed and that no specification describes.
unknown_completion :
    unknown_tools tools_spec ("read_file" ∷ "attempt_completion" ∷ []) ≡ "attempt_completion" ∷ []
unfolding unknown_tools is_among
unknown_completion = refl
