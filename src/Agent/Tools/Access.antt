-- ===== src/Agent/Tools/Access.antt =====
-- A tool that passes the check of access is one that the filter offers: agent-runtime/app/domain/
-- services/tool_filter_service.py.
use codelab_ai_service.Agent.Tools.{
  is_among, ToolSpec, names_of, get_tool_names, is_tool_allowed, validate_tool_access,
}
use codelab_ai_service.Prelude.{
  Bool-cases, List, Option, String, ap, arith, eq_iff, false, inl, inr, keep, none, refl, some,
  str_eq, true, ◌&&◌, ◌∷◌, ◌≡◌, [],
}

is_among-keep :
    (name : String) (allowed : List String) (tools : List ToolSpec)
    → is_among name (names_of (keep (λ (tool : ToolSpec). is_among tool.name allowed) tools))
      ≡ (is_among name (names_of tools) && is_among name allowed)
unfolding is_among
is_among-keep name allowed [] = refl
is_among-keep name allowed (t ∷ tools) = elim (Bool-cases (str_eq t.name name)) [
  | inl e ↦
      let same : is_among t.name allowed ≡ is_among name allowed =
        ap (λ k. is_among k allowed) (ground (arith, eq_iff t.name name)) in
      ground (arith, same, is_among-keep name allowed tools)
  | inr e ↦ ground (arith, is_among-keep name allowed tools)
]

-- The filter of tools lists the name of a tool exactly when the check of access to it finds no
-- error, for any registry and any list of allowed tools, or none.
pub is_among-get_tool_names :
    (name : String) (tools : List ToolSpec) (allowed : Option (List String))
    → is_among name (get_tool_names tools allowed)
      ≡ elim (validate_tool_access tools name allowed) [ none ↦ true | some e ↦ false ]
unfolding get_tool_names validate_tool_access is_tool_allowed
is_among-get_tool_names name tools none = ground arith
is_among-get_tool_names name tools (some allowed) = ground (arith, is_among-keep name allowed tools)
