-- ===== src/Agent/Message/RoundTrip.antt =====
-- Messages (message.py) printed in the format of language models, and read back.
use codelab_ai_service.Prelude.{
  none, some, ℕ, String, true, is_truthy, ◌≡◌, [], Bool, Text, arith, get_or, has_text,
  if◌then◌else◌, not, refl, ◌||◌, ◌∷◌,
}
use codelab_ai_service.Agent.Message.{
  Message, to_llm_format, from_llm_format, is_valid_content, if_true, has_tool_calls, assistant,
  system, tool, user, parse_role, is_assistant_message, Role, role_name,
}

-- What the format keeps of a message: empty names, identifiers and lists of calls read as absent,
-- and the metadata are lost.
abbrev pub kept : ℕ → String → Message → Message
kept now id m = record m {
  id = id;
  created_at = now;
  updated_at = none;
  name = if_true (is_truthy m.name) m.name;
  tool_call_id = if_true (is_truthy m.tool_call_id) m.tool_call_id;
  tool_calls = if_true (has_tool_calls m) m.tool_calls;
  metadata = [];
}

parse_role-role_name : (r : Role) → parse_role (role_name r) ≡ some r
unfolding parse_role
parse_role-role_name user = refl
parse_role-role_name assistant = refl
parse_role-role_name system = refl
parse_role-role_name tool = refl

kept_content : (c : Text) (b : Bool) → get_or (if has_text c || b then some c else none) [] ≡ c
kept_content [] b = ground arith
kept_content (x ∷ c) b = refl

-- A message with a valid content that is printed for a language model reads back with its role and
-- content, and with its name, its call identifier and its calls where they are not empty.
pub from_llm_format-to_llm_format :
    (now : ℕ) (id : String) (m : Message)
    → is_valid_content m.role m.content ≡ true
    → from_llm_format now (to_llm_format m) id ≡ some (kept now id m)
unfolding from_llm_format to_llm_format
from_llm_format-to_llm_format now id m h =
    let content = kept_content m.content (not (is_assistant_message m)) in
    rw (parse_role-role_name m.role, from_llm_format) (rw (content, h) refl)
