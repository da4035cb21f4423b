-- ===== src/Agent/Message.antt =====
-- agent-runtime/app/domain/entities/message.py: the messages of a dialogue, and their form in the API
-- of language models. A text whose letters the code looks at is a list of code points.
pub mod RoundTrip
use codelab_ai_service.Prelude.{
  Bool, ℕ, String, Option, none, some, List, Dict, Text, has_text, strip, true, false, get_or,
  if◌then◌else◌, is_truthy, length, not, str_eq, ◌||◌, ◌∷◌, [],
}
use codelab_ai_service.Prelude.Json.{Json}

pub data Role : Type 0 where
  user assistant system tool : Role

abbrev pub role_name : Role → String
role_name user = "user"
role_name assistant = "assistant"
role_name system = "system"
role_name tool = "tool"

abbrev pub same_role : Role → Role → Bool
same_role user user = true
same_role assistant assistant = true
same_role system system = true
same_role tool tool = true
same_role _ _ = false

pub record Message : Type 0 where
  pub id : String
  pub created_at : ℕ
  pub updated_at : Option ℕ
  pub role : Role
  pub content : Text
  pub name : Option String
  pub tool_call_id : Option String
  pub tool_calls : Option (List Json)
  pub metadata : Dict Json

-- `validate_content`: blank contents are for the assistant only. (`tool_calls` is validated after
-- `content`, so that the validator never sees it.)
unfoldable pub is_valid_content : Role → Text → Bool
is_valid_content assistant content = true
is_valid_content _ content = has_text (strip content)

abbrev pub is_user_message : Message → Bool
is_user_message m = same_role m.role user

abbrev pub is_assistant_message : Message → Bool
is_assistant_message m = same_role m.role assistant

abbrev pub is_tool_message : Message → Bool
is_tool_message m = same_role m.role tool

abbrev pub some_calls : Option (List Json) → Bool
some_calls none = false
some_calls (some []) = false
some_calls (some (c ∷ calls)) = true

abbrev pub has_tool_calls : Message → Bool
has_tool_calls m = some_calls m.tool_calls

abbrev pub get_content_length : Message → ℕ
get_content_length m = length m.content

-- The dictionary of the API: `none` is a key that is not there.
pub record LlmMessage : Type 0 where
  pub role : Option String
  pub content : Option Text
  pub name : Option String
  pub tool_call_id : Option String
  pub tool_calls : Option (List Json)

-- A field that is left out unless it is true.
abbrev pub if_true {ℓ} : {A : Type ℓ} → Bool → Option A → Option A
if_true b a = if b then a else none

unfoldable pub to_llm_format : Message → LlmMessage
to_llm_format m = record {
  role = some (role_name m.role);
  content = if has_text m.content || not (is_assistant_message m) then some m.content else none;
  name = if_true (is_truthy m.name) m.name;
  tool_call_id = if_true (is_truthy m.tool_call_id) m.tool_call_id;
  tool_calls = if_true (has_tool_calls m) m.tool_calls;
}

-- The `Literal` of the roles.
unfoldable pub parse_role : String → Option Role
parse_role s =
    if str_eq s "user"
    then some user
    else if str_eq s "assistant"
    then some assistant
    else if str_eq s "system"
    then some system
    else if str_eq s "tool"
    then some tool
    else none

abbrev pub new_message : ℕ → String → Role → LlmMessage → Message
new_message now id role d = record {
  id = id;
  created_at = now;
  updated_at = none;
  role = role;
  content = get_or d.content [];
  name = d.name;
  tool_call_id = d.tool_call_id;
  tool_calls = d.tool_calls;
  metadata = [];
}

-- `none` is the `ValidationError` of an unknown role or of a blank content.
unfoldable pub from_llm_format : ℕ → LlmMessage → String → Option Message
unfolding parse_role is_valid_content
from_llm_format now d id = elim (parse_role (get_or d.role "user")) [
  | none ↦ none
  | some role ↦
      if is_valid_content role (get_or d.content []) then some (new_message now id role d) else none
]
