-- ===== src/Agent/Llm.antt =====
-- The answers of a language model, agent-runtime/app/domain/entities/llm_response.py, and the rules that
-- they pass, agent-runtime/app/domain/services/llm_response_processor.py. The texts of warnings are
-- left out: a warning is what it is about.
use codelab_ai_service.Prelude.Json.{Json, object_of, text}
use codelab_ai_service.Agent.Hitl.{HitlPolicy, requires_approval}
use codelab_ai_service.Prelude.{
  Bool, Dict, List, Option, String, Text, codes, false, has_text, if◌then◌else◌, ltb, map,
  non_empty, none, not, some, strip, true, ℕ, ◌&&◌, ◌++◌, ◌+◌, ◌==◌, ◌||◌, ◌∷◌, [],
}

pub record TokenUsage : Type 0 where
  pub prompt_tokens : ℕ
  pub completion_tokens : ℕ
  pub total_tokens : ℕ

-- The validator of the totals.
unfoldable pub validate_total_tokens : TokenUsage → TokenUsage
validate_total_tokens usage =
    if usage.total_tokens == 0 && (ltb 0 usage.prompt_tokens || ltb 0 usage.completion_tokens)
    then record usage { total_tokens = usage.prompt_tokens + usage.completion_tokens }
    else usage

pub record ToolCall : Type 0 where
  pub id : String
  pub tool_name : String
  pub arguments : Dict Json

-- `to_dict`, with the text that `json.dumps` makes of the arguments.
unfoldable pub to_dict : (Dict Json → String) → ToolCall → Json
to_dict dumps call = object_of (
    ("id", text call.id)
    ∷ ("type", text "function")
    ∷ (
      "function",
      object_of (("name", text call.tool_name) ∷ ("arguments", text (dumps call.arguments)) ∷ []),
    )
    ∷ [])

pub record LlmResponse : Type 0 where
  pub content : Text
  pub tool_calls : List ToolCall
  pub usage : TokenUsage
  pub model : String
  pub finish_reason : Option String

pub data Warning : Type 0 where
  several_tools : List String → Warning
  empty_content : Warning

pub record ProcessedResponse : Type 0 where
  pub content : Text
  pub tool_calls : List ToolCall
  pub usage : TokenUsage
  pub model : String
  pub requires_approval : Bool
  pub approval_reason : Option String
  pub validation_warnings : List Warning

abbrev pub has_calls : List ToolCall → Bool
has_calls [] = false
has_calls (c ∷ calls) = true

abbrev pub get_first_tool_call : List ToolCall → Option ToolCall
get_first_tool_call [] = none
get_first_tool_call (c ∷ calls) = some c

-- Rule 1: only the first call is kept, with a warning when there are more.
abbrev pub first_only : List ToolCall → List ToolCall × List Warning
first_only [] = ([], [])
first_only (c ∷ []) = (c ∷ [], [])
first_only (c ∷ d ∷ calls) =
    (c ∷ [], several_tools (map (λ (call : ToolCall). call.tool_name) (c ∷ d ∷ calls)) ∷ [])

-- Rule 2: whether the call needs an approval.
abbrev pub check_policy : HitlPolicy → List ToolCall → Bool × Option String
check_policy policy [] = (false, none)
check_policy policy (c ∷ calls) = requires_approval policy (codes c.tool_name)

unfoldable pub process_response : HitlPolicy → LlmResponse → ProcessedResponse
process_response policy response =
    let (calls, warnings) = first_only response.tool_calls in
    let (required, reason) = check_policy policy calls in
    let blank = not (has_text (strip response.content)) && not (has_calls calls) in
    record {
      content = response.content;
      tool_calls = calls;
      usage = response.usage;
      model = response.model;
      requires_approval = required;
      approval_reason = reason;
      validation_warnings = if blank then warnings ++ empty_content ∷ [] else warnings;
    }

-- The first problem of a call; its arguments are a dictionary by their type.
pub data CallProblem : Type 0 where
  id_required name_required : CallProblem

unfoldable pub validate_tool_call : ToolCall → Option CallProblem
validate_tool_call call =
    if not (non_empty call.id)
    then some id_required
    else if not (non_empty call.tool_name)
    then some name_required
    else none
