-- ===== src/Agent/Classifier.antt =====
-- agent-runtime/app/agents/orchestrator_agent.py: which agent a request is for. The answer of the
-- language model comes in as the value of its JSON, or as nothing when the request or the parsing
-- raised; `lower` is `str.lower`.
mod Tests
use codelab_ai_service.Prelude.{
  Text, Bool, List, Option, String, codes, false, get_or, if◌then◌else◌, length, none, some,
  text_eq, true, ◌&&◌, ◌++◌, ◌==◌, ◌||◌, ◌∷◌, [],
}
use codelab_ai_service.Prelude.Json.{Json, text, get_member}
use codelab_ai_service.Agent.Context.{
  AgentType, value, coder, architect, debug, ask, universal, orchestrator, same_agent,
}
use codelab_ai_service.Agent.Approvals.Policy.{starts_with}
use codelab_ai_service.Agent.Chunk.{StreamChunk, new_chunk, switch_agent}

-- `keyword in message`
unfoldable pub is_in : Text → Text → Bool
unfolding starts_with
is_in keyword [] = starts_with keyword []
is_in keyword (c ∷ s) = starts_with keyword (c ∷ s) || is_in keyword s

abbrev pub any_in : List String → Text → Bool
any_in [] message = false
any_in (keyword ∷ keywords) message = is_in (codes keyword) message || any_in keywords message

-- `_fallback_classify`, on the message in small letters.
unfoldable pub fallback_classify : Text → AgentType
unfolding is_in
fallback_classify message =
    if any_in ("create" ∷ "write" ∷ "implement" ∷ "fix" ∷ "code" ∷ "refactor" ∷ "modify" ∷ [])
      message
    then coder
    else if any_in ("design" ∷ "architecture" ∷ "plan" ∷ "spec" ∷ "blueprint" ∷ []) message
    then architect
    else if any_in ("debug" ∷ "error" ∷ "bug" ∷ "problem" ∷ "why" ∷ "investigate" ∷ "crash" ∷ [])
        message
    then debug
    else if any_in ("explain" ∷ "what is" ∷ "how does" ∷ "help" ∷ "understand" ∷ []) message
    then ask
    else coder

-- `agent_mapping.get(agent, AgentType.CODER)`
abbrev pub agent_mapping : Text → AgentType
agent_mapping name =
    if text_eq name (codes "architect")
    then architect
    else if text_eq name (codes "debug")
    then debug
    else if text_eq name (codes "ask")
    then ask
    else if text_eq name (codes "universal")
    then universal
    else coder

-- What the routing says: the agent, the reason and the confidence, as values of JSON.
pub record Classification : Type 0 where
  pub target : AgentType
  pub reasoning : Json
  pub confidence : Json

abbrev pub fall_back : (Text → Text) → Text → Classification
fall_back lower message = record {
  target = fallback_classify (lower message);
  reasoning = text "Fallback classification due to LLM error";
  confidence = text "low";
}

-- f"Task classified as {target}"
abbrev pub classified_as : AgentType → Json
classified_as coder = text "Task classified as coder"
classified_as architect = text "Task classified as architect"
classified_as debug = text "Task classified as debug"
classified_as ask = text "Task classified as ask"
classified_as universal = text "Task classified as universal"
classified_as orchestrator = text "Task classified as orchestrator"

-- The reading of an object: an agent that is no text raises, and so falls back.
abbrev pub read_answer : (Text → Text) → Text → Json → Classification
read_answer lower message answer = elim (get_or (get_member "agent" answer) (text "coder")) [
  | text name ↦
      let target = agent_mapping (lower (codes name)) in
      record {
        target = target;
        reasoning = get_or (get_member "reasoning" answer) (classified_as target);
        confidence = get_or (get_member "confidence" answer) (text "medium");
      }
  | _ ↦ fall_back lower message
]

-- Only an object has `get`.
unfoldable pub classify_task_with_llm : (Text → Text) → Option Json → Text → Classification
unfolding fallback_classify
classify_task_with_llm lower none message = fall_back lower message
classify_task_with_llm lower (some (Json.object ms)) message =
    read_answer lower message (Json.object ms)
classify_task_with_llm lower (some _) message = fall_back lower message

abbrev pub is_listed : AgentType → List AgentType → Bool
is_listed type [] = false
is_listed type (t ∷ types) = same_agent t type || is_listed type types

-- Only the orchestrator and the universal agent are registered.
abbrev pub is_single : List AgentType → Bool
is_single agents = is_listed universal agents && length agents == 2

-- The chunk that the orchestrator yields.
unfoldable pub route_to : (Text → Text) → List AgentType → Option Json → Text → StreamChunk
route_to lower agents answer message =
    let c : Classification =
      if is_single agents
      then record {
        target = universal;
        reasoning = text "Single-agent mode: only Universal agent available";
        confidence = text "high";
      }
      else classify_task_with_llm lower answer message in
    record (new_chunk switch_agent true) {
      content = some (codes "Routing to " ++ codes (value c.target) ++ codes " agent");
      metadata = some (
          ("target_agent", text (value c.target))
          ∷ ("reason", c.reasoning)
          ∷ ("confidence", c.confidence)
          ∷ ("classification_method", text "llm")
          ∷ []);
    }
