-- ===== src/Agent/Session.antt =====
-- agent-runtime/app/domain/entities/session.py: a dialogue with its messages. A method that mutates
-- the entity returns the new record, or what it raises. The clock comes in as an argument: `active` and
-- `marked` are its two readings in `add_message`.
mod Tests
pub mod Title
pub mod Recent
pub mod Capacity
use codelab_ai_service.Prelude.{
  Bool, ℕ, String, Option, none, some, List, [], ◌∷◌, ◌++◌, Dict, Text, has_text, strip, length,
  leb, insert, keep, map, drop, take, get_or, false, if◌then◌else◌, is_truthy, lookup, ltb, not,
  suc, true, zero, ◌&&◌, ◌-◌, ◌==◌,
}
use codelab_ai_service.Prelude.Int.{ℤ, pos, negsuc}
use codelab_ai_service.Prelude.Json.{Json, num, text}
use codelab_ai_service.Agent.Message.{
  Message, Role, is_user_message, same_role, LlmMessage, to_llm_format,
}

pub record Session : Type 0 where
  pub id : String
  pub created_at : ℕ
  pub updated_at : Option ℕ
  pub messages : List Message
  pub title : Option Text
  pub description : Option String
  pub last_activity : ℕ
  pub is_active : Bool
  pub max_messages : ℕ
  pub metadata : Dict Json

-- `Session(id=…)` with the defaults of the rest.
abbrev pub new_session : String → ℕ → ℕ → Session
new_session id created active = record {
  id = id;
  created_at = created;
  updated_at = none;
  messages = [];
  title = none;
  description = none;
  last_activity = active;
  is_active = true;
  max_messages = 1000;
  metadata = [];
}

-- The `ValueError` of an inactive session, and the `MessageValidationError` of a full one.
pub data AddError : Type 0 where
  inactive full : AddError

pub data Outcome : Type 0 where
  added : Session → Outcome
  raised : AddError → Outcome

-- Whether there is a title, and it is not empty.
abbrev pub has_title : Option Text → Bool
has_title none = false
has_title (some t) = has_text t

unfoldable pub set_title_from_message : Message → Session → Session
set_title_from_message m s =
    let content = strip m.content in
    if has_text content
    then record s { title = some (if ltb 500 (length content) then take 500 content else content) }
    else s

unfoldable pub add_message : ℕ → ℕ → Message → Session → Outcome
unfolding set_title_from_message
add_message active marked m s =
    let s' : Session = record s {
      messages = s.messages ++ m ∷ [];
      last_activity = active;
      updated_at = some marked;
    } in
    let titled = set_title_from_message m s' in
    if not s.is_active
    then raised inactive
    else if leb s.max_messages (length s.messages)
    then raised full
    else if not (has_title s.title) && is_user_message m
    then added titled
    else added s'

-- The cached count of the metadata is returned as it is.
unfoldable pub get_message_count : Session → Json
get_message_count s = get_or (lookup "_message_count" s.metadata) (num (pos (length s.messages)))

-- `messages[-limit:]`
unfoldable pub get_recent_messages : ℤ → Session → List Message
get_recent_messages (pos zero) s = s.messages
get_recent_messages (pos (suc n)) s = drop (length s.messages - suc n) s.messages
get_recent_messages (negsuc n) s = drop (suc n) s.messages

unfoldable pub get_messages_by_role : Role → Session → List Message
get_messages_by_role role s = keep (λ m. same_role m.role role) s.messages

-- The messages for a limit: no limit, and a limit of 0, are all messages.
abbrev pub limited : Option ℤ → Session → List Message
limited none s = s.messages
limited (some (pos zero)) s = s.messages
limited (some (pos (suc n))) s = get_recent_messages (pos (suc n)) s
limited (some (negsuc n)) s = get_recent_messages (negsuc n) s

unfoldable pub get_history_for_llm : Option ℤ → Session → List LlmMessage
get_history_for_llm max_messages s = map to_llm_format (limited max_messages s)

-- `stamp` is the time of the deactivation, printed by `isoformat`.
unfoldable pub deactivate : ℕ → String → Option String → Session → Session
deactivate marked stamp reason s =
    let off : Session = record s { is_active = false; updated_at = some marked } in
    if is_truthy reason
    then record off {
      metadata =
          insert "deactivated_at" (text stamp)
            (insert "deactivation_reason" (text (get_or reason "")) s.metadata);
    }
    else off

unfoldable pub activate : ℕ → Session → Session
activate marked s = record s { is_active = true; updated_at = some marked }

unfoldable pub clear_messages : ℕ → Session → ℕ × Session
clear_messages marked s = (length s.messages, record s { messages = []; updated_at = some marked })

unfoldable pub is_empty : Session → Bool
is_empty s = length s.messages == 0

-- A call of one of the methods that change the session.
pub data Call : Type 0 where
  post : ℕ → ℕ → Message → Call
  stop : ℕ → String → Option String → Call
  start : ℕ → Call
  wipe : ℕ → Call

-- A call that raises leaves the session as it was.
unfoldable pub apply : Call → Session → Session
unfolding add_message deactivate activate clear_messages
apply (post active marked m) s = elim (add_message active marked m s) [
  | added s' ↦ s'
  | raised e ↦ s
]
apply (stop marked stamp reason) s = deactivate marked stamp reason s
apply (start marked) s = activate marked s
apply (wipe marked) s = (clear_messages marked s).1

unfoldable pub run : List Call → Session → Session
unfolding apply
run [] s = s
run (call ∷ calls) s = run calls (apply call s)
