-- ===== src/Agent/SessionManagement.antt =====
-- agent-runtime/app/domain/services/session_management.py: the service of sessions over the tables of
-- the repository. What it publishes (agent-runtime/app/domain/events/session_events.py) is kept in the
-- order of publication. The clock, `uuid4` and `isoformat` come in as arguments, and so does
-- `json.dumps`, which only a structured result of a tool needs.
pub mod Posting
pub mod Deleted
mod Tests
use codelab_ai_service.Prelude.Json.{Json}
use codelab_ai_service.Agent.Message.{Message, is_valid_content, parse_role}
use codelab_ai_service.Agent.Session.{
  Session, new_session, AddError, add_message as add_to_session, deactivate, get_message_count,
  added, raised,
}
use codelab_ai_service.Agent.SessionRepository.{
  SessionDb, found, missing, broken, find_by_id, save, find_active, cleanup_old,
}
use codelab_ai_service.Prelude.{
  Bool, List, Option, String, Text, codes, get_or, has_text, if◌then◌else◌, inl, inr, is_truthy,
  length, none, some, ℕ, ◌++◌, ◌∷◌, ◌⊎◌, [],
}

pub data SessionEvent : Type 0 where
  session_created : String → String → SessionEvent
  message_received : String → String → String → ℕ → SessionEvent
  session_deactivated : String → String → Json → SessionEvent

-- What the service raises; the last three come from the entity, the message and the repository.
pub data SessionError : Type 0 where
  not_found already_exists : String → SessionError
  refused : AddError → SessionError
  invalid_message repository_error : SessionError

-- The tables, whether there is a publisher, and what was published.
pub record SessionService : Type 0 where
  pub db : SessionDb
  pub publisher : Bool
  pub published : List SessionEvent

-- A method writes once, at its end, so that one that raises leaves the service as it was.
pub data Done (A : Type 0) : Type 0 where
  returned : A → SessionService → Done A
  failed : SessionError → Done A

abbrev pub publish : SessionEvent → SessionService → SessionService
publish e s = if s.publisher then record s { published = s.published ++ e ∷ [] } else s

-- `save`, then the event, then the answer.
abbrev pub save_and_publish : {A : Type 0} → Session → SessionEvent → A → SessionService → Done A
save_and_publish session e answer s = elim (save session s.db) [
  | none ↦ failed repository_error
  | some db ↦ returned answer (publish e (record s { db = db }))
]

-- The answers of `uuid4` and of the clock for a session that is made.
pub record Birth : Type 0 where
  pub uuid : String
  pub created : ℕ
  pub active : ℕ

unfoldable pub create_session : Birth → Option String → SessionService → Done Session
create_session birth session_id s =
    let id = if is_truthy session_id then get_or session_id "" else birth.uuid in
    let session = new_session id birth.created birth.active in
    elim (find_by_id id s.db) [
      | missing ↦ save_and_publish session (session_created id "system") session s
      | found existing ↦ failed (already_exists id)
      | broken ↦ failed repository_error
    ]

unfoldable pub get_session : String → SessionService → SessionError ⊎ Session
get_session id s = elim (find_by_id id s.db) [
  | missing ↦ inl (not_found id)
  | found session ↦ inr session
  | broken ↦ inl repository_error
]

-- Only `SessionNotFoundError` is caught.
unfoldable pub get_or_create_session : Birth → String → SessionService → Done Session
unfolding get_session create_session
get_or_create_session birth id s = elim (get_session id s) [
  | inr session ↦ returned session s
  | inl (not_found _) ↦ create_session birth (some id) s
  | inl (already_exists k) ↦ failed (already_exists k)
  | inl (refused e) ↦ failed (refused e)
  | inl invalid_message ↦ failed invalid_message
  | inl repository_error ↦ failed repository_error
]

-- The answers of `uuid4` and of the clock for a message, and the two readings of the clock when it
-- is put into the session.
pub record Posted : Type 0 where
  pub uuid : String
  pub created : ℕ
  pub active : ℕ
  pub marked : ℕ

-- The arguments of `add_message`.
pub record Draft : Type 0 where
  pub role : String
  pub content : Text
  pub name : Option String
  pub tool_call_id : Option String
  pub tool_calls : Option (List Json)

-- `Message(…)`: `none` is the `ValidationError`.
unfoldable pub message_from : Posted → Draft → Option Message
unfolding parse_role is_valid_content
message_from posted d = elim (parse_role d.role) [
  | none ↦ none
  | some role ↦
      if is_valid_content role d.content
      then some (record {
        id = posted.uuid;
        created_at = posted.created;
        updated_at = none;
        role = role;
        content = d.content;
        name = d.name;
        tool_call_id = d.tool_call_id;
        tool_calls = d.tool_calls;
        metadata = [];
      })
      else none
]

-- `add_message` once the session and the message are there.
abbrev pub put_message : Posted → String → Draft → Message → Session → SessionService → Done Message
put_message posted id d m session s =
    let event = message_received id m.id d.role (length d.content) in
    elim (add_to_session posted.active posted.marked m session) [
      | raised e ↦ failed (refused e)
      | added session' ↦ save_and_publish session' event m s
    ]

unfoldable pub add_message : Posted → String → Draft → SessionService → Done Message
unfolding get_session message_from
add_message posted id d s = elim (get_session id s) [
  | inl e ↦ failed e
  | inr session ↦ elim (message_from posted d) [
    | none ↦ failed invalid_message
    | some m ↦ put_message posted id d m session s
  ]
]

-- The result of a tool: a text, or a value that `json.dumps` prints when it is not empty.
pub data ToolResult : Type 0 where
  plain : Text → ToolResult
  structured : Bool → Json → ToolResult

unfoldable pub tool_content : (Json → Text) → Option ToolResult → Option Text → Text
tool_content dumps result error =
    let printed : Text = elim result [
      | none ↦ codes "Tool executed successfully"
      | some (plain t) ↦ if has_text t then t else codes "Tool executed successfully"
      | some (structured is_empty j) ↦
          if is_empty then codes "Tool executed successfully" else dumps j
    ] in
    elim error [ none ↦ printed | some e ↦ if has_text e then codes "Error: " ++ e else printed ]

unfoldable pub add_tool_result :
    (Json → Text)
    → Posted
    → String
    → String
    → Option ToolResult
    → Option Text
    → SessionService
    → Done Message
unfolding tool_content add_message
add_tool_result dumps posted id call_id result error s =
    add_message posted id
      (record {
        role = "tool";
        content = tool_content dumps result error;
        name = none;
        tool_call_id = some call_id;
        tool_calls = none;
      })
      s

unfoldable pub deactivate_session :
    ℕ → String → String → Option String → SessionService → Done Session
unfolding get_session
deactivate_session marked stamp id reason s = elim (get_session id s) [
  | inl e ↦ failed e
  | inr session ↦
      let off = deactivate marked stamp reason session in
      let event =
        session_deactivated id (if is_truthy reason then get_or reason "" else "Unknown")
          (get_message_count off) in
      save_and_publish off event off s
]

unfoldable pub list_active_sessions : ℕ → ℕ → SessionService → List Session
list_active_sessions limit offset s = find_active limit offset s.db

-- `cleanup_old` with its own batch size.
unfoldable pub cleanup_old_sessions : ℕ → ℕ → SessionService → ℕ × SessionService
cleanup_old_sessions now max_age_hours s =
    let (n, db) = cleanup_old now max_age_hours 100 s.db in (n, record s { db = db })
