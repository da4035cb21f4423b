-- ===== src/Agent/SessionRepository.antt =====
-- The tables of sessions and messages, agent-runtime/app/infrastructure/persistence/models/session.py;
-- the mapper between their rows and the entity, agent-runtime/app/infrastructure/persistence/mappers/
-- session_mapper.py; and the repository on them, agent-runtime/app/infrastructure/persistence/
-- repositories/session_repository_impl.py. `id` is the primary key of both tables. Rows that a
-- statement does not order come in the order of the table.
pub mod Rows
pub mod RoundTrip
pub mod Refinement
pub mod Saving
pub mod Loading
pub mod Cleanup
mod Tests
use codelab_ai_service.Prelude.{
  Bool, ℕ, String, Option, none, some, List, [], ◌∷◌, ◌++◌, Dict, Text, length, keep, map, drop,
  take, find, get_or, if◌then◌else◌, str_eq, ltb, leb, not, true, false, ◌&&◌, ◌*◌, ◌-◌, has_text,
  insert, is_some,
}
use codelab_ai_service.Prelude.Selecting.{change, change_some}
use codelab_ai_service.Prelude.Sorting.{sort_by}
use codelab_ai_service.Prelude.Int.{pos}
use codelab_ai_service.Prelude.Json.{Json, num}
use codelab_ai_service.Agent.Message.{Message, Role, is_valid_content}
use codelab_ai_service.Agent.Session.{Session}

-- A column of JSON text, by what `json.loads` makes of it: `json a` is what `json.dumps a` writes.
pub data Column (A : Type 0) : Type 0 where
  empty : Column A
  json : A → Column A
  malformed : Column A

pub record SessionModel : Type 0 where
  pub id : String
  pub title : Option Text
  pub description : Option String
  pub created_at : ℕ
  pub last_activity : ℕ
  pub is_active : Bool
  pub deleted_at : Option ℕ

pub record MessageModel : Type 0 where
  pub id : String
  pub session_db_id : String
  pub role : Role
  pub content : Option Text
  pub timestamp : ℕ
  pub name : Option String
  pub tool_call_id : Option String
  pub tool_calls : Column (List Json)
  pub metadata_json : Column (Dict Json)

pub record SessionDb : Type 0 where
  pub sessions : List SessionModel
  pub messages : List MessageModel

-- The answer of a lookup: `broken` is the `RepositoryError` of a row that makes no valid message.
pub data Found : Type 0 where
  missing : Found
  found : Session → Found
  broken : Found

-- A malformed column is read as no value.
abbrev pub loads : {A : Type 0} → Column A → Option A
loads empty = none
loads (json a) = some a
loads malformed = none

-- A value that is not true is stored as no value.
abbrev pub dumps_list : {A : Type 0} → List A → Column (List A)
dumps_list [] = empty
dumps_list (x ∷ xs) = json (x ∷ xs)

abbrev pub dumps_calls : Option (List Json) → Column (List Json)
dumps_calls none = empty
dumps_calls (some calls) = dumps_list calls

-- The `Message` of a row, or nothing when its validation fails.
unfoldable pub message_of : MessageModel → Option Message
message_of row =
    let content = get_or row.content [] in
    if is_valid_content row.role content
    then some (record {
      id = row.id;
      created_at = row.timestamp;
      updated_at = none;
      role = row.role;
      content = content;
      name = row.name;
      tool_call_id = row.tool_call_id;
      tool_calls = loads row.tool_calls;
      metadata = get_or (loads row.metadata_json) [];
    })
    else none

unfoldable pub messages_of : List MessageModel → Option (List Message)
messages_of [] = some []
messages_of (row ∷ rows) = elim (message_of row) [
  | none ↦ none
  | some m ↦ elim (messages_of rows) [ none ↦ none | some ms ↦ some (m ∷ ms) ]
]

abbrev pub is_of : String → MessageModel → Bool
is_of session_id row = str_eq row.session_db_id session_id

abbrev pub is_before : MessageModel → MessageModel → Bool
is_before a b = leb a.timestamp b.timestamp

-- `where(session_db_id == …).order_by(timestamp.asc())`
unfoldable pub select_messages : String → List MessageModel → List MessageModel
select_messages session_id rows = sort_by is_before (keep (is_of session_id) rows)

abbrev pub session_of : SessionModel → List Message → Session
session_of model messages = record {
  id = model.id;
  created_at = model.created_at;
  updated_at = some model.last_activity;
  messages = messages;
  title = model.title;
  description = model.description;
  last_activity = model.last_activity;
  is_active = model.is_active;
  max_messages = 1000;
  metadata = [];
}

-- `to_entity` with its messages, and without them.
unfoldable pub to_entity : SessionModel → SessionDb → Found
to_entity model db = elim (messages_of (select_messages model.id db.messages)) [
  | none ↦ broken
  | some messages ↦ found (session_of model messages)
]

-- The new row of a session, and the change of a row that is there.
abbrev pub new_model : Session → SessionModel
new_model s = record {
  id = s.id;
  title = s.title;
  description = s.description;
  created_at = s.created_at;
  last_activity = s.last_activity;
  is_active = s.is_active;
  deleted_at = none;
}

abbrev pub update_model : Session → SessionModel → SessionModel
update_model s model = record model {
  title = s.title;
  description = s.description;
  last_activity = s.last_activity;
  is_active = s.is_active;
}

unfoldable pub message_row : String → Message → MessageModel
message_row session_id m = record {
  id = m.id;
  session_db_id = session_id;
  role = m.role;
  content = if has_text m.content then some m.content else none;
  timestamp = m.created_at;
  name = m.name;
  tool_call_id = m.tool_call_id;
  tool_calls = dumps_calls m.tool_calls;
  metadata_json = dumps_list m.metadata;
}

abbrev pub is_not_deleted : SessionModel → Bool
is_not_deleted model = not (is_some model.deleted_at)

abbrev pub has_key : String → SessionModel → Bool
has_key id model = str_eq model.id id

abbrev pub is_live : String → SessionModel → Bool
is_live id model = has_key id model && is_not_deleted model

-- Rows put into the table of messages: `none` is the `IntegrityError` of a key that is there.
unfoldable pub add_messages : List MessageModel → List MessageModel → Option (List MessageModel)
add_messages [] rows = some rows
add_messages (m ∷ ms) rows =
    let rest = add_messages ms (rows ++ m ∷ []) in
    if is_some (find (λ row. str_eq row.id m.id) rows) then none else rest

-- The row of the session: `none` is the `IntegrityError` of the key of a deleted session.
unfoldable pub put_model : Session → List SessionModel → Option (List SessionModel)
put_model s rows = elim (find (is_live s.id) rows) [
  | some model ↦ some (change (is_live s.id) (update_model s) rows)
  | none ↦ if is_some (find (has_key s.id) rows) then none else some (rows ++ new_model s ∷ [])
]

-- `to_model` and the flush: `none` is the `RepositoryError`, after which the transaction is rolled
-- back.
unfoldable pub save : Session → SessionDb → Option SessionDb
save s db = elim (put_model s db.sessions) [
  | none ↦ none
  | some sessions ↦
      elim (add_messages (map (message_row s.id) s.messages)
        (keep (λ row. not (is_of s.id row)) db.messages)) [
          | none ↦ none
          | some messages ↦ some (record { sessions = sessions; messages = messages })
        ]
]

unfoldable pub find_by_id : String → SessionDb → Found
unfolding to_entity
find_by_id id db = elim (find (is_live id) db.sessions) [
  | none ↦ missing
  | some model ↦ to_entity model db
]

-- The soft deletion, which also finds a session that is deleted already.
abbrev pub delete_model : ℕ → SessionModel → SessionModel
delete_model now model = record model { deleted_at = some now; is_active = false }

unfoldable pub delete : ℕ → String → SessionDb → Bool × SessionDb
delete now id db = elim (find (has_key id) db.sessions) [
  | none ↦ (false, db)
  | some model ↦ (true, record db { sessions = change (has_key id) (delete_model now) db.sessions })
]

-- `exists`, `count` and `count_active`.
unfoldable pub exists : String → SessionDb → Bool
exists id db = ltb 0 (length (keep (is_live id) db.sessions))

unfoldable pub count : SessionDb → ℕ
count db = length (keep is_not_deleted db.sessions)

abbrev pub is_live_active : SessionModel → Bool
is_live_active model = model.is_active && is_not_deleted model

unfoldable pub count_active : SessionDb → ℕ
count_active db = length (keep is_live_active db.sessions)

-- A session of a listing has no messages, and their number in its metadata.
abbrev pub listed : SessionDb → SessionModel → Session
listed db model = record (session_of model []) {
  metadata = insert "_message_count" (num (pos (length (keep (is_of model.id) db.messages)))) [];
}

abbrev pub is_later : SessionModel → SessionModel → Bool
is_later a b = leb b.last_activity a.last_activity

-- `order_by(last_activity.desc()).limit(limit).offset(offset)`
abbrev pub page : ℕ → ℕ → List SessionModel → List SessionModel
page limit offset rows = take limit (drop offset (sort_by is_later rows))

-- The method `list`.
unfoldable pub list_sessions : ℕ → ℕ → SessionDb → List Session
list_sessions limit offset db =
    map (listed db) (page limit offset (keep is_not_deleted db.sessions))

unfoldable pub find_active : ℕ → ℕ → SessionDb → List Session
find_active limit offset db = map (listed db) (page limit offset (keep is_live_active db.sessions))

unfoldable pub find_by_activity_range : ℕ → ℕ → ℕ → SessionDb → List Session
find_by_activity_range from to limit db =
    let passes = λ (model : SessionModel).
      leb from model.last_activity && leb model.last_activity to && is_not_deleted model in
    map (λ model. session_of model []) (page limit 0 (keep passes db.sessions))

-- The rows that a clean-up marks: old, inactive, not deleted.
abbrev pub is_outdated : ℕ → SessionModel → Bool
is_outdated cutoff model =
    ltb model.last_activity cutoff && not model.is_active && is_not_deleted model

abbrev pub mark : ℕ → SessionModel → SessionModel
mark now model = record model { deleted_at = some now }

-- An hour in microseconds, the unit of the clock.
abbrev pub hour : ℕ
hour = 3600000000

unfoldable pub cleanup_old : ℕ → ℕ → ℕ → SessionDb → ℕ × SessionDb
cleanup_old now max_age_hours batch_size db =
    let cutoff = now - max_age_hours * hour in
    let (n, rows) = change_some (is_outdated cutoff) (mark now) batch_size db.sessions in
    (n, record db { sessions = rows })
