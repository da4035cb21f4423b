-- ===== src/Agent/SessionManagement/Tests.antt =====
-- The service of sessions at concrete inputs, and the theorems about it there.
use codelab_ai_service.Agent.Message.{Message, user, is_valid_content, parse_role}
use codelab_ai_service.Agent.Session.{
  Session, new_session, set_title_from_message, add_message as add_to_session,
}
use codelab_ai_service.Agent.SessionRepository.{
  save, new_model, message_row, find_by_id, put_model, add_messages, messages_of, to_entity,
  select_messages,
}
use codelab_ai_service.Agent.SessionRepository.RoundTrip.{kept_message}
use codelab_ai_service.Agent.SessionManagement.{
  SessionService, Posted, Draft, Birth, add_message, get_session, create_session,
  get_or_create_session, message_from, returned, failed, not_found, repository_error,
  message_received,
}
use codelab_ai_service.Agent.SessionManagement.Deleted.{get_session-deleted, deleted}
use codelab_ai_service.Agent.SessionManagement.Posting.{add_message-found}
use codelab_ai_service.Prelude.{
  codes, inl, inr, is_space, map, none, refl, some, strip, true, ◌∷◌, ◌≡◌, [],
}
use codelab_ai_service.Prelude.Sorting.{sort_by}

abbrev service : SessionService
service = record {
  db = record { sessions = new_model (new_session "s" 1 2) ∷ []; messages = [] };
  publisher = true;
  published = [];
}

abbrev birth : Birth
birth = record { uuid = "u"; created = 5; active = 6 }

get_session-deleted_example :
    (get_session "s" (deleted 9 "s" service) ≡ inl (not_found "s"))
    × (create_session birth (some "s") (deleted 9 "s" service) ≡ failed repository_error)
    × (get_or_create_session birth "s" (deleted 9 "s" service) ≡ failed repository_error)
get_session-deleted_example =
    get_session-deleted 9 "s" service (new_model (new_session "s" 1 2)) refl refl birth

abbrev draft : Draft
draft = record {
  role = "user";
  content = codes "hello";
  name = none;
  tool_call_id = none;
  tool_calls = none;
}

abbrev posted : Posted
posted = record { uuid = "m"; created = 3; active = 4; marked = 5 }

abbrev posted_message : Message
posted_message = record {
  id = "m";
  created_at = 3;
  updated_at = none;
  role = user;
  content = codes "hello";
  name = none;
  tool_call_id = none;
  tool_calls = none;
  metadata = [];
}

abbrev empty_session : Session
empty_session = record (new_session "s" 1 2) { updated_at = some 2 }

abbrev full_session : Session
full_session = record (new_session "s" 1 2) { title = some (codes "hello"); last_activity = 4 }

abbrev posted_service : SessionService
posted_service = record {
  db = record {
    sessions = new_model full_session ∷ [];
    messages = message_row "s" posted_message ∷ [];
  };
  publisher = true;
  published = message_received "s" "m" "user" 5 ∷ [];
}

found_empty : get_session "s" service ≡ inr empty_session
unfolding get_session find_by_id to_entity select_messages messages_of sort_by
found_empty = refl

added_hello : add_message posted "s" draft service ≡ returned posted_message posted_service
unfolding add_message message_from add_to_session set_title_from_message save put_model add_messages
    message_row get_session find_by_id to_entity select_messages messages_of sort_by
    is_valid_content parse_role strip codelab_ai_service.Prelude.is_space
added_hello = refl

add_message-found_example :
    (get_session "t" posted_service ≡ get_session "t" service)
    × (t : Session) × (get_session "s" posted_service ≡ inr t)
    × (t.messages ≡ map kept_message (posted_message ∷ []))
add_message-found_example =
    add_message-found posted "s" draft service posted_service posted_message empty_session
      found_empty tt added_hello "t" refl
