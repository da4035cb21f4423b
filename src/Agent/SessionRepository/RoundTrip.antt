-- ===== src/Agent/SessionRepository/RoundTrip.antt =====
-- What is found after a save: agent-runtime/app/infrastructure/persistence/mappers/session_mapper.py.
use mathlib.Core.Path.{subst}
use codelab_ai_service.Prelude.Sorting.{IsChain, sort_by, sort_by-IsChain}
use codelab_ai_service.Agent.Message.{
  Message, if_true, has_tool_calls, is_valid_content, some_calls,
}
use codelab_ai_service.Prelude.Json.{Json}
use codelab_ai_service.Prelude.Selecting.{find-passes}
use codelab_ai_service.Agent.SessionRepository.{
  is_of, dumps_calls, dumps_list, loads, session_of, new_model, update_model, SessionDb, message_of,
  message_row, messages_of, select_messages, to_entity, save, find_by_id, is_before, is_live, found,
  SessionModel,
}
use codelab_ai_service.Prelude.{
  ap, ◌∙◌, All, List, String, arith, false, find, leb, map, none, refl, some, str_eq, true, ℕ, ◌∷◌,
  ◌≡◌, [], Option, Option-cases, Text, eq_iff, get_or, has_text, if◌then◌else◌, inl, inr, keep, sym,
}
use codelab_ai_service.Agent.Session.{Session}
use codelab_ai_service.Agent.SessionRepository.Rows.{
  find-put_model_other, find-put_model, keep-save, save-tables, keep-save_other,
}

-- What the tables keep of a message, and of a session whose row was created at some time.
abbrev pub kept_message : Message → Message
kept_message m = record m {
  updated_at = none;
  tool_calls = if_true (has_tool_calls m) m.tool_calls;
}

abbrev pub kept_session : ℕ → Session → Session
kept_session created s = record s {
  created_at = created;
  updated_at = some s.last_activity;
  messages = map kept_message s.messages;
  max_messages = 1000;
  metadata = [];
}

-- The messages are valid, and in the order of their times.
abbrev pub IsStorable : List Message → Type 0
IsStorable ms =
    All (λ m. is_valid_content m.role m.content ≡ true) ms
    × IsChain (λ m n. leb m.created_at n.created_at) ms

get_or-content : (t : Text) → get_or (if has_text t then some t else none) [] ≡ t
get_or-content [] = refl
get_or-content (c ∷ t) = refl

pub get_or-dumps_list : {A : Type 0} (xs : List A) → get_or (loads (dumps_list xs)) [] ≡ xs
get_or-dumps_list [] = refl
get_or-dumps_list (x ∷ xs) = refl

loads-dumps_calls :
    (calls : Option (List Json))
    → loads (dumps_calls calls) ≡ (if some_calls calls then calls else none)
loads-dumps_calls none = refl
loads-dumps_calls (some []) = refl
loads-dumps_calls (some (c ∷ calls)) = refl

module _ (id : String) where
  message_of-message_row :
      (m : Message)
      → is_valid_content m.role m.content ≡ true
      → message_of (message_row id m) ≡ some (kept_message m)
  unfolding message_of message_row
  message_of-message_row m h =
      simp (get_or-content, loads-dumps_calls, get_or-dumps_list m.metadata, h, if◌then◌else◌)

  messages_of-rows :
      (ms : List Message)
      → All (λ m. is_valid_content m.role m.content ≡ true) ms
      → messages_of (map (message_row id) ms) ≡ some (map kept_message ms)
  unfolding messages_of
  messages_of-rows [] h = refl
  messages_of-rows (m ∷ ms) (h, hs) =
      ground (arith, message_of-message_row m h, messages_of-rows ms hs)

  rows-IsChain :
      (ms : List Message)
      → IsChain (λ m n. leb m.created_at n.created_at) ms
      → IsChain is_before (map (message_row id) ms)
  unfolding message_row
  rows-IsChain [] h = tt
  rows-IsChain (m ∷ []) h = tt
  rows-IsChain (m ∷ n ∷ ms) (h, hs) = (h, rows-IsChain (n ∷ ms) hs)

-- The messages that are read back.
messages_of-save :
    (s : Session) (db db' : SessionDb)
    → IsStorable s.messages
    → save s db ≡ some db'
    → messages_of (select_messages s.id db'.messages) ≡ some (map kept_message s.messages)
unfolding select_messages
messages_of-save s db db' (valid, ordered) h =
    let rows = map (message_row s.id) s.messages in
    ap (λ xs. messages_of (sort_by is_before xs)) (keep-save s db db' h)
    ∙ ap messages_of (sort_by-IsChain is_before rows (rows-IsChain s.id s.messages ordered))
    ∙ messages_of-rows s.id s.messages valid

to_entity-save :
    (s : Session) (db db' : SessionDb)
    → IsStorable s.messages
    → save s db ≡ some db'
    → (row : SessionModel) → row.id ≡ s.id
    → to_entity row db' ≡ found (session_of row (map kept_message s.messages))
unfolding to_entity
to_entity-save s db db' storable h row e =
    let read : messages_of (select_messages row.id db'.messages)
        ≡ some (map kept_message s.messages) =
      ap (λ k. messages_of (select_messages k db'.messages)) e
      ∙ messages_of-save s db db' storable h in
    simp (to_entity, read)

-- When the row of the session was created.
abbrev pub created_in : SessionDb → Session → ℕ
created_in db s = elim (find (is_live s.id) db.sessions) [
  | none ↦ s.created_at
  | some row ↦ row.created_at
]

-- A session whose messages are valid and in the order of their times, once saved, is found as it
-- was, except for what the tables do not keep: the metadata, the limit of messages, the times of
-- change, empty lists of calls, and the time of creation when the session was there already.
pub find_by_id-save :
    (s : Session) (db db' : SessionDb)
    → IsStorable s.messages
    → save s db ≡ some db'
    → find_by_id s.id db' ≡ found (kept_session (created_in db s) s)
unfolding find_by_id
find_by_id-save s db db' storable h =
    let moved = find-put_model s db.sessions db'.sessions (save-tables s db db' h).0 in
    elim (Option-cases (find (is_live s.id) db.sessions)) [
      | inl e ↦ ground (arith, moved, to_entity-save s db db' storable h (new_model s) refl)
      | inr (row, e) ↦
          let same : row.id ≡ s.id =
            ground (arith, find-passes (is_live s.id) row db.sessions e, eq_iff row.id s.id) in
          ground (arith, moved, to_entity-save s db db' storable h (update_model s row) same)
    ]

-- A lookup reads the found row and the messages of the session, nothing else.
pub find_by_id-rows :
    (id : String) (a b : SessionDb)
    → find (is_live id) a.sessions ≡ find (is_live id) b.sessions
    → keep (is_of id) a.messages ≡ keep (is_of id) b.messages
    → find_by_id id a ≡ find_by_id id b
unfolding find_by_id to_entity select_messages
find_by_id-rows id a b e e' = elim (Option-cases (find (is_live id) b.sessions)) [
  | inl h ↦ ground (arith, e)
  | inr (row, h) ↦
      let same : row.id ≡ id =
        ground (arith, find-passes (is_live id) row b.sessions h, eq_iff row.id id) in
      let rows : keep (is_of row.id) a.messages ≡ keep (is_of row.id) b.messages =
        subst (λ k. keep (is_of k) a.messages ≡ keep (is_of k) b.messages) (sym same) e' in
      simp (find_by_id, to_entity, select_messages, e, h, rows)
]

pub find_by_id-save_other :
    (s : Session) (db db' : SessionDb) (id : String)
    → save s db ≡ some db'
    → str_eq s.id id ≡ false
    → find_by_id id db' ≡ find_by_id id db
find_by_id-save_other s db db' id h d =
    find_by_id-rows id db' db
      (find-put_model_other s db.sessions db'.sessions (save-tables s db db' h).0 id d)
      (keep-save_other s db db' id h d)
