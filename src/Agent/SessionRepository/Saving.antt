-- ===== src/Agent/SessionRepository/Saving.antt =====
-- When a save succeeds: agent-runtime/app/infrastructure/persistence/mappers/session_mapper.py on the
-- primary keys of agent-runtime/app/infrastructure/persistence/models/session.py.
use mathlib.Core.List.{append-nil, append_assoc}
use codelab_ai_service.Agent.Message.{Message}
use codelab_ai_service.Agent.Session.{Session}
use codelab_ai_service.Agent.SessionRepository.{
  MessageModel, SessionDb, add_messages, has_key, is_live, is_of, message_row, put_model, save,
}
use codelab_ai_service.Prelude.{
  All, List, Option-cases, String, arith, false, find, inl, inr, is_some, keep, map, none, not,
  some, str_eq, true, ◌++◌, ◌∷◌, ◌≡◌, ◌⊎◌, [],
}
use codelab_ai_service.Prelude.Selecting.{find-append}

-- No row has the identifier of the message.
abbrev pub IsNew : List MessageModel → Message → Type 0
IsNew rows m = is_some (find (λ row. str_eq row.id m.id) rows) ≡ false

-- No two messages have one identifier.
abbrev pub AreDistinct : List Message → Type 0
AreDistinct [] = Unit
AreDistinct (m ∷ ms) = All (λ n. str_eq m.id n.id ≡ false) ms × AreDistinct ms

module _ (k : String) where
  All-IsNew :
      (m : Message) (rows : List MessageModel) (ms : List Message)
      → All (λ n. str_eq m.id n.id ≡ false) ms
      → All (IsNew rows) ms
      → All (IsNew (rows ++ message_row k m ∷ [])) ms
  unfolding message_row
  All-IsNew m rows [] h h' = tt
  All-IsNew m rows (n ∷ ms) (h, hs) (h', hs') = (
    ground (arith, find-append (λ row. str_eq row.id n.id) rows (message_row k m ∷ [])),
    All-IsNew m rows ms hs hs',
  )

  add_messages-IsNew :
      (ms : List Message) (rows : List MessageModel)
      → AreDistinct ms
      → All (IsNew rows) ms
      → add_messages (map (message_row k) ms) rows ≡ some (rows ++ map (message_row k) ms)
  unfolding add_messages message_row
  add_messages-IsNew [] rows h h' = ground (arith, append-nil rows)
  add_messages-IsNew (m ∷ ms) rows (h, hs) (h', hs') =
      let rest =
        add_messages-IsNew ms (rows ++ message_row k m ∷ []) hs (All-IsNew m rows ms h hs') in
      ground (arith, h', rest, append_assoc rows (message_row k m ∷ []) (map (message_row k) ms))

-- A save succeeds when the session has a row that is not deleted, or no row at all, its messages
-- have distinct identifiers, and no message of another session has one of them.
pub save-succeeds :
    (s : Session) (db : SessionDb)
    → (is_some (find (is_live s.id) db.sessions) ≡ true)
      ⊎ (is_some (find (has_key s.id) db.sessions) ≡ false)
    → AreDistinct s.messages
    → All (IsNew (keep (λ row. not (is_of s.id row)) db.messages)) s.messages
    → (db' : SessionDb) × (save s db ≡ some db')
unfolding save put_model
save-succeeds s db h distinct new =
    let kept = keep (λ row. not (is_of s.id row)) db.messages in
    let joined = add_messages-IsNew s.id s.messages kept distinct new in
    elim (Option-cases (put_model s db.sessions)) [
      | inl e ↦ elim (Option-cases (find (is_live s.id) db.sessions)) [
        | inl e' ↦ ground (arith, h)
        | inr (row, e') ↦ ground (arith, h)
      ]
      | inr (rows, e) ↦ (
        record { sessions = rows; messages = kept ++ map (message_row s.id) s.messages },
        ground (arith, joined),
      )
    ]

-- A session that was deleted is not saved again.
pub save-deleted :
    (s : Session) (db : SessionDb)
    → find (is_live s.id) db.sessions ≡ none
    → is_some (find (has_key s.id) db.sessions) ≡ true
    → save s db ≡ none
unfolding save put_model
save-deleted s db h h' = ground arith
