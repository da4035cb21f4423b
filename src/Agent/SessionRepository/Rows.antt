-- ===== src/Agent/SessionRepository/Rows.antt =====
-- The tables after a call of `save`: agent-runtime/app/infrastructure/persistence/mappers/
-- session_mapper.py.
use mathlib.Core.List.{append-nil, append_assoc}
use codelab_ai_service.Prelude.{
  ap, ◌∙◌, Bool-cases, Option-cases, refl, All, List, String, false, find, keep, map, none, not,
  some, str_eq, true, ◌++◌, ◌∷◌, ◌≡◌, [], arith, eq_refl, inl, inr, eq_iff, is_some,
}
use codelab_ai_service.Prelude.Selecting.{
  keep-append, keep-All, keep-none, keep-keep, keep-keep-none, find-append, find-change,
  find-change_other,
}
use codelab_ai_service.Agent.Message.{Message}
use codelab_ai_service.Agent.Session.{Session}
use codelab_ai_service.Agent.SessionRepository.{
  MessageModel, SessionDb, add_messages, message_row, is_of, put_model, save, is_live, new_model,
  update_model, SessionModel, has_key,
}

pub add_messages_lem :
    (ms rows rows' : List MessageModel) → add_messages ms rows ≡ some rows' → rows' ≡ rows ++ ms
unfolding add_messages
add_messages_lem [] rows rows' h = ground (arith, append-nil rows)
add_messages_lem (m ∷ ms) rows rows' h =
    ground (arith, add_messages_lem ms (rows ++ m ∷ []) rows', append_assoc rows (m ∷ []) ms)

-- What a successful `save` has done to the two tables.
pub save-tables :
    (s : Session) (db db' : SessionDb)
    → save s db ≡ some db'
    → (put_model s db.sessions ≡ some db'.sessions)
      × (db'.messages
          ≡ keep (λ row. not (is_of s.id row)) db.messages ++ map (message_row s.id) s.messages)
unfolding save
save-tables s db db' h = elim (Option-cases (put_model s db.sessions)) [
  | inl e ↦ ground arith
  | inr (t, e) ↦
      let kept = keep (λ row. not (is_of s.id row)) db.messages in
      let rows = map (message_row s.id) s.messages in
      elim (Option-cases (add_messages rows kept)) [
        | inl e' ↦ ground arith
        | inr (t', e') ↦ ground (arith, add_messages_lem rows kept t')
      ]
]

All-rows :
    (id : String) (ms : List Message) → All (λ row. is_of id row ≡ true) (map (message_row id) ms)
unfolding message_row
All-rows id [] = tt
All-rows id (m ∷ ms) = (eq_refl id, All-rows id ms)

All-rows_other :
    (k id : String)
    → str_eq k id ≡ false
    → (ms : List Message) → All (λ row. is_of id row ≡ false) (map (message_row k) ms)
unfolding message_row
All-rows_other k id e [] = tt
All-rows_other k id e (m ∷ ms) = (e, All-rows_other k id e ms)

-- The rows of the session are those of its messages.
pub keep-save :
    (s : Session) (db db' : SessionDb)
    → save s db ≡ some db'
    → keep (is_of s.id) db'.messages ≡ map (message_row s.id) s.messages
keep-save s db db' h =
    let other = λ (row : MessageModel). not (is_of s.id row) in
    let rows = map (message_row s.id) s.messages in
    ap (keep (is_of s.id)) (save-tables s db db' h).1
    ∙ keep-append (is_of s.id) (keep other db.messages) rows
    ∙ ap (λ xs. xs ++ keep (is_of s.id) rows)
        (keep-keep-none (is_of s.id) other (λ row e. ground arith) db.messages)
    ∙ keep-All (is_of s.id) rows (All-rows s.id s.messages)

-- Those of another session are as they were.
pub keep-save_other :
    (s : Session) (db db' : SessionDb) (id : String)
    → save s db ≡ some db'
    → str_eq s.id id ≡ false
    → keep (is_of id) db'.messages ≡ keep (is_of id) db.messages
keep-save_other s db db' id h e =
    let other = λ (row : MessageModel). not (is_of s.id row) in
    let rows = map (message_row s.id) s.messages in
    ap (keep (is_of id)) (save-tables s db db' h).1
    ∙ keep-append (is_of id) (keep other db.messages) rows
    ∙ ap (λ xs. xs ++ keep (is_of id) rows)
        (keep-keep (is_of id) other
          (λ row e'.
            ground
              (arith, eq_iff row.session_db_id id, eq_iff row.session_db_id s.id, eq_iff s.id id))
          db.messages)
    ∙ ap (λ xs. keep (is_of id) db.messages ++ xs)
        (keep-none (is_of id) rows (All-rows_other s.id id e s.messages))
    ∙ append-nil (keep (is_of id) db.messages)

module _ (s : Session) (rows rows' : List SessionModel) (h : put_model s rows ≡ some rows') where
  -- The row that is found.
  pub find-put_model : find (is_live s.id) rows' ≡ elim (find (is_live s.id) rows) [
    | none ↦ some (new_model s)
    | some row ↦ some (update_model s row)
  ]
  unfolding put_model
  find-put_model = elim (Option-cases (find (is_live s.id) rows)) [
    | inl e ↦ elim (Bool-cases (is_some (find (has_key s.id) rows))) [
      | inl e' ↦ ground arith
      | inr e' ↦ ground (arith, find-append (is_live s.id) rows (new_model s ∷ []), eq_refl s.id)
    ]
    | inr (row, e) ↦ ground (arith, find-change (is_live s.id) (update_model s) (λ row. refl) rows)
  ]

  pub find-put_model_other :
      (id : String) → str_eq s.id id ≡ false → find (is_live id) rows' ≡ find (is_live id) rows
  unfolding put_model
  find-put_model_other id d = elim (Option-cases (find (is_live s.id) rows)) [
    | inl e ↦ elim (Bool-cases (is_some (find (has_key s.id) rows))) [
      | inl e' ↦ ground arith
      | inr e' ↦ ground (
        arith,
        find-append (is_live id) rows (new_model s ∷ []),
        Option-cases (find (is_live id) rows),
      )
    ]
    | inr (row, e) ↦ ground (
      arith,
      find-change_other (is_live id) (is_live s.id) (update_model s)
          (λ row e'. ground (arith, eq_iff row.id id, eq_iff row.id s.id, eq_iff s.id id))
          (λ row e'. ground (arith, eq_iff row.id id, eq_iff row.id s.id, eq_iff s.id id)) rows,
    )
  ]
