-- ===== src/Agent/SessionManagement/Deleted.antt =====
-- A session that was deleted: agent-runtime/app/domain/services/session_management.py over
-- agent-runtime/app/infrastructure/persistence/repositories/session_repository_impl.py.
use codelab_ai_service.Agent.SessionRepository.{
  SessionDb, SessionModel, delete, find_by_id, has_key, is_live, delete_model,
}
use codelab_ai_service.Agent.SessionRepository.Saving.{save-deleted}
use codelab_ai_service.Agent.SessionManagement.{
  SessionService, Birth, failed, not_found, repository_error, create_session, get_session,
  get_or_create_session,
}
use codelab_ai_service.Prelude.{
  String, arith, false, find, inl, is_some, none, refl, some, str_eq, true, ℕ, ◌≡◌,
}
use codelab_ai_service.Prelude.Selecting.{find-change, find-change-none}
use codelab_ai_service.Agent.Session.{new_session}

module _ (now : ℕ) (id : String) (db : SessionDb) (row : SessionModel)
    (h : find (has_key id) db.sessions ≡ some row) where
  -- The row is there, and not live.
  find-delete :
      (find (is_live id) (delete now id db).1.sessions ≡ none)
      × (is_some (find (has_key id) (delete now id db).1.sessions) ≡ true)
  unfolding delete
  find-delete = (
    ground (
      arith,
      find-change-none (is_live id) (has_key id) (delete_model now) (λ r e. ground arith)
          (λ r e. ground arith) db.sessions,
    ),
    ground (arith, find-change (has_key id) (delete_model now) (λ r. refl) db.sessions),
  )

-- The service after a deletion.
abbrev pub deleted : ℕ → String → SessionService → SessionService
deleted now id s = record s { db = (delete now id s.db).1 }

-- After a session of the table is deleted, a lookup answers that there is none, and yet neither
-- create_session nor get_or_create_session can make one with that identifier that is not empty:
-- both raise the error of the repository.
pub get_session-deleted :
    (now : ℕ) (id : String) (s : SessionService) (row : SessionModel)
    → find (has_key id) s.db.sessions ≡ some row
    → str_eq id "" ≡ false
    → (birth : Birth)
    → (get_session id (deleted now id s) ≡ inl (not_found id))
      × (create_session birth (some id) (deleted now id s) ≡ failed repository_error)
      × (get_or_create_session birth id (deleted now id s) ≡ failed repository_error)
unfolding get_session create_session get_or_create_session find_by_id
get_session-deleted now id s row h filled birth =
    let (gone, there) = find-delete now id s.db row h in
    let blocked =
      save-deleted (new_session id birth.created birth.active) (delete now id s.db).1 gone there in
    ground (arith, gone, blocked, filled)
