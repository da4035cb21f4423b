-- ===== src/Agent/SessionRepository/Cleanup.antt =====
-- The clean-up of old sessions: agent-runtime/app/infrastructure/persistence/repositories/
-- session_repository_impl.py.
use codelab_ai_service.Agent.SessionRepository.{
  SessionDb, SessionModel, mark, cleanup_old, count, count_active, is_not_deleted, is_live_active,
  is_live, is_outdated, hour, find_by_id,
}
use codelab_ai_service.Agent.SessionRepository.RoundTrip.{find_by_id-rows}
use codelab_ai_service.Prelude.{
  String, ap, arith, false, find, length, refl, some, sym, true, ℕ, ◌*◌, ◌+◌, ◌-◌, ◌∙◌, ◌≡◌, ◌≤◌,
  ◌⊎◌,
}
use codelab_ai_service.Prelude.Selecting.{
  change_some, find-change_some, keep-change_some, length-change_some,
}

pub cleanup_old-counts :
    (now max_age_hours batch_size : ℕ) (db : SessionDb)
    → ((cleanup_old now max_age_hours batch_size db).0 ≤ batch_size)
      × (count (cleanup_old now max_age_hours batch_size db).1
            + (cleanup_old now max_age_hours batch_size db).0
          ≡ count db)
      × (count_active (cleanup_old now max_age_hours batch_size db).1 ≡ count_active db)
unfolding cleanup_old count count_active
cleanup_old-counts now max_age_hours batch_size db =
    let cutoff = now - max_age_hours * hour in
    let counted =
      length-change_some is_not_deleted (is_outdated cutoff) (mark now) (λ row h. ground arith)
        (λ row h. refl) batch_size db.sessions in
    let active =
      keep-change_some is_live_active (is_outdated cutoff) (mark now) (λ row h. ground arith)
        (λ row h. ground arith) batch_size db.sessions in
    (counted.0, counted.1, ap length active)

-- A clean-up leaves what is found of a session as it was when its row is active, or its last
-- activity is not before the given age.
pub cleanup_old-spares :
    (now max_age_hours batch_size : ℕ) (db : SessionDb) (id : String) (row : SessionModel)
    → find (is_live id) db.sessions ≡ some row
    → (row.is_active ≡ true) ⊎ (now - max_age_hours * hour ≤ row.last_activity)
    → find_by_id id (cleanup_old now max_age_hours batch_size db).1 ≡ find_by_id id db
unfolding cleanup_old
cleanup_old-spares now max_age_hours batch_size db id row h h' =
    let cutoff = now - max_age_hours * hour in
    let kept : is_outdated cutoff row ≡ false = ground (arith, h') in
    let rows = change_some (is_outdated cutoff) (mark now) batch_size db.sessions in
    find_by_id-rows id (record db { sessions = rows.1 }) db
      (find-change_some (is_live id) (is_outdated cutoff) (mark now) (λ x e. ground arith)
          batch_size db.sessions row h kept
        ∙ sym h)
      refl
