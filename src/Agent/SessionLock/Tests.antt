-- ===== src/Agent/SessionLock/Tests.antt =====
-- Tasks and the locks of two sessions (session_lock.py), and the theorem about them there.
use codelab_ai_service.Prelude.{List, [], ◌∷◌, true, lookup, refl, ◌≡◌, insert, remove, ℕ}
use codelab_ai_service.Agent.SessionLock.{
  Step, come, go_on, finish, sweep, run, new_manager, SessionLockManager, is_in,
}
use codelab_ai_service.Agent.SessionLock.Exclusion.{run-exclusive}

abbrev steps : List Step
steps = come 1 "s1" ∷ come 2 "s2" ∷ come 3 "s1" ∷ finish 1 0 ∷ go_on 0 ∷ []

held : is_in 3 ((run steps new_manager).heap 0).holders ≡ true
unfolding run lookup codelab_ai_service.Prelude.insert
held = refl

run-exclusive_example : (◌≡◌ {A = ℕ} 0 0) × (◌≡◌ {A = ℕ} 3 3)
run-exclusive_example = run-exclusive steps 3 3 0 0 tt held held refl

-- A sweep while the first waiter of a released lock has not taken it: two tasks are in the session.
abbrev race : List Step
race = come 1 "s1" ∷ come 2 "s1" ∷ finish 1 0 ∷ sweep 0 ∷ come 3 "s1" ∷ go_on 0 ∷ []

abbrev end : SessionLockManager
end = run race new_manager

both_held :
    (is_in 2 (end.heap 0).holders ≡ true)
    × (is_in 3 (end.heap 1).holders ≡ true)
    × ((end.heap 0).session ≡ (end.heap 1).session)
unfolding run lookup codelab_ai_service.Prelude.insert codelab_ai_service.Prelude.remove
both_held = (refl, refl, refl)
