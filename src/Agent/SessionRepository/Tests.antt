-- ===== src/Agent/SessionRepository/Tests.antt =====
-- The repository of sessions at concrete inputs, and the theorems about it there.
use codelab_ai_service.Agent.SessionRepository.{
  SessionDb, save, new_model, message_row, found, missing, find_by_id, delete, cleanup_old,
  put_model, add_messages,
}
use codelab_ai_service.Agent.Message.{Message, Role, user, assistant}
use codelab_ai_service.Agent.Session.{Session, new_session}
use codelab_ai_service.Agent.SessionRepository.RoundTrip.{
  find_by_id-save, kept_session, created_in, IsStorable,
}
use codelab_ai_service.Agent.SessionRepository.Refinement.{
  run_refines, run, replay, store, erase, Reads, Call,
}
use codelab_ai_service.Agent.SessionRepository.Saving.{save-succeeds}
use codelab_ai_service.Agent.SessionRepository.Cleanup.{cleanup_old-spares}
use codelab_ai_service.Prelude.{
  List, String, arith, codes, inl, inr, is_space, none, refl, some, strip, ℕ, ◌∷◌, ◌≡◌, [],
}

abbrev message : String → ℕ → Role → String → Message
message id time role content = record {
  id = id;
  created_at = time;
  updated_at = some 9;
  role = role;
  content = codes content;
  name = none;
  tool_call_id = none;
  tool_calls = some [];
  metadata = [];
}

abbrev talk : Session
talk = record (new_session "s" 1 2) {
  messages = message "a" 3 user "hello" ∷ message "b" 3 assistant "" ∷ [];
}

abbrev no_rows : SessionDb
no_rows = record { sessions = []; messages = [] }

-- The tables after the session is saved.
abbrev one_row : SessionDb
one_row = record {
  sessions = new_model talk ∷ [];
  messages =
      message_row "s" (message "a" 3 user "hello")
      ∷ message_row "s" (message "b" 3 assistant "")
      ∷ [];
}

saved : save talk no_rows ≡ some one_row
unfolding save put_model add_messages message_row
saved = refl

talk-IsStorable : IsStorable talk.messages
unfolding codelab_ai_service.Agent.Message.is_valid_content strip
    codelab_ai_service.Prelude.is_space
talk-IsStorable = ((refl, (refl, tt)), (refl, tt))

find_by_id-save_example :
    find_by_id "s" one_row ≡ found (kept_session (created_in no_rows talk) talk)
find_by_id-save_example = find_by_id-save talk no_rows one_row talk-IsStorable saved

abbrev calls : List Call
calls = store talk ∷ erase 5 "s" ∷ []

no_rows-Reads : Reads no_rows (λ id. missing)
unfolding find_by_id
no_rows-Reads id = (refl, λ e. ground (arith, e))

abbrev erased_row : SessionDb
erased_row = (delete 5 "s" one_row).1

ran : run calls no_rows ≡ some erased_row
unfolding run save put_model add_messages message_row
ran = refl

run_refines_example : Reads erased_row (replay calls (λ id. missing))
run_refines_example =
    run_refines calls no_rows erased_row (λ id. missing) (talk-IsStorable, tt) no_rows-Reads ran

save-succeeds_example : (db : SessionDb) × (save talk no_rows ≡ some db)
save-succeeds_example =
    save-succeeds talk no_rows (inr refl) ((refl, tt), (tt, tt)) (refl, (refl, tt))

cleanup_old-spares_example :
    find_by_id "s" (cleanup_old 50 24 100 one_row).1 ≡ find_by_id "s" one_row
cleanup_old-spares_example =
    cleanup_old-spares 50 24 100 one_row "s" (new_model talk) refl (inl refl)
