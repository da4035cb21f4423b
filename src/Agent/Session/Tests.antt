-- ===== src/Agent/Session/Tests.antt =====
-- Messages and sessions (message.py, session.py) at concrete inputs, and the theorems about them there.
use codelab_ai_service.Prelude.{
  codes, List, [], ◌∷◌, none, some, ℕ, Text, arith, refl, strip, true, ◌≡◌, is_space,
}
use codelab_ai_service.Agent.Message.{
  Message, user, assistant, from_llm_format, to_llm_format, is_valid_content, Role,
}
use codelab_ai_service.Agent.Message.RoundTrip.{kept, from_llm_format-to_llm_format}
use codelab_ai_service.Agent.Session.{Session, post, stop, start, wipe, run, new_session}
use codelab_ai_service.Agent.Session.Title.{posts, texts, title_of, run-posts_new}
use codelab_ai_service.Agent.Session.Capacity.{IsWithin, run-IsWithin}

abbrev message : Role → Text → Message
message role content = record {
  id = "m";
  created_at = 1;
  updated_at = none;
  role = role;
  content = content;
  name = some "";
  tool_call_id = none;
  tool_calls = none;
  metadata = [];
}

abbrev greeting : Message
greeting = message user (codes " hi ")

abbrev talk : List (ℕ × ℕ × Message)
talk = (1, 2, message assistant []) ∷ (3, 4, greeting) ∷ (5, 6, message user (codes "bye")) ∷ []

spoken : is_valid_content user (codes " hi ") ≡ true
unfolding is_valid_content strip codelab_ai_service.Prelude.is_space
spoken = refl

left : is_valid_content user (codes "bye") ≡ true
unfolding is_valid_content strip codelab_ai_service.Prelude.is_space
left = refl

silent : is_valid_content assistant [] ≡ true
unfolding is_valid_content
silent = refl

from_llm_format-to_llm_format_example :
    from_llm_format 9 (to_llm_format greeting) "new" ≡ some (kept 9 "new" greeting)
from_llm_format-to_llm_format_example = from_llm_format-to_llm_format 9 "new" greeting spoken

run-posts_new_example :
    ((run (posts talk) (new_session "s1" 0 0)).messages ≡ texts talk)
    × ((run (posts talk) (new_session "s1" 0 0)).title ≡ title_of none (some greeting))
run-posts_new_example = run-posts_new talk "s1" 0 0 (omega arith) (silent, (spoken, (left, tt)))

abbrev dialogue : Session
dialogue = record (new_session "s1" 0 0) { messages = greeting ∷ message user (codes "bye") ∷ [] }

run-IsWithin_example : IsWithin (
    run
      (post 1 2 greeting ∷ stop 3 "noon" none ∷ post 4 5 greeting ∷ start 6 ∷ wipe 7 ∷ [])
      dialogue)
run-IsWithin_example =
    run-IsWithin
      (post 1 2 greeting ∷ stop 3 "noon" none ∷ post 4 5 greeting ∷ start 6 ∷ wipe 7 ∷ []) dialogue
      (omega arith, omega arith)
