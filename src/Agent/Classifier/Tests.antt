-- ===== src/Agent/Classifier/Tests.antt =====
-- Requests that the classifier takes to an agent, and the first list that a keyword is in.
use codelab_ai_service.Prelude.{codes, refl, text_eq, some, true, ◌∷◌, ◌≡◌, []}
use codelab_ai_service.Prelude.Json.{object_of, text}
use codelab_ai_service.Agent.Context.{architect, ask, coder, debug}
use codelab_ai_service.Agent.Classifier.{is_in, fallback_classify, classify_task_with_llm}

inside : is_in (codes "bug") (codes "a bug here") ≡ true
unfolding is_in
inside = refl

fixing_comes_first : fallback_classify (codes "fix the bug") ≡ coder
unfolding fallback_classify
fixing_comes_first = refl

planned : fallback_classify (codes "plan a layout") ≡ architect
unfolding fallback_classify
planned = refl

asked : fallback_classify (codes "how does it go") ≡ ask
unfolding fallback_classify
asked = refl

answered :
    (classify_task_with_llm
      (λ t. t)
      (some (object_of (("agent", text "debug") ∷ [])))
      (codes "it stops")).target
    ≡ debug
unfolding classify_task_with_llm text_eq
answered = refl
