-- ===== src/Agent/Session/Recent.antt =====
-- Which messages of a session (session.py) are recent.
use codelab_ai_service.Prelude.{
  List, ℕ, suc, drop, take, length, min, ap, refl, zero, ◌++◌, ◌-◌, ◌∷◌, ◌≡◌, [], arith,
  length-drop, sym,
}
use codelab_ai_service.Prelude.Int.{pos}
use codelab_ai_service.Agent.Session.{Session, get_recent_messages}
use codelab_ai_service.Agent.Message.{Message}

take-drop : (n : ℕ) (xs : List Message) → take n xs ++ drop n xs ≡ xs
take-drop zero xs = refl
take-drop (suc n) [] = refl
take-drop (suc n) (x ∷ xs) = ap (λ (ys : List Message). x ∷ ys) (take-drop n xs)

-- With a positive limit, the recent messages are the end of the dialogue, as many as the limit or all
-- if there are fewer; with a limit of 0 they are all of it.
get_recent_messages-end :
    (n : ℕ) (s : Session)
    → (length (get_recent_messages (pos (suc n)) s) ≡ min (suc n) (length s.messages))
      × (s.messages
          ≡ take (length s.messages - suc n) s.messages ++ get_recent_messages (pos (suc n)) s)
      × (get_recent_messages (pos 0) s ≡ s.messages)
unfolding get_recent_messages
get_recent_messages-end n s =
    let k = length s.messages - suc n in
    (omega (arith, length-drop k s.messages), sym (take-drop k s.messages), refl)
