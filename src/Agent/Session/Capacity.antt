-- ===== src/Agent/Session/Capacity.antt =====
-- What no call of the methods of a session (session.py) breaks.
use codelab_ai_service.Agent.Session.{
  Session, Call, post, stop, start, wipe, apply, run, deactivate, set_title_from_message,
  add_message, activate, clear_messages,
}
use codelab_ai_service.Prelude.{
  List, get_or, length, ◌∷◌, ◌≤◌, [], Bool-cases, Text, arith, has_text, if◌then◌else◌, inl, inr,
  leb, length-append, length-take, ltb, some, strip, take, ℕ, ◌++◌,
}
use codelab_ai_service.Agent.Message.{Message}

-- The messages and the title keep to their limits.
abbrev pub IsWithin : Session → Type 0
IsWithin s = (length s.messages ≤ s.max_messages) × (length (get_or s.title []) ≤ 500)

length-cut :
    (n : ℕ) (content : Text)
    → length (if ltb n (length content) then take n content else content) ≤ n
length-cut n content = ground (arith, length-take n content)

set_title-IsWithin :
    (m : Message) (s : Session) → IsWithin s → IsWithin (set_title_from_message m s)
unfolding set_title_from_message
set_title-IsWithin m s h = elim (Bool-cases (has_text (strip m.content))) [
  | inl given ↦ rw (given, set_title_from_message) (h.0, length-cut 500 (strip m.content))
  | inr blank ↦ rw (blank, set_title_from_message) h
]

-- The session with one message more.
abbrev grown : ℕ → ℕ → Message → Session → Session
grown active marked m s = record s {
  messages = s.messages ++ m ∷ [];
  last_activity = active;
  updated_at = some marked;
}

post-IsWithin :
    (active marked : ℕ) (m : Message) (s : Session)
    → IsWithin s
    → IsWithin (apply (post active marked m) s)
unfolding apply add_message
post-IsWithin active marked m s h = elim (Bool-cases (leb s.max_messages (length s.messages))) [
  | inl too_many ↦ ground arith
  | inr room ↦
      let now : IsWithin (grown active marked m s) =
        (ground (arith, length-append s.messages (m ∷ [])), h.1) in
      let titled = set_title-IsWithin m (grown active marked m s) now in ground arith
]

apply-IsWithin : (call : Call) (s : Session) → IsWithin s → IsWithin (apply call s)
unfolding apply deactivate activate clear_messages
apply-IsWithin (post active marked m) s h = post-IsWithin active marked m s h
apply-IsWithin (stop marked stamp reason) s h = ground arith
apply-IsWithin (start marked) s h = h
apply-IsWithin (wipe marked) s h = (omega arith, h.1)

-- No sequence of calls, failing ones included, brings a session over its `max_messages` messages, or
-- its title over 500 characters.
pub run-IsWithin : (calls : List Call) (s : Session) → IsWithin s → IsWithin (run calls s)
unfolding run
run-IsWithin [] s h = h
run-IsWithin (call ∷ calls) s h = run-IsWithin calls (apply call s) (apply-IsWithin call s h)
