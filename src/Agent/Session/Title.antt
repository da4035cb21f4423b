-- ===== src/Agent/Session/Title.antt =====
-- Where the title of a session (session.py) comes from.
use mathlib.Core.List.{append-nil, append_assoc}
use codelab_ai_service.Agent.Session.{
  Session, Call, post, apply, has_title, add_message, set_title_from_message, run, new_session,
}
use codelab_ai_service.Agent.Message.{
  Message, is_user_message, is_valid_content, assistant, system, tool, user, Role, same_role,
}
use codelab_ai_service.Prelude.{
  List, Option, Text, ap, arith, has_text, if◌then◌else◌, length, ltb, none, not, refl, some, strip,
  suc, take, true, zero, ℕ, ◌&&◌, ◌++◌, ◌<◌, ◌∷◌, ◌≡◌, ◌≤◌, [], Bool-cases, false, inl, inr, leb,
  All, String, find, ◌+◌, length-append, sym, ◌∙◌,
}

-- Messages posted one after another, with the times of each.
abbrev pub posts : List (ℕ × ℕ × Message) → List Call
posts [] = []
posts ((active, marked, m) ∷ rest) = post active marked m ∷ posts rest

abbrev pub texts : List (ℕ × ℕ × Message) → List Message
texts [] = []
texts ((active, marked, m) ∷ rest) = m ∷ texts rest

-- The contents of `validate_content`.
abbrev pub IsValid : Message → Type 0
IsValid m = is_valid_content m.role m.content ≡ true

-- The title that a message gives, or that of before.
abbrev pub title_of : Option Text → Option Message → Option Text
title_of t none = t
title_of t (some m) = some (take 500 (strip m.content))

take_all : (n : ℕ) (xs : Text) → length xs ≤ n → take n xs ≡ xs
take_all zero [] h = refl
take_all zero (x ∷ xs) h = absurd (omega (arith, h))
take_all (suc n) [] h = refl
take_all (suc n) (x ∷ xs) h = ap (λ (ys : Text). x ∷ ys) (take_all n xs (omega (arith, h)))

cut-take : (n : ℕ) (s : Text) → (if ltb n (length s) then take n s else s) ≡ take n s
cut-take n s = ground (arith, take_all n s)

-- The contents of a user's message are not blank.
has_text-strip :
    (r : Role) (content : Text)
    → same_role r user ≡ true
    → is_valid_content r content ≡ true
    → has_text (strip content) ≡ true
unfolding is_valid_content
has_text-strip user content e h = h
has_text-strip assistant content e h = cc
has_text-strip system content e h = cc
has_text-strip tool content e h = cc

has_text-take : (s : Text) → has_text s ≡ true → has_text (take 500 s) ≡ true
has_text-take [] h = h
has_text-take (c ∷ s) h = refl

-- The session after a post that has room.
abbrev after : ℕ → ℕ → Message → Session → Session
after active marked m s = record s {
  messages = s.messages ++ m ∷ [];
  last_activity = active;
  updated_at = some marked;
  title =
      if not (has_title s.title) && is_user_message m
      then some (take 500 (strip m.content))
      else s.title;
}

apply-post :
    (active marked : ℕ) (m : Message) (s : Session)
    → s.is_active ≡ true
    → length s.messages < s.max_messages
    → IsValid m
    → apply (post active marked m) s ≡ after active marked m s
unfolding apply add_message set_title_from_message
apply-post active marked m s on room valid =
    let space : leb s.max_messages (length s.messages) ≡ false = ground arith in
    elim (Bool-cases (not (has_title s.title) && same_role m.role user)) [
      | inl yes_title ↦
          let spoken = has_text-strip m.role m.content (ground arith) valid in
          simp (
            on,
            space,
            yes_title,
            spoken,
            cut-take 500 (strip m.content),
            apply,
            add_message,
            set_title_from_message,
          )
      | inr other ↦ simp (on, space, other, apply, add_message, set_title_from_message)
    ]

-- The title at the end, by that at the beginning.
abbrev title_after : Option Text → List Message → Option Text
title_after t ms = if has_title t then t else title_of t (find is_user_message ms)

title_after-cons :
    (t : Option Text) (m : Message) (ms : List Message)
    → IsValid m
    → title_after
        (if not (has_title t) && is_user_message m then some (take 500 (strip m.content)) else t)
        ms
      ≡ title_after t (m ∷ ms)
title_after-cons t m ms valid = elim (Bool-cases (has_title t)) [
  | inl titled ↦ simp (titled, title_after)
  | inr bare ↦ elim (Bool-cases (same_role m.role user)) [
    | inl spoken ↦
        let first =
          has_text-take (strip m.content) (has_text-strip m.role m.content spoken valid) in
        simp (bare, spoken, first)
    | inr other ↦ simp (bare, other)
  ]
]

run-posts :
    (ps : List (ℕ × ℕ × Message)) (s : Session)
    → s.is_active ≡ true
    → length s.messages + length ps ≤ s.max_messages
    → All IsValid (texts ps)
    → ((run (posts ps) s).messages ≡ s.messages ++ texts ps)
      × ((run (posts ps) s).title ≡ title_after s.title (texts ps))
unfolding run
run-posts [] s on room valid = (sym (append-nil s.messages), ground arith)
run-posts ((active, marked, m) ∷ rest) s on room valid =
    let more = length-append s.messages (m ∷ []) in
    let (kept, titled) =
      run-posts rest (after active marked m s) on (omega (arith, more, room)) valid.1 in
    let e = apply-post active marked m s on (omega (arith, room)) valid.0 in
    rw (e, run)
      (
        kept ∙ append_assoc s.messages (m ∷ []) (texts rest),
        titled ∙ title_after-cons s.title m (texts rest) valid.0,
      )

-- After valid messages have been posted to a new session, no more than its 1000, it holds them in the
-- order of the posts, and its title is the first 500 characters of the first message of the user,
-- without the white space around it; there is none if no message is the user's.
pub run-posts_new :
    (ps : List (ℕ × ℕ × Message)) (id : String) (created active : ℕ)
    → length ps ≤ 1000
    → All IsValid (texts ps)
    → let s = run (posts ps) (new_session id created active) in
      (s.messages ≡ texts ps) × (s.title ≡ title_of none (find is_user_message (texts ps)))
run-posts_new ps id created active room valid =
    run-posts ps (new_session id created active) refl (omega arith) valid
