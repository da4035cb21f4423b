-- ===== src/Agent/SessionManagement/Posting.antt =====
-- A message that is added to a session is found in it: agent-runtime/app/domain/services/
-- session_management.py.
use mathlib.Core.Path.{subst}
use codelab_ai_service.Agent.Message.{Message, is_valid_content, parse_role}
use codelab_ai_service.Agent.Session.{
  Session, add_message as add_to_session, set_title_from_message, added, Outcome, AddError, raised,
}
use codelab_ai_service.Agent.SessionRepository.{save, found, find_by_id, Found, broken, missing}
use codelab_ai_service.Agent.SessionRepository.RoundTrip.{
  IsStorable, kept_message, find_by_id-save, kept_session, created_in, find_by_id-save_other,
}
use codelab_ai_service.Prelude.{
  refl, sym, ap, All, Bool-cases, List, Option-cases, arith, inl, inr, leb, some, true, ℕ, ◌++◌,
  ◌∷◌, ◌≡◌, [], String, false, map, str_eq, length, ◌⊎◌, ◌∙◌,
}
use codelab_ai_service.Agent.SessionManagement.{
  SessionService, SessionEvent, Posted, Draft, returned, message_from, save_and_publish,
  add_message, get_session, message_received, put_message,
}
use codelab_ai_service.Agent.SessionRepository.Loading.{find_by_id-IsStorable}

-- A saved session is in the tables of the service that is returned.
save_and_publish-returned :
    (session : Session) (e : SessionEvent) (m m' : Message) (s s' : SessionService)
    → save_and_publish session e m s ≡ returned m' s'
    → (m' ≡ m) × (save session s.db ≡ some s'.db)
save_and_publish-returned session e m m' s s' h = elim (Option-cases (save session s.db)) [
  | inl e ↦ ground arith
  | inr (db, e) ↦ elim (Bool-cases s.publisher) [ inl e' ↦ ground arith | inr e' ↦ ground arith ]
]

message_from-valid :
    (posted : Posted) (d : Draft) (m : Message)
    → message_from posted d ≡ some m
    → (is_valid_content m.role m.content ≡ true) × (m.created_at ≡ posted.created)
unfolding message_from
message_from-valid posted d m h = elim (Option-cases (parse_role d.role)) [
  | inl e ↦ ground arith
  | inr (role, e) ↦ elim (Bool-cases (is_valid_content role d.content)) [
    | inl e' ↦ ground (arith, e')
    | inr e' ↦ ground arith
  ]
]

-- What the entity did with a message that it took.
added_lem :
    (active marked : ℕ) (m : Message) (t t' : Session)
    → add_to_session active marked m t ≡ added t'
    → (t'.id ≡ t.id) × (t'.messages ≡ t.messages ++ m ∷ [])
unfolding add_to_session set_title_from_message
added_lem active marked m t t' h = ground arith

IsStorable-append :
    (ms : List Message) (m : Message)
    → IsStorable ms
    → is_valid_content m.role m.content ≡ true
    → All (λ n. leb n.created_at m.created_at ≡ true) ms
    → IsStorable (ms ++ m ∷ [])
IsStorable-append [] m h valid later = ((valid, tt), tt)
IsStorable-append (n ∷ []) m h valid later =
    let (v, vs) = h.0 in let (l, ls) = later in ((v, (valid, tt)), (l, tt))
IsStorable-append (n ∷ n' ∷ ms) m ((v, vs), (c, cs)) valid (l, ls) =
    let (vs', cs') = IsStorable-append (n' ∷ ms) m (vs, cs) valid ls in ((v, vs'), (c, cs'))

Outcome-cases : (o : Outcome) → ((t : Session) × (o ≡ added t)) ⊎ ((e : AddError) × (o ≡ raised e))
Outcome-cases (added t) = inl (t, refl)
Outcome-cases (raised e) = inr (e, refl)

put_message-returned :
    (posted : Posted) (id : String) (d : Draft) (n m : Message) (t : Session)
    (s s' : SessionService)
    → put_message posted id d n t s ≡ returned m s'
    → (m ≡ n)
      × (t' : Session) × (add_to_session posted.active posted.marked n t ≡ added t')
      × (save t' s.db ≡ some s'.db)
put_message-returned posted id d n m t s s' h =
    elim (Outcome-cases (add_to_session posted.active posted.marked n t)) [
      | inl (t', e) ↦
          let event = message_received id n.id d.role (length d.content) in
          let kept = save_and_publish-returned t' event n m s s' (ground arith) in
          (kept.0, t', e, kept.1)
      | inr (r, e) ↦ ground arith
    ]

-- A draft that is added gives a saved session.
add_message-saved :
    (posted : Posted) (id : String) (d : Draft) (s s' : SessionService) (m : Message) (t : Session)
    → get_session id s ≡ inr t
    → add_message posted id d s ≡ returned m s'
    → (message_from posted d ≡ some m)
      × (t' : Session) × (add_to_session posted.active posted.marked m t ≡ added t')
      × (save t' s.db ≡ some s'.db)
unfolding add_message
add_message-saved posted id d s s' m t h h' = elim (Option-cases (message_from posted d)) [
  | inl e ↦ ground arith
  | inr (n, e) ↦
      let (same, t', taken, saved) =
        put_message-returned posted id d n m t s s' (ground (arith, h, e, h')) in
      (
        ground (arith, e, same),
        t',
        subst (λ k. add_to_session posted.active posted.marked k t ≡ added t') (sym same) taken,
        saved,
      )
]

Found-cases : (o : Found) → (o ≡ missing) ⊎ (((t : Session) × (o ≡ found t)) ⊎ (o ≡ broken))
Found-cases missing = inl refl
Found-cases (found t) = inr (inl (t, refl))
Found-cases broken = inr (inr refl)

get_session-same :
    (k : String) (s s' : SessionService)
    → find_by_id k s'.db ≡ find_by_id k s.db
    → get_session k s' ≡ get_session k s
unfolding get_session
get_session-same k s s' e = rw (e, get_session)

get_session-find_by_id :
    (id : String) (s : SessionService) (t : Session)
    → (get_session id s ≡ inr t → find_by_id id s.db ≡ found t)
      × (find_by_id id s.db ≡ found t → get_session id s ≡ inr t)
unfolding get_session
get_session-find_by_id id s t = elim (Found-cases (find_by_id id s.db)) [
  | inl e ↦ ground (arith, e)
  | inr (inl (u, e)) ↦ ground (arith, e)
  | inr (inr e) ↦ ground (arith, e)
]

-- When a message is added to a session that is found, and no message of the session is later than
-- the clock, then the session is found again with that message at the end of the messages it had,
-- and any other session is found as before.
pub add_message-found :
    (posted : Posted) (id : String) (d : Draft) (s s' : SessionService) (m : Message) (t : Session)
    → get_session id s ≡ inr t
    → All (λ n. leb n.created_at posted.created ≡ true) t.messages
    → add_message posted id d s ≡ returned m s'
    → (k : String) → str_eq id k ≡ false
    → (get_session k s' ≡ get_session k s)
      × (t' : Session) × (get_session id s' ≡ inr t')
      × (t'.messages ≡ map kept_message (t.messages ++ m ∷ []))
add_message-found posted id d s s' m t h later h' k d' =
    let (made, t', taken, saved) = add_message-saved posted id d s s' m t h h' in
    let (valid, time) = message_from-valid posted d m made in
    let (storable, named) = find_by_id-IsStorable id s.db t ((get_session-find_by_id id s t).0 h) in
    let (name, rows) = added_lem posted.active posted.marked m t t' taken in
    let fits : IsStorable t'.messages = subst IsStorable (sym rows) (
      IsStorable-append t.messages m storable valid
        (subst (λ c. All (λ n. leb n.created_at c ≡ true) t.messages) (sym time) later)) in
    let kept = kept_session (created_in s.db t') t' in
    let read = find_by_id-save t' s.db s'.db fits saved in
    let here : t'.id ≡ id = name ∙ named in
    let apart = subst (λ i. str_eq i k ≡ false) (sym here) d' in
    (
      get_session-same k s s' (find_by_id-save_other t' s.db s'.db k saved apart),
      kept,
      (get_session-find_by_id id s' kept).1
          (subst (λ i. find_by_id i s'.db ≡ found kept) here read),
      ap (map kept_message) rows,
    )
