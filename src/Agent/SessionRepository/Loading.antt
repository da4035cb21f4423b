-- ===== src/Agent/SessionRepository/Loading.antt =====
-- What a lookup gives: agent-runtime/app/infrastructure/persistence/mappers/session_mapper.py.
use mathlib.Core.Path.{subst}
use codelab_ai_service.Agent.Message.{Message, is_valid_content}
use codelab_ai_service.Agent.Session.{Session}
use codelab_ai_service.Agent.SessionRepository.{
  MessageModel, SessionDb, message_of, messages_of, is_before, find_by_id, to_entity,
  select_messages, found, is_live, session_of, is_of,
}
use codelab_ai_service.Prelude.{
  ap, ◌∙◌, All, Bool-cases, List, Option-cases, String, arith, find, get_or, inl, inr, leb, some,
  sym, true, ◌∷◌, ◌≡◌, [], eq_iff, keep,
}
use codelab_ai_service.Agent.SessionRepository.RoundTrip.{IsStorable}
use codelab_ai_service.Prelude.Sorting.{IsChain, IsChain-sort_by}
use codelab_ai_service.Prelude.Selecting.{find-passes}

message_of-some :
    (row : MessageModel) (m : Message)
    → message_of row ≡ some m
    → (is_valid_content m.role m.content ≡ true) × (m.created_at ≡ row.timestamp)
unfolding message_of
message_of-some row m h = elim (Bool-cases (is_valid_content row.role (get_or row.content []))) [
  | inl e ↦ ground (arith, e)
  | inr e ↦ ground arith
]

-- A list of rows that are read, one by one.
messages_of-cons :
    (row : MessageModel) (rows : List MessageModel) (ms : List Message)
    → messages_of (row ∷ rows) ≡ some ms
    → (m : Message) × (ns : List Message) × (message_of row ≡ some m)
      × (messages_of rows ≡ some ns)
      × (ms ≡ m ∷ ns)
unfolding messages_of
messages_of-cons row rows ms h = elim (Option-cases (message_of row)) [
  | inl e ↦ ground arith
  | inr (m, e) ↦ elim (Option-cases (messages_of rows)) [
    | inl e' ↦ ground arith
    | inr (ns, e') ↦ (m, ns, e, e', ground arith)
  ]
]

abbrev AreValid : List Message → Type 0
AreValid ms = All (λ m. is_valid_content m.role m.content ≡ true) ms

messages_of-AreValid :
    (rows : List MessageModel) (ms : List Message) → messages_of rows ≡ some ms → AreValid ms
unfolding messages_of
messages_of-AreValid [] ms h = let same : [] ≡ ms = ground (arith, h) in subst AreValid same tt
messages_of-AreValid (row ∷ rows) ms h =
    let (m, ns, e, e', same) = messages_of-cons row rows ms h in
    subst AreValid (sym same) ((message_of-some row m e).0, messages_of-AreValid rows ns e')

abbrev InOrder : List Message → Type 0
InOrder ms = IsChain (λ m n. leb m.created_at n.created_at) ms

messages_of-InOrder :
    (rows : List MessageModel) (ms : List Message)
    → IsChain is_before rows
    → messages_of rows ≡ some ms
    → InOrder ms
unfolding messages_of
messages_of-InOrder [] ms chain h = let same : [] ≡ ms = ground (arith, h) in subst InOrder same tt
messages_of-InOrder (row ∷ []) ms chain h =
    let (m, ns, e, e', same) = messages_of-cons row [] ms h in
    let one : m ∷ [] ≡ ms = ground (arith, same, e') in subst InOrder one tt
messages_of-InOrder (row ∷ row' ∷ rows) ms (before, chain) h =
    let (m, ns, e, e', same) = messages_of-cons row (row' ∷ rows) ms h in
    let (m', ns', f, f', same') = messages_of-cons row' rows ns e' in
    let first : leb m.created_at m'.created_at ≡ true =
      ground (arith, before, message_of-some row m e, message_of-some row' m' f) in
    let rest = subst InOrder same' (messages_of-InOrder (row' ∷ rows) ns chain e') in
    let two : m ∷ m' ∷ ns' ≡ ms = ground (arith, same, same') in subst InOrder two (first, rest)

pub find_by_id-IsStorable :
    (id : String) (db : SessionDb) (s : Session)
    → find_by_id id db ≡ found s
    → IsStorable s.messages × (s.id ≡ id)
unfolding find_by_id to_entity select_messages
find_by_id-IsStorable id db s h = elim (Option-cases (find (is_live id) db.sessions)) [
  | inl e ↦ ground arith
  | inr (row, e) ↦
      let rows = select_messages row.id db.messages in
      elim (Option-cases (messages_of rows)) [
        | inl e' ↦ ground arith
        | inr (ms, e') ↦
            let here : s ≡ session_of row ms = ground (arith, h) in
            let same : row.id ≡ id =
              ground (arith, find-passes (is_live id) row db.sessions e, eq_iff row.id id) in
            let chain =
              IsChain-sort_by is_before (λ x y b. ground (arith, x.timestamp, y.timestamp))
                (keep (is_of row.id) db.messages) in
            let storable : IsStorable ms =
              (messages_of-AreValid rows ms e', messages_of-InOrder rows ms chain e') in
            (
              subst (λ (t : Session). IsStorable t.messages) (sym here) storable,
              ap (λ (t : Session). t.id) here ∙ same,
            )
      ]
]
