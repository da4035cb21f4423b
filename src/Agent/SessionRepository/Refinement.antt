-- ===== src/Agent/SessionRepository/Refinement.antt =====
-- The repository of sessions against an abstract store, which maps identifiers to what is found:
-- agent-runtime/app/infrastructure/persistence/repositories/session_repository_impl.py.
use codelab_ai_service.Agent.Session.{Session}
use codelab_ai_service.Agent.SessionRepository.{
  SessionDb, Found, missing, found, broken, save, delete, find_by_id, to_entity, is_live,
  messages_of, select_messages, has_key, SessionModel, change, delete_model,
}
use codelab_ai_service.Agent.SessionRepository.RoundTrip.{
  IsStorable, kept_session, created_in, find_by_id-save_other, find_by_id-save, find_by_id-rows,
}
use codelab_ai_service.Prelude.{
  List, Option, Option-cases, String, if◌then◌else◌, inl, inr, none, some, str_eq, ℕ, ◌∷◌, ◌≡◌, ◌≢◌,
  [], Bool-cases, arith, find, sym, ◌∙◌, ap, eq_iff, false, refl, true,
}
use codelab_ai_service.Prelude.Selecting.{find-change-none, find-change_other, find-weaker}

-- A call that writes.
pub data Call : Type 0 where
  store : Session → Call
  erase : ℕ → String → Call

-- `none` is a `save` that raises.
unfoldable pub apply : Call → SessionDb → Option SessionDb
apply (store s) db = save s db
apply (erase now id) db = some (delete now id db).1

unfoldable pub run : List Call → SessionDb → Option SessionDb
unfolding apply
run [] db = some db
run (call ∷ calls) db = elim (apply call db) [ none ↦ none | some db' ↦ run calls db' ]

abbrev pub update : String → Found → (String → Found) → String → Found
update k v f id = if str_eq k id then v else f id

-- The time of creation: that of the session that is there, or the new one's.
abbrev pub first_created : Found → Session → ℕ
first_created (found t) s = t.created_at
first_created missing s = s.created_at
first_created broken s = s.created_at

-- The same calls, on a function.
abbrev pub replay : List Call → (String → Found) → String → Found
replay [] f = f
replay (store s ∷ calls) f =
    replay calls (update s.id (found (kept_session (first_created (f s.id) s) s)) f)
replay (erase now id ∷ calls) f = replay calls (update id missing f)

-- The sessions that are stored can be stored.
abbrev pub AreStorable : List Call → Type 0
AreStorable [] = Unit
AreStorable (store s ∷ calls) = IsStorable s.messages × AreStorable calls
AreStorable (erase now id ∷ calls) = AreStorable calls

-- A store reads as a function, and no lookup in it is broken.
abbrev pub Reads : SessionDb → (String → Found) → Type 0
Reads db f = (id : String) → (find_by_id id db ≡ f id) × (f id ≢ broken)

created_in-find_by_id :
    (db : SessionDb) (s : Session)
    → find_by_id s.id db ≢ broken
    → created_in db s ≡ first_created (find_by_id s.id db) s
unfolding find_by_id to_entity
created_in-find_by_id db s sound = elim (Option-cases (find (is_live s.id) db.sessions)) [
  | inl e ↦ ground arith
  | inr (row, e) ↦ elim (Option-cases (messages_of (select_messages row.id db.messages))) [
    | inl e' ↦ ground arith
    | inr (ms, e') ↦ ground arith
  ]
]

save_refines :
    (s : Session) (db db' : SessionDb) (f : String → Found)
    → IsStorable s.messages
    → Reads db f
    → save s db ≡ some db'
    → Reads db' (update s.id (found (kept_session (first_created (f s.id) s) s)) f)
save_refines s db db' f storable reads h id =
    let (same, sound) = reads s.id in
    let created = created_in-find_by_id db s (λ e. sound (sym same ∙ e)) in
    elim (Bool-cases (str_eq s.id id)) [
      | inl e ↦
          let read : find_by_id s.id db' ≡ found (kept_session (first_created (f s.id) s) s) =
            find_by_id-save s db db' storable h
            ∙ ap (λ c. found (kept_session c s)) (created ∙ ap (λ o. first_created o s) same) in
          let here : s.id ≡ id = ground (arith, eq_iff s.id id) in
          ground (arith, read, ap (λ k. find_by_id k db') here)
      | inr e ↦ ground (arith, find_by_id-save_other s db db' id h e, reads id)
    ]

find_by_id-delete :
    (now : ℕ) (k : String) (db : SessionDb) → find_by_id k (delete now k db).1 ≡ missing
unfolding delete find_by_id
find_by_id-delete now k db = elim (Option-cases (find (has_key k) db.sessions)) [
  | inl e ↦ ground (arith, find-weaker (is_live k) (has_key k) (λ row h. ground arith) db.sessions)
  | inr (row, e) ↦ ground (
    arith,
    find-change-none (is_live k) (has_key k) (delete_model now) (λ row h. ground arith)
        (λ row h. ground arith) db.sessions,
  )
]

find_by_id-delete_other :
    (now : ℕ) (k : String) (db : SessionDb) (id : String)
    → str_eq k id ≡ false
    → find_by_id id (delete now k db).1 ≡ find_by_id id db
unfolding delete
find_by_id-delete_other now k db id d = elim (Option-cases (find (has_key k) db.sessions)) [
  | inl e ↦ ground arith
  | inr (row, e) ↦
      let apart : (row : SessionModel) → has_key k row ≡ true → str_eq row.id id ≡ false =
        λ row h. ground (arith, eq_iff row.id id, eq_iff row.id k, eq_iff k id) in
      let gone = change (has_key k) (delete_model now) db.sessions in
      let same =
        find_by_id-rows id (record db { sessions = gone }) db
          (find-change_other (is_live id) (has_key k) (delete_model now)
            (λ row h. ground (arith, apart row h)) (λ row h. ground (arith, apart row h))
            db.sessions)
          refl in
      ground (arith, same)
]

delete_refines :
    (now : ℕ) (k : String) (db : SessionDb) (f : String → Found)
    → Reads db f
    → Reads (delete now k db).1 (update k missing f)
delete_refines now k db f reads id = elim (Bool-cases (str_eq k id)) [
  | inl e ↦
      let here : k ≡ id = ground (arith, eq_iff k id) in
      ground (arith, find_by_id-delete now k db, ap (λ i. find_by_id i (delete now k db).1) here)
  | inr e ↦ ground (arith, find_by_id-delete_other now k db id e, reads id)
]

-- A repository of sessions that reads as a function from identifiers to what is found, with no
-- lookup that fails, reads after any saves and deletions that did not fail as the function that is
-- updated by the same calls, when the messages of every saved session are valid and in the order of
-- their times.
pub run_refines :
    (calls : List Call) (db db' : SessionDb) (f : String → Found)
    → AreStorable calls
    → Reads db f
    → run calls db ≡ some db'
    → Reads db' (replay calls f)
unfolding run apply
run_refines [] db db' f storable reads h = ground (arith, h)
run_refines (store s ∷ calls) db db' f (storable, rest) reads h = elim (Option-cases (save s db)) [
  | inl e ↦ ground arith
  | inr (db'', e) ↦
      run_refines calls db'' db' (update s.id (found (kept_session (first_created (f s.id) s) s)) f)
        rest (save_refines s db db'' f storable reads e) (ground arith)
]
run_refines (erase now id ∷ calls) db db' f storable reads h =
    run_refines calls (delete now id db).1 db' (update id missing f) storable
      (delete_refines now id db f reads) h
