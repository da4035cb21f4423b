-- ===== src/Agent/ContextTables/Stored.antt =====
-- What is found after a context was saved: agent-runtime/app/infrastructure/persistence/mappers/
-- agent_context_mapper.py.
use codelab_ai_service.Agent.ContextTables.{
  ContextDb, found, replace_switches, last_time, read_context, ContextModel, save_context,
  is_in_session, find_by_session_id, context_row, update_row, save_in, has_context_id,
}
use codelab_ai_service.Prelude.{
  List, Option-cases, String, ap, arith, eq_refl, find, get_or, inl, inr, is_some, map, none, refl,
  some, true, ℕ, ◌++◌, ◌∙◌, ◌∷◌, ◌≡◌, [], Bool-cases, eq_iff, sym,
}
use codelab_ai_service.Prelude.Selecting.{
  change, find-weaker, find-append, find-change, find-passes,
}
use codelab_ai_service.Agent.Context.{AgentContext}
use codelab_ai_service.Agent.SessionRepository.RoundTrip.{get_or-dumps_list}
use codelab_ai_service.Agent.SessionRepository.{has_key, SessionModel, is_live}
use codelab_ai_service.Agent.ContextTables.Histories.{
  agent_named-value, kept_switch, IsReadable, replaced, read_context-replaced,
}

-- The context that the tables keep, under the identifier of its row.
abbrev pub kept_context : String → ℕ → AgentContext → AgentContext
kept_context id created c =
    let switches = map kept_switch c.switch_history in
    record c {
      id = id;
      updated_at = some (get_or c.updated_at created);
      switch_history = switches;
      last_switch_at = last_time switches;
      max_switches = 50;
    }

-- The row that keeps a context has the identifier that was there first.
abbrev pub row_id : AgentContext → ContextDb → String
row_id c db = elim (find (is_in_session c.session_id) db.contexts) [
  | none ↦ c.id
  | some model ↦ model.id
]

-- A live session is a session.
has_key-is_live :
    (id : String) (rows : List SessionModel) (session : SessionModel)
    → find (is_live id) rows ≡ some session
    → is_some (find (has_key id) rows) ≡ true
has_key-is_live id rows session h = elim (Bool-cases (is_some (find (has_key id) rows))) [
  | inl e ↦ e
  | inr e ↦ ground (arith, h, find-weaker (is_live id) (has_key id) (λ row k. ground arith) rows e)
]

module _ (created : ℕ) (c : AgentContext) (db db' : ContextDb)
    (readable : IsReadable c.switch_history) (session : SessionModel)
    (live : find (is_live c.session_id) db.sessions ≡ some session) where
  found_again-new :
      find (is_in_session c.session_id) db.contexts ≡ none
      → replace_switches c.id c
          (record db { contexts = db.contexts ++ context_row created c.session_id c ∷ [] })
        ≡ some db'
      → find_by_session_id c.session_id db' ≡ found (kept_context c.id created c)
  unfolding find_by_session_id
  found_again-new e h =
      let row = context_row created c.session_id c in
      let db0 : ContextDb = record db { contexts = db.contexts ++ row ∷ [] } in
      let parts = replaced c.id c db0 db' h in
      let same : session.id ≡ c.session_id = ground (
        arith,
        find-passes (is_live c.session_id) session db.sessions live,
        eq_iff session.id c.session_id,
      ) in
      let live' : find (is_live c.session_id) db'.sessions ≡ some session =
        ap (find (is_live c.session_id)) parts.0 ∙ live in
      let stored : find (is_in_session c.session_id) db'.contexts ≡ some row =
        ap (find (is_in_session c.session_id)) parts.1
        ∙ ground (
          arith,
          find-append (is_in_session c.session_id) db.contexts (row ∷ []),
          e,
          eq_refl c.session_id,
        ) in
      let stored' : find (is_in_session session.id) db'.contexts ≡ some row =
        ap (λ k. find (is_in_session k) db'.contexts) same ∙ stored in
      let read =
        read_context-replaced c.id c db0 db' h readable row refl
          (has_key-is_live c.session_id db.sessions session live) in
      simp (
        find_by_session_id,
        live',
        stored',
        read,
        agent_named-value c.current_agent,
        get_or-dumps_list c.metadata,
      )

  found_again-old :
      (model : ContextModel)
      → find (is_in_session c.session_id) db.contexts ≡ some model
      → replace_switches model.id c (record db {
        contexts = change (is_in_session c.session_id) (update_row created c) db.contexts;
      })
        ≡ some db'
      → find_by_session_id c.session_id db' ≡ found (kept_context model.id created c)
  unfolding find_by_session_id
  found_again-old model e h =
      let row = update_row created c model in
      let db0 : ContextDb = record db {
        contexts = change (is_in_session c.session_id) (update_row created c) db.contexts;
      } in
      let parts = replaced model.id c db0 db' h in
      let same : session.id ≡ c.session_id = ground (
        arith,
        find-passes (is_live c.session_id) session db.sessions live,
        eq_iff session.id c.session_id,
      ) in
      let live' : find (is_live c.session_id) db'.sessions ≡ some session =
        ap (find (is_live c.session_id)) parts.0 ∙ live in
      let key : model.session_db_id ≡ c.session_id = ground (
        arith,
        find-passes (is_in_session c.session_id) model db.contexts e,
        eq_iff model.session_db_id c.session_id,
      ) in
      let stored : find (is_in_session c.session_id) db'.contexts ≡ some row =
        ap (find (is_in_session c.session_id)) parts.1
        ∙ ground (
          arith,
          find-change (is_in_session c.session_id) (update_row created c) (λ r. refl) db.contexts,
          e,
        ) in
      let stored' : find (is_in_session session.id) db'.contexts ≡ some row =
        ap (λ k. find (is_in_session k) db'.contexts) same ∙ stored in
      let there : is_some (find (has_key model.session_db_id) db.sessions) ≡ true =
        ap (λ k. is_some (find (has_key k) db.sessions)) key
        ∙ has_key-is_live c.session_id db.sessions session live in
      let read = read_context-replaced model.id c db0 db' h readable row refl there in
      let opened : find_by_session_id c.session_id db' ≡ read_context row db' =
        simp (find_by_session_id, live', stored') in
      opened ∙ read ∙ simp (key, agent_named-value c.current_agent, get_or-dumps_list c.metadata)

-- A context whose history is in the order of its times and has no metadata with a confidence that
-- is no text, once saved, is found by its session as it was, except for what the tables do not
-- keep: it has the identifier of the row of the session that was there first, its limit of switches
-- is the default, its last switch is that of the history, its change is dated, and the confidence
-- of a switch is what its metadata say.
pub find_by_session_id-save :
    (created : ℕ) (c : AgentContext) (db db' : ContextDb)
    → IsReadable c.switch_history
    → save_context created c db ≡ some db'
    → find_by_session_id c.session_id db' ≡ found (kept_context (row_id c db) created c)
unfolding save_context
find_by_session_id-save created c db db' readable h =
    elim (Option-cases (find (is_live c.session_id) db.sessions)) [
      | inl e ↦ ground (arith, h, e)
      | inr (session, e) ↦
          let same : session.id ≡ c.session_id = ground (
            arith,
            find-passes (is_live c.session_id) session db.sessions e,
            eq_iff session.id c.session_id,
          ) in
          let saved : save_in created c.session_id c db ≡ some db' =
            ap (λ k. save_in created k c db) (sym same) ∙ ground (arith, h, e) in
          elim (Option-cases (find (is_in_session c.session_id) db.contexts)) [
            | inl e' ↦ elim (Bool-cases (is_some (find (has_context_id c.id) db.contexts))) [
              | inl e'' ↦ ground (arith, saved, e', e'')
              | inr e'' ↦
                  rw (e', row_id)
                    (found_again-new created c db db' readable session e e'
                      (ground (arith, saved, e', e'')))
            ]
            | inr (model, e') ↦
                rw (e', row_id)
                  (found_again-old created c db db' readable session e model e'
                    (ground (arith, saved, e')))
          ]
    ]
