-- ===== src/Agent/Orchestration/Tables.antt =====
-- The repository of agent_context_repository_impl.py does what agent_orchestration.py asks of its
-- repository. The time of creation of the entities is an argument.
use mathlib.Core.Path.{subst}
use codelab_ai_service.Agent.Context.{AgentContext, AgentType, value, orchestrator}
use codelab_ai_service.Agent.ContextTables.{
  ContextDb, ContextModel, ContextFound, missing, found, broken, agent_named, is_in_session,
  has_context_id, read_context, context_row, update_row, replace_switches, save_in, save_context,
  find_by_session_id, switches_of, select_switches,
}
use codelab_ai_service.Agent.ContextTables.Histories.{agent_named-value, replaced}
use codelab_ai_service.Agent.SessionRepository.{SessionModel, has_key, is_live}
use codelab_ai_service.Agent.Orchestration.{ContextRepository, Keeps}
use codelab_ai_service.Prelude.{
  Bool-cases, Option, Option-cases, String, ap, arith, eq_iff, eq_refl, find, get_or, inl, inr,
  is_some, none, refl, some, sym, ℕ, ◌++◌, ◌∙◌, ◌∷◌, ◌≡◌, [],
}
use codelab_ai_service.Prelude.Selecting.{change, find-append, find-change, find-passes}

-- What a row gives when it is read.
abbrev Reads : ContextModel → ContextFound → Type 0
Reads model missing = ⊥
Reads model broken = Unit
Reads model (found d) =
    (d.session_id ≡ model.session_db_id)
    × (d.current_agent ≡ get_or (agent_named model.current_agent) orchestrator)

read_context-Reads : (model : ContextModel) (db : ContextDb) → Reads model (read_context model db)
unfolding read_context
read_context-Reads model db =
    elim (Option-cases (switches_of (select_switches model.id db.switches))) [
      | inl e ↦ rw (e, read_context) tt
      | inr (ss, e) ↦ elim (Bool-cases (is_some (find (has_key model.session_db_id) db.sessions))) [
        | inl e' ↦ rw (e, e', read_context) (refl, refl)
        | inr e' ↦ rw (e, e', read_context) tt
      ]
    ]

module _ (session_id : String) (db : ContextDb) (session : SessionModel)
    (live : find (is_live session_id) db.sessions ≡ some session) where
  own_session : session.id ≡ session_id
  own_session = ground (
    arith,
    find-passes (is_live session_id) session db.sessions live,
    eq_iff session.id session_id,
  )

  found_row :
      (row : ContextModel)
      → find (is_in_session session_id) db.contexts ≡ some row
      → find_by_session_id session_id db ≡ read_context row db
  unfolding find_by_session_id
  found_row row stored =
      let stored' : find (is_in_session session.id) db.contexts ≡ some row =
        ap (λ k. find (is_in_session k) db.contexts) own_session ∙ stored in
      simp (find_by_session_id, live, stored')

  no_row :
      find (is_in_session session_id) db.contexts ≡ none
      → find_by_session_id session_id db ≡ missing
  unfolding find_by_session_id
  no_row gone =
      let gone' : find (is_in_session session.id) db.contexts ≡ none =
        ap (λ k. find (is_in_session k) db.contexts) own_session ∙ gone in
      simp (find_by_session_id, live, gone')

Reads-keyed :
    (session_id : String) (model : ContextModel) (f : ContextFound) (c : AgentContext)
    → model.session_db_id ≡ session_id
    → Reads model f
    → f ≡ found c
    → c.session_id ≡ session_id
Reads-keyed session_id model missing c k r e = elim r [ ]
Reads-keyed session_id model broken c k r e = cc
Reads-keyed session_id model (found d) c k r e =
    let same : d ≡ c = ground (arith, e) in
    ap (λ (a : AgentContext). a.session_id) (sym same) ∙ r.0 ∙ k

pub find_by_session_id-keyed :
    (db : ContextDb) (session_id : String) (c : AgentContext)
    → find_by_session_id session_id db ≡ found c
    → c.session_id ≡ session_id
find_by_session_id-keyed db session_id c h =
    elim (Option-cases (find (is_live session_id) db.sessions)) [
      | inl e ↦
          let gone : find_by_session_id session_id db ≡ missing =
            unfold find_by_session_id in simp (find_by_session_id, e) in
          ground (arith, gone, h)
      | inr (session, e) ↦ elim (Option-cases (find (is_in_session session_id) db.contexts)) [
        | inl e' ↦ ground (arith, no_row session_id db session e e', h)
        | inr (model, e') ↦
            let own : model.session_db_id ≡ session_id = ground (
              arith,
              find-passes (is_in_session session_id) model db.contexts e',
              eq_iff model.session_db_id session_id,
            ) in
            Reads-keyed session_id model (read_context model db) c own (read_context-Reads model db)
              (sym (found_row session_id db session e model e') ∙ h)
      ]
    ]

Reads-Keeps :
    (model : ContextModel) (c : AgentContext) (f : ContextFound)
    → model.current_agent ≡ value c.current_agent
    → Reads model f
    → Keeps c f
Reads-Keeps model c missing e r = r
Reads-Keeps model c broken e r = tt
Reads-Keeps model c (found d) e r =
    r.1
    ∙ ap (λ s. get_or (agent_named s) orchestrator) e
    ∙ ap (λ (a : Option AgentType). get_or a orchestrator) (agent_named-value c.current_agent)

module _ (created : ℕ) (c : AgentContext) (db db' : ContextDb) (session : SessionModel)
    (live : find (is_live c.session_id) db.sessions ≡ some session) where
  -- After a row of the context was written, with the rest of the tables as they were.
  written-Keeps :
      (id : String) (db0 : ContextDb) (row : ContextModel)
      → row.current_agent ≡ value c.current_agent
      → db0.sessions ≡ db.sessions
      → find (is_in_session c.session_id) db0.contexts ≡ some row
      → replace_switches id c db0 ≡ some db'
      → Keeps c (find_by_session_id c.session_id db')
  written-Keeps id db0 row agent kept stored h =
      let parts = replaced id c db0 db' h in
      let live' : find (is_live c.session_id) db'.sessions ≡ some session =
        ap (find (is_live c.session_id)) (parts.0 ∙ kept) ∙ live in
      let stored' : find (is_in_session c.session_id) db'.contexts ≡ some row =
        ap (find (is_in_session c.session_id)) parts.1 ∙ stored in
      subst (Keeps c) (sym (found_row c.session_id db' session live' row stored'))
        (Reads-Keeps row c (read_context row db') agent (read_context-Reads row db'))

pub save_context-Keeps :
    (created : ℕ) (c : AgentContext) (db db' : ContextDb)
    → save_context created c db ≡ some db'
    → Keeps c (find_by_session_id c.session_id db')
unfolding save_context
save_context-Keeps created c db db' h =
    elim (Option-cases (find (is_live c.session_id) db.sessions)) [
      | inl e ↦ ground (arith, h, e)
      | inr (session, e) ↦
          let saved : save_in created c.session_id c db ≡ some db' =
            ap (λ k. save_in created k c db) (sym (own_session c.session_id db session e))
            ∙ ground (arith, h, e) in
          elim (Option-cases (find (is_in_session c.session_id) db.contexts)) [
            | inl e' ↦ elim (Bool-cases (is_some (find (has_context_id c.id) db.contexts))) [
              | inl e'' ↦ ground (arith, saved, e', e'')
              | inr e'' ↦
                  let row = context_row created c.session_id c in
                  written-Keeps created c db db' session e c.id
                    (record db { contexts = db.contexts ++ row ∷ [] }) row refl refl
                    (ground (
                      arith,
                      find-append (is_in_session c.session_id) db.contexts (row ∷ []),
                      e',
                      eq_refl c.session_id,
                    ))
                    (ground (arith, saved, e', e''))
            ]
            | inr (model, e') ↦
                written-Keeps created c db db' session e model.id
                  (record db {
                    contexts =
                        change (is_in_session c.session_id) (update_row created c) db.contexts;
                  })
                  (update_row created c model) refl refl
                  (ground (
                    arith,
                    find-change (is_in_session c.session_id) (update_row created c) (λ r. refl)
                        db.contexts,
                    e',
                  ))
                  (ground (arith, saved, e'))
          ]
    ]

abbrev pub tables : ℕ → ContextRepository
tables created = record {
  Store = ContextDb;
  find_by_session_id = λ db session_id. find_by_session_id session_id db;
  save = save_context created;
  find-keyed = find_by_session_id-keyed;
  find-save = save_context-Keeps created;
}
