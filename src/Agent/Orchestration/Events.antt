-- ===== src/Agent/Orchestration/Events.antt =====
-- What `switch_agent` of agent_orchestration.py leaves in the repository and among the events.
use mathlib.Core.Path.{subst}
use codelab_ai_service.Agent.ContextTables.{ContextFound, missing, found, broken}
use codelab_ai_service.Prelude.{Option, String, arith, inl, inr, some, ◌≡◌, refl, ap, none, ◌⊎◌}
use codelab_ai_service.Agent.Orchestration.{
  ContextRepository, Keeps, unavailable, save_then, agent_assigned, agent_switched, Service,
  create_context, switch_agent, switch_found, get_current_agent, publish, AgentEvent, Reply, ok,
  raised, switch_requested, conclude, get_or_create_context,
}
use codelab_ai_service.Agent.Context.{
  Stamp, AgentContext, AgentType, new_context, value, Outcome, switched, refused, switch_to,
  mark_updated,
}
use codelab_ai_service.Agent.Context.Switching.{Switches, switch_to_cases}

pub ContextFound-cases :
    (f : ContextFound) → (f ≡ missing) ⊎ (f ≡ broken) ⊎ ((c : AgentContext) × (f ≡ found c))
ContextFound-cases missing = inl refl
ContextFound-cases broken = inr (inl refl)
ContextFound-cases (found c) = inr (inr (c, refl))

module _ (repo : ContextRepository) where
  open repo use {find_by_session_id, find-save}

  -- The session has an agent: this one, unless its rows cannot be read.
  abbrev pub WorksWith : String → AgentType → Service repo → Type 0
  WorksWith session_id agent s =
      (get_current_agent repo session_id s ≡ some (some agent))
      ⊎ (get_current_agent repo session_id s ≡ none)

  -- What a call for `session_id` has done, by its answer: the session's agent is the target, or
  -- nothing was saved and the only event is the request, if there is one.
  abbrev pub Answers :
      Stamp → String → AgentType → String → Service repo → Reply × Service repo → Type 0
  Answers stamp session_id target reason s (ok c, s') =
      (c.current_agent ≡ target) × WorksWith session_id target s'
  Answers stamp session_id target reason s (raised e, s') =
      (from : String) × (s'
        ≡ publish repo (switch_requested session_id from (value target) reason) s)
      × (s'.store ≡ s.store)
  Answers stamp session_id target reason s (unavailable, s') =
      (s'.store ≡ s.store)
      × ((s' ≡ s)
          ⊎ ((from : String) × (s'
                ≡ publish repo (switch_requested session_id from (value target) reason) s)))

  Keeps-works :
      (c : AgentContext) (f : ContextFound)
      → Keeps c f
      → ((elim f [ missing ↦ some none | found d ↦ some (some d.current_agent) | broken ↦ none ])
          ≡ some (some c.current_agent))
        ⊎ ((elim f [ missing ↦ some none | found d ↦ some (some d.current_agent) | broken ↦ none ])
            ≡ none)
  Keeps-works c missing h = elim h [ ]
  Keeps-works c broken h = inr refl
  Keeps-works c (found d) h = inl (ap (λ (a : AgentType). some (some a)) h)

  store-publish : (e : AgentEvent) (s : Service repo) → (publish repo e s).store ≡ s.store
  unfolding publish
  store-publish e s = ground arith

  get_current_agent-publish :
      (session_id : String) (e : AgentEvent) (s : Service repo)
      → get_current_agent repo session_id (publish repo e s) ≡ get_current_agent repo session_id s
  unfolding get_current_agent publish
  get_current_agent-publish session_id e s = ground arith

  works-save :
      (session_id : String) (c : AgentContext) (s : Service repo) (st : repo.Store)
      → c.session_id ≡ session_id
      → repo.save c s.store ≡ some st
      → WorksWith session_id c.current_agent (record s { store = st })
  unfolding get_current_agent
  works-save session_id c s st e h =
      subst (λ k. WorksWith k c.current_agent (record s { store = st })) e
        (Keeps-works c (find_by_session_id st c.session_id) (find-save c s.store st h))

  -- What a save gives, with the events before it.
  save_then-Answers :
      (stamp : Stamp) (session_id : String) (target : AgentType) (reason : String)
      (c : AgentContext) (e : AgentEvent) (s asked : Service repo) (r : Option repo.Store)
      → c.session_id ≡ session_id
      → c.current_agent ≡ target
      → repo.save c asked.store ≡ r
      → asked.store ≡ s.store
      → (asked ≡ s)
        ⊎ ((from : String) × (asked
              ≡ publish repo (switch_requested session_id from (value target) reason) s))
      → Answers stamp session_id target reason s (save_then repo c e r asked)
  unfolding save_then
  save_then-Answers stamp session_id target reason c e s asked none own agent h kept how =
      (kept, how)
  save_then-Answers stamp session_id target reason c e s asked (some st) own agent h kept how = (
    agent,
    rw get_current_agent-publish (
        subst (λ a. WorksWith session_id a (record asked { store = st })) agent
          (works-save session_id c asked st own h)),
  )

  -- The end of the call, from what `switch_to` does.
  conclude-Answers :
      (stamp : Stamp) (session_id : String) (target : AgentType) (reason : String)
      (confidence : Option String) (c : AgentContext) (s : Service repo) (out : Outcome)
      (c' : AgentContext)
      → c.session_id ≡ session_id
      → Switches stamp target reason confidence c (out, c')
      → let asked =
          publish repo
            (switch_requested session_id (value c.current_agent) (value target) reason)
            s in
        Answers stamp session_id target reason s
          (conclude repo session_id c.current_agent target reason out c' asked)
  unfolding conclude mark_updated
  conclude-Answers stamp session_id target reason confidence c s (switched w) c' e
        (ne, wrote, left) =
      let agent : c'.current_agent ≡ target = ground arith in
      let session : c'.session_id ≡ session_id = ground arith in
      let request = switch_requested session_id (value c.current_agent) (value target) reason in
      save_then-Answers stamp session_id target reason c'
        (agent_switched session_id (value c.current_agent) (value target) reason c'.switch_count) s
        (publish repo request s) (repo.save c' (publish repo request s).store) session agent refl
        (store-publish request s) (inr (value c.current_agent, refl))
  conclude-Answers stamp session_id target reason confidence c s (refused _) c' e h = (
    value c.current_agent,
    refl,
    store-publish (switch_requested session_id (value c.current_agent) (value target) reason) s,
  )

  get_or_create_missing :
      (uuid session_id : String) (agent : AgentType) (s : Service repo)
      → find_by_session_id s.store session_id ≡ missing
      → get_or_create_context repo uuid session_id agent s
        ≡ create_context repo uuid session_id agent s
  unfolding get_or_create_context
  get_or_create_missing uuid session_id agent s gone = rw (gone, get_or_create_context)

  -- A switch that returns a context has made the target the agent of that context, and of the
  -- session in every read of the repository that does not raise. A switch that the context refuses,
  -- or that an error of the repository ends, has saved nothing, and has published at most the
  -- request to switch; it is published whenever the context refuses.
  pub switch_agent-Answers :
      (uuid : String) (stamp : Stamp) (session_id : String) (target : AgentType) (reason : String)
      (confidence : Option String) (s : Service repo)
      → Answers stamp session_id target reason s
          (switch_agent repo uuid stamp session_id target reason confidence s)
  unfolding switch_agent switch_found create_context
  switch_agent-Answers uuid stamp session_id target reason confidence s =
      elim (ContextFound-cases (find_by_session_id s.store session_id)) [
        | inl gone ↦
            let c = new_context uuid session_id target in
            rw (gone, switch_agent)
              (rw (get_or_create_missing uuid session_id target s gone) (
                save_then-Answers stamp session_id target reason c
                  (agent_assigned session_id (value target) "Initial assignment") s s
                  (repo.save c s.store) refl refl refl refl (inl refl)))
        | inr (inl bad) ↦ rw (bad, switch_agent) (refl, inl refl)
        | inr (inr (c, there)) ↦
            rw (there, switch_agent, switch_found)
              (conclude-Answers stamp session_id target reason confidence c s
                (switch_to stamp target reason confidence c).0
                (switch_to stamp target reason confidence c).1
                (repo.find-keyed s.store session_id c there)
                (switch_to_cases stamp target reason confidence c))
      ]
