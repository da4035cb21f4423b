-- ===== src/Agent/Orchestration.antt =====
-- agent-runtime/app/domain/services/agent_orchestration.py: the service that finds, creates and
-- switches the context of a session, and the events that it publishes.
pub mod Events
pub mod Tables
pub mod Tests
use codelab_ai_service.Prelude.{
  Bool, List, Option, String, if◌then◌else◌, none, some, ℕ, ◌++◌, ◌∷◌, ◌≡◌, [],
}
use codelab_ai_service.Agent.ContextTables.{ContextFound, missing, found, broken}
use codelab_ai_service.Agent.Context.{
  AgentType, AgentContext, new_context, Stamp, value, switch_to, SwitchError, refused, switched,
  Outcome,
}

-- What a repository finds after a save: the session has the agent that was saved, or its rows cannot
-- be read.
abbrev pub Keeps : AgentContext → ContextFound → Type 0
Keeps c missing = ⊥
Keeps c broken = Unit
Keeps c (found d) = d.current_agent ≡ c.current_agent

-- What the service asks of `AgentContextRepository`. `broken`, and `none` after a save, are its
-- `RepositoryError`, after which the store is as it was.
pub record ContextRepository : Type 1 where
  pub Store : Type 0
  pub find_by_session_id : Store → String → ContextFound
  pub save : AgentContext → Store → Option Store
  pub find-keyed :
      (st : Store) (session_id : String) (c : AgentContext)
      → find_by_session_id st session_id ≡ found c
      → c.session_id ≡ session_id
  pub find-save :
      (c : AgentContext) (st st' : Store)
      → save c st ≡ some st'
      → Keeps c (find_by_session_id st' c.session_id)

pub data AgentEvent : Type 0 where
  agent_assigned : String → String → String → AgentEvent
  switch_requested : String → String → String → String → AgentEvent
  agent_switched : String → String → String → String → ℕ → AgentEvent

-- The answer of a call: the context, the error that `switch_to` raised, or that of the repository.
pub data Reply : Type 0 where
  ok : AgentContext → Reply
  raised : SwitchError → Reply
  unavailable : Reply

module _ (repo : ContextRepository) where
  open repo use {Store, find_by_session_id, save}

  -- The repository, and what has been published, the latest last. `publisher` says whether the
  -- service was given an event publisher.
  pub record Service : Type 0 where
    pub store : Store
    pub publisher : Bool
    pub published : List AgentEvent

  unfoldable pub publish : AgentEvent → Service → Service
  publish e s = if s.publisher then record s { published = s.published ++ e ∷ [] } else s

  -- A save, and what follows it.
  save_then : AgentContext → AgentEvent → Option Store → Service → Reply × Service
  unfolding publish
  save_then c e none s = (unavailable, s)
  save_then c e (some st) s = (ok c, publish e (record s { store = st }))

  create_context : String → String → AgentType → Service → Reply × Service
  unfolding save_then value
  create_context uuid session_id agent s =
      let c = new_context uuid session_id agent in
      save_then c (agent_assigned session_id (value agent) "Initial assignment") (save c s.store) s

  unfoldable pub get_or_create_context : String → String → AgentType → Service → Reply × Service
  unfolding create_context
  get_or_create_context uuid session_id agent s = elim (find_by_session_id s.store session_id) [
    | missing ↦ create_context uuid session_id agent s
    | found c ↦ (ok c, s)
    | broken ↦ (unavailable, s)
  ]

  -- The end of `switch_agent`, by what `switch_to` did: a refusal is raised again.
  conclude :
      String → AgentType → AgentType → String → Outcome → AgentContext → Service → Reply × Service
  unfolding save_then value
  conclude session_id from target reason (refused e) c s = (raised e, s)
  conclude session_id from target reason (switched _) c s =
      save_then c (agent_switched session_id (value from) (value target) reason c.switch_count)
        (save c s.store) s

  -- The part of `switch_agent` after the context was found.
  switch_found :
      Stamp → String → AgentType → String → Option String → AgentContext → Service → Reply × Service
  unfolding publish value conclude
  switch_found stamp session_id target reason confidence c s =
      let from = c.current_agent in
      let asked = publish (switch_requested session_id (value from) (value target) reason) s in
      let (out, c') = switch_to stamp target reason confidence c in
      conclude session_id from target reason out c' asked

  unfoldable pub switch_agent :
      String → Stamp → String → AgentType → String → Option String → Service → Reply × Service
  unfolding get_or_create_context switch_found
  switch_agent uuid stamp session_id target reason confidence s =
      elim (find_by_session_id s.store session_id) [
        | missing ↦ get_or_create_context uuid session_id target s
        | found c ↦ switch_found stamp session_id target reason confidence c s
        | broken ↦ (unavailable, s)
      ]

  -- `none` is the `RepositoryError`, and `none` inside a session without a context.
  unfoldable pub get_current_agent : String → Service → Option (Option AgentType)
  get_current_agent session_id s = elim (find_by_session_id s.store session_id) [
    | missing ↦ some none
    | found c ↦ some (some c.current_agent)
    | broken ↦ none
  ]
