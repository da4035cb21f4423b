-- ===== src/Agent/ContextTables.antt =====
-- The tables of contexts and of switches, agent-runtime/app/infrastructure/persistence/models/
-- agent_context.py; the mapper between their rows and the entity, agent-runtime/app/infrastructure/
-- persistence/mappers/agent_context_mapper.py; and the repository on them, agent-runtime/app/
-- infrastructure/persistence/repositories/agent_context_repository_impl.py. `id` is the primary key of
-- both tables, and `session_db_id` is unique. The time of creation of an entity, which `AgentContext`
-- does not have, is an argument. The `onupdate` of `updated_at`, which runs when an update leaves the
-- column as it is, is left out.
pub mod Histories
pub mod Stored
pub mod Queries
mod Tests
use codelab_ai_service.Prelude.{
  Bool, ℕ, String, Option, none, some, List, [], ◌∷◌, ◌++◌, ◌+◌, Dict, length, keep, map, drop,
  take, find, get_or, if◌then◌else◌, str_eq, ltb, leb, not, true, false, insert, is_some, is_truthy,
  lookup,
}
use codelab_ai_service.Prelude.Selecting.{change}
use codelab_ai_service.Prelude.Sorting.{sort_by}
use codelab_ai_service.Prelude.Json.{Json, text, null}
use codelab_ai_service.Agent.Context.{
  AgentType, AgentContext, AgentSwitch, value, orchestrator, coder, architect, debug, ask,
  universal,
}
use codelab_ai_service.Agent.SessionRepository.{
  Column, SessionModel, loads, dumps_list, is_live, has_key,
}

pub record ContextModel : Type 0 where
  pub id : String
  pub session_db_id : String
  pub current_agent : String
  pub created_at : ℕ
  pub updated_at : ℕ
  pub switch_count : ℕ
  pub metadata_json : Column (Dict Json)

pub record SwitchModel : Type 0 where
  pub id : String
  pub context_db_id : String
  pub from_agent : Option String
  pub to_agent : String
  pub switched_at : ℕ
  pub reason : Option String
  pub metadata_json : Column (Dict Json)

pub record ContextDb : Type 0 where
  pub sessions : List SessionModel
  pub contexts : List ContextModel
  pub switches : List SwitchModel

-- The answer of a lookup: `broken` is the `RepositoryError`.
pub data ContextFound : Type 0 where
  missing : ContextFound
  found : AgentContext → ContextFound
  broken : ContextFound

-- `AgentType(name)`
unfoldable pub agent_named : String → Option AgentType
agent_named name =
    if str_eq name "orchestrator"
    then some orchestrator
    else if str_eq name "coder"
    then some coder
    else if str_eq name "architect"
    then some architect
    else if str_eq name "debug"
    then some debug
    else if str_eq name "ask"
    then some ask
    else if str_eq name "universal"
    then some universal
    else none

-- A row of a switch, read: it is left out when its target is no agent, and raises when its confidence
-- is no text.
pub data SwitchRead : Type 0 where
  skipped : SwitchRead
  made : AgentSwitch → SwitchRead
  invalid : SwitchRead

abbrev pub confidence_of : Dict Json → Option (Option String)
confidence_of metadata = elim (lookup "confidence" metadata) [
  | none ↦ some none
  | some j ↦ elim j [ text s ↦ some (some s) | null ↦ some none | _ ↦ none ]
]

abbrev pub from_of : Option String → Option AgentType
from_of none = none
from_of (some name) = agent_named name

abbrev pub switch_with : SwitchModel → AgentType → Dict Json → Option (Option String) → SwitchRead
switch_with row to metadata none = invalid
switch_with row to metadata (some confidence) = made (record {
  id = row.id;
  from_agent = from_of row.from_agent;
  to_agent = to;
  reason = get_or row.reason "";
  switched_at = row.switched_at;
  confidence = confidence;
  metadata = metadata;
})

unfoldable pub switch_of : SwitchModel → SwitchRead
unfolding agent_named
switch_of row =
    let metadata = get_or (loads row.metadata_json) [] in
    elim (agent_named row.to_agent) [
      | none ↦ skipped
      | some to ↦ switch_with row to metadata (confidence_of metadata)
    ]

-- The history in the order of the rows: `none` when a row raises.
unfoldable pub switches_of : List SwitchModel → Option (List AgentSwitch)
unfolding switch_of
switches_of [] = some []
switches_of (row ∷ rows) =
    let rest = switches_of rows in
    elim (switch_of row) [
      | skipped ↦ rest
      | invalid ↦ none
      | made switch ↦ elim rest [ none ↦ none | some switches ↦ some (switch ∷ switches) ]
    ]

abbrev pub is_switch_of : String → SwitchModel → Bool
is_switch_of context_id row = str_eq row.context_db_id context_id

abbrev pub is_made_before : SwitchModel → SwitchModel → Bool
is_made_before a b = leb a.switched_at b.switched_at

-- `where(context_db_id == …).order_by(switched_at.asc())`
unfoldable pub select_switches : String → List SwitchModel → List SwitchModel
select_switches context_id rows = sort_by is_made_before (keep (is_switch_of context_id) rows)

abbrev pub last_time : List AgentSwitch → Option ℕ
last_time [] = none
last_time (s ∷ []) = some s.switched_at
last_time (s ∷ t ∷ ss) = last_time (t ∷ ss)

-- An unknown agent is read as the orchestrator; the limit is the default of the entity.
abbrev pub context_of : ContextModel → List AgentSwitch → AgentContext
context_of model switches = record {
  id = model.id;
  updated_at = some model.updated_at;
  session_id = model.session_db_id;
  current_agent = get_or (agent_named model.current_agent) orchestrator;
  switch_history = switches;
  metadata = get_or (loads model.metadata_json) [];
  last_switch_at = last_time switches;
  switch_count = model.switch_count;
  max_switches = 50;
}

-- `scalar_one` of the session raises when there is none; a deleted session is one.
abbrev pub in_session : ContextModel → ContextDb → List AgentSwitch → ContextFound
in_session model db switches =
    if is_some (find (has_key model.session_db_id) db.sessions)
    then found (context_of model switches)
    else broken

-- `to_entity` with its history, and without.
unfoldable pub read_context : ContextModel → ContextDb → ContextFound
unfolding agent_named
read_context model db = elim (switches_of (select_switches model.id db.switches)) [
  | none ↦ broken
  | some switches ↦ in_session model db switches
]

unfoldable pub read_brief : ContextModel → ContextDb → ContextFound
unfolding agent_named
read_brief model db = in_session model db []

abbrev pub has_context_id : String → ContextModel → Bool
has_context_id id model = str_eq model.id id

abbrev pub is_in_session : String → ContextModel → Bool
is_in_session session_id model = str_eq model.session_db_id session_id

-- The method `get`.
unfoldable pub get_context : String → ContextDb → ContextFound
unfolding read_context
get_context id db = elim (find (has_context_id id) db.contexts) [
  | none ↦ missing
  | some model ↦ read_context model db
]

unfoldable pub find_by_session_id : String → ContextDb → ContextFound
unfolding read_context
find_by_session_id session_id db = elim (find (is_live session_id) db.sessions) [
  | none ↦ missing
  | some session ↦ elim (find (is_in_session session.id) db.contexts) [
    | none ↦ missing
    | some model ↦ read_context model db
  ]
]

-- The rows of an entity.
abbrev pub context_row : ℕ → String → AgentContext → ContextModel
context_row created session_id c = record {
  id = c.id;
  session_db_id = session_id;
  current_agent = value c.current_agent;
  created_at = created;
  updated_at = get_or c.updated_at created;
  switch_count = c.switch_count;
  metadata_json = dumps_list c.metadata;
}

abbrev pub update_row : ℕ → AgentContext → ContextModel → ContextModel
update_row created c model = record model {
  current_agent = value c.current_agent;
  updated_at = get_or c.updated_at created;
  switch_count = c.switch_count;
  metadata_json = dumps_list c.metadata;
}

abbrev pub named : Option AgentType → Option String
named none = none
named (some a) = some (value a)

unfoldable pub switch_row : String → AgentSwitch → SwitchModel
unfolding value
switch_row context_id s = record {
  id = s.id;
  context_db_id = context_id;
  from_agent = named s.from_agent;
  to_agent = value s.to_agent;
  switched_at = s.switched_at;
  reason = some s.reason;
  metadata_json = dumps_list s.metadata;
}

-- Rows put into the table of switches: `none` is the `IntegrityError` of a key that is there.
unfoldable pub add_switches : List SwitchModel → List SwitchModel → Option (List SwitchModel)
add_switches [] rows = some rows
add_switches (s ∷ ss) rows =
    let rest = add_switches ss (rows ++ s ∷ []) in
    if is_some (find (λ row. str_eq row.id s.id) rows) then none else rest

-- The history of a context is replaced.
abbrev pub replace_switches : String → AgentContext → ContextDb → Option ContextDb
replace_switches context_id c db =
    elim (add_switches (map (switch_row context_id) c.switch_history)
      (keep (λ row. not (is_switch_of context_id row)) db.switches)) [
        | none ↦ none
        | some switches ↦ some (record db { switches = switches })
      ]

abbrev pub save_in : ℕ → String → AgentContext → ContextDb → Option ContextDb
save_in created session_id c db = elim (find (is_in_session session_id) db.contexts) [
  | none ↦
      if is_some (find (has_context_id c.id) db.contexts)
      then none
      else replace_switches c.id c
          (record db { contexts = db.contexts ++ context_row created session_id c ∷ [] })
  | some model ↦ replace_switches model.id c (record db {
    contexts = change (is_in_session session_id) (update_row created c) db.contexts;
  })
]

-- `to_model` and the flush, with the entity's time of creation: `none` is the `RepositoryError`, of a
-- session that is not there or of a key that is, after which the transaction is rolled back.
unfoldable pub save_context : ℕ → AgentContext → ContextDb → Option ContextDb
unfolding switch_row add_switches value
save_context created c db = elim (find (is_live c.session_id) db.sessions) [
  | none ↦ none
  | some session ↦ save_in created session.id c db
]

-- The method `delete`, which takes the switches of the context with it.
unfoldable pub delete_context : String → ContextDb → Bool × ContextDb
delete_context id db = elim (find (has_context_id id) db.contexts) [
  | none ↦ (false, db)
  | some model ↦ (
    true,
    record db {
      contexts = keep (λ row. not (has_context_id id row)) db.contexts;
      switches = keep (λ row. not (is_switch_of id row)) db.switches;
    },
  )
]
