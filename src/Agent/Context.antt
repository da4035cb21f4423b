-- ===== src/Agent/Context.antt =====
-- agent-runtime/app/domain/entities/agent_context.py: which agent works for a session, and the
-- history of its switches. A method that mutates the entity returns the new record; one that may
-- raise returns what it raised beside it. What the clock and `uuid4` answer comes in as `Stamp`.
mod Tests
pub mod History
pub mod Switching
pub mod Limit
use codelab_ai_service.Prelude.{
  ℕ, ◌+◌, String, Bool, true, false, Option, none, some, List, [], ◌∷◌, ◌++◌, map, leb, last?, Dict,
  lookup, insert, if◌then◌else◌,
}
use codelab_ai_service.Prelude.Json.{Json}

pub data AgentType : Type 0 where
  orchestrator coder architect debug ask universal : AgentType

pub AgentType-discrete : Discrete AgentType
AgentType-discrete = hlevel

-- The `value` of the string enum.
unfoldable pub value : AgentType → String
value orchestrator = "orchestrator"
value coder = "coder"
value architect = "architect"
value debug = "debug"
value ask = "ask"
value universal = "universal"

-- `==` on members of the enum.
unfoldable pub same_agent : AgentType → AgentType → Bool
same_agent orchestrator orchestrator = true
same_agent coder coder = true
same_agent architect architect = true
same_agent debug debug = true
same_agent ask ask = true
same_agent universal universal = true
same_agent _ _ = false

pub record AgentSwitch : Type 0 where
  pub id : String
  pub from_agent : Option AgentType
  pub to_agent : AgentType
  pub reason : String
  pub switched_at : ℕ
  pub confidence : Option String
  pub metadata : Dict Json

pub record AgentContext : Type 0 where
  pub id : String
  pub updated_at : Option ℕ
  pub session_id : String
  pub current_agent : AgentType
  pub switch_history : List AgentSwitch
  pub metadata : Dict Json
  pub last_switch_at : Option ℕ
  pub switch_count : ℕ
  pub max_switches : ℕ

-- A new context: `AgentContext(id=…, session_id=…, current_agent=…)` with the defaults of the rest.
abbrev pub new_context : String → String → AgentType → AgentContext
new_context id session_id agent = record {
  id = id;
  updated_at = none;
  session_id = session_id;
  current_agent = agent;
  switch_history = [];
  metadata = [];
  last_switch_at = none;
  switch_count = 0;
  max_switches = 50;
}

-- The answers of `uuid.uuid4()` and of the three readings of the clock in `switch_to`.
pub record Stamp : Type 0 where
  pub uuid : String
  pub created : ℕ
  pub switched : ℕ
  pub marked : ℕ

-- `AgentSwitchError`, by its reason: the agent is active already, or the limit is reached.
pub data SwitchError : Type 0 where
  already_active : AgentType → AgentType → SwitchError
  limit_reached : AgentType → AgentType → ℕ → SwitchError

pub data Outcome : Type 0 where
  switched : AgentSwitch → Outcome
  refused : SwitchError → Outcome

unfoldable pub mark_updated : ℕ → AgentContext → AgentContext
mark_updated now c = record c { updated_at = some now }

-- The record that a switch leaves, and the context after it.
abbrev pub new_switch : Stamp → AgentType → String → Option String → AgentContext → AgentSwitch
new_switch stamp target reason confidence c = record {
  id = stamp.uuid;
  from_agent = some c.current_agent;
  to_agent = target;
  reason = reason;
  switched_at = stamp.created;
  confidence = confidence;
  metadata = [];
}

abbrev pub with_switch : Stamp → AgentSwitch → AgentContext → AgentContext
with_switch stamp switch c = record c {
  switch_history = c.switch_history ++ switch ∷ [];
  current_agent = switch.to_agent;
  last_switch_at = some stamp.switched;
  switch_count = c.switch_count + 1;
}

unfoldable pub switch_to :
    Stamp → AgentType → String → Option String → AgentContext → Outcome × AgentContext
unfolding mark_updated same_agent
switch_to stamp target reason confidence c =
    if same_agent c.current_agent target
    then (refused (already_active c.current_agent target), c)
    else if leb c.max_switches c.switch_count
    then (refused (limit_reached c.current_agent target c.max_switches), c)
    else let switch = new_switch stamp target reason confidence c in
      (switched switch, mark_updated stamp.marked (with_switch stamp switch c))

unfoldable pub can_switch_to : AgentType → AgentContext → Bool
unfolding same_agent
can_switch_to target c =
    if same_agent c.current_agent target
    then false
    else if leb c.max_switches c.switch_count
    then false
    else true

-- One entry of `get_switch_history`.
pub record SwitchView : Type 0 where
  pub from : Option String
  pub to : String
  pub reason : String
  pub timestamp : ℕ
  pub confidence : Option String

unfoldable pub view_switch : AgentSwitch → SwitchView
unfolding value
view_switch s = record {
  from = elim s.from_agent [ none ↦ none | some a ↦ some (value a) ];
  to = value s.to_agent;
  reason = s.reason;
  timestamp = s.switched_at;
  confidence = s.confidence;
}

unfoldable pub get_switch_history : AgentContext → List SwitchView
unfolding view_switch
get_switch_history c = map view_switch c.switch_history

unfoldable pub get_last_switch : AgentContext → Option AgentSwitch
get_last_switch c = last? c.switch_history

unfoldable pub get_switches_count : AgentContext → ℕ
get_switches_count c = c.switch_count

-- `none` is a call that raised nothing and made no switch.
unfoldable pub reset_to_orchestrator : Stamp → String → AgentContext → Option Outcome × AgentContext
unfolding switch_to same_agent
reset_to_orchestrator stamp reason c =
    if same_agent c.current_agent orchestrator
    then (none, c)
    else let (out, c') = switch_to stamp orchestrator reason none c in (some out, c')

unfoldable pub add_metadata : ℕ → String → Json → AgentContext → AgentContext
unfolding mark_updated
add_metadata now key val c = mark_updated now (record c { metadata = insert key val c.metadata })

unfoldable pub get_metadata : String → Option Json → AgentContext → Option Json
get_metadata key default c = elim (lookup key c.metadata) [ none ↦ default | some v ↦ some v ]

-- A call of one of the methods that change the entity.
pub data Call : Type 0 where
  switch : Stamp → AgentType → String → Option String → Call
  reset : Stamp → String → Call
  annotate : ℕ → String → Json → Call

unfoldable pub apply : Call → AgentContext → AgentContext
unfolding switch_to reset_to_orchestrator add_metadata
apply (switch stamp target reason confidence) c = (switch_to stamp target reason confidence c).1
apply (reset stamp reason) c = (reset_to_orchestrator stamp reason c).1
apply (annotate now key val) c = add_metadata now key val c

unfoldable pub run : List Call → AgentContext → AgentContext
run [] c = c
run (call ∷ calls) c = run calls (apply call c)
