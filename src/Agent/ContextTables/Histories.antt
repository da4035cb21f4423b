-- ===== src/Agent/ContextTables/Histories.antt =====
-- The history of a context, written and read again: agent-runtime/app/infrastructure/persistence/
-- mappers/agent_context_mapper.py.
use mathlib.Core.List.{append-nil, append_assoc}
use codelab_ai_service.Agent.ContextTables.{
  ContextDb, found, made, add_switches, switch_row, switches_of, switch_of, agent_named,
  confidence_of, is_switch_of, SwitchModel, replace_switches, from_of, is_made_before,
  select_switches, read_context, named, ContextModel, context_of, in_session, switch_with,
}
use codelab_ai_service.Prelude.{
  All, List, Option, Option-cases, String, ap, arith, eq_refl, find, get_or, if◌then◌else◌, inl,
  inr, is_some, keep, leb, map, none, not, refl, some, true, ◌++◌, ◌∙◌, ◌∷◌, ◌≡◌, [],
}
use codelab_ai_service.Prelude.Selecting.{keep-All, keep-append, keep-keep-none}
use codelab_ai_service.Prelude.Sorting.{IsChain, sort_by, sort_by-IsChain}
use codelab_ai_service.Agent.Context.{
  AgentType, AgentContext, AgentSwitch, architect, ask, coder, debug, orchestrator, universal,
  value,
}
use codelab_ai_service.Agent.SessionRepository.RoundTrip.{get_or-dumps_list}
use codelab_ai_service.Agent.SessionRepository.{has_key}

pub agent_named-value : (a : AgentType) → agent_named (value a) ≡ some a
unfolding agent_named value
agent_named-value orchestrator = refl
agent_named-value coder = refl
agent_named-value architect = refl
agent_named-value debug = refl
agent_named-value ask = refl
agent_named-value universal = refl

-- The tables have no column for the confidence: it is read from the metadata of a switch.
abbrev pub kept_switch : AgentSwitch → AgentSwitch
kept_switch s = record s { confidence = get_or (confidence_of s.metadata) none }

-- A history that can be read back: in the order of its times, and no metadata with a confidence that
-- is no text.
abbrev pub IsReadable : List AgentSwitch → Type 0
IsReadable ss =
    All (λ s. is_some (confidence_of s.metadata) ≡ true) ss
    × IsChain (λ s t. leb s.switched_at t.switched_at) ss

from_of-named : (a : Option AgentType) → from_of (named a) ≡ a
from_of-named none = refl
from_of-named (some a) = agent_named-value a

switch_of-switch_row :
    (id : String) (s : AgentSwitch)
    → is_some (confidence_of s.metadata) ≡ true
    → switch_of (switch_row id s) ≡ made (kept_switch s)
unfolding switch_of switch_row
switch_of-switch_row id s h = elim (Option-cases (confidence_of s.metadata)) [
  | inl e ↦ ground (arith, h, e)
  | inr (confidence, e) ↦ simp (
    switch_of,
    switch_row,
    switch_with,
    agent_named-value s.to_agent,
    from_of-named s.from_agent,
    get_or-dumps_list s.metadata,
    e,
  )
]

switches_of-rows :
    (id : String) (ss : List AgentSwitch)
    → All (λ s. is_some (confidence_of s.metadata) ≡ true) ss
    → switches_of (map (switch_row id) ss) ≡ some (map kept_switch ss)
unfolding switches_of
switches_of-rows id [] h = refl
switches_of-rows id (s ∷ ss) (h, hs) =
    ground (arith, switch_of-switch_row id s h, switches_of-rows id ss hs)

rows-IsChain :
    (id : String) (ss : List AgentSwitch)
    → IsChain (λ s t. leb s.switched_at t.switched_at) ss
    → IsChain is_made_before (map (switch_row id) ss)
unfolding switch_row
rows-IsChain id [] h = tt
rows-IsChain id (s ∷ []) h = tt
rows-IsChain id (s ∷ t ∷ ss) (h, hs) = (h, rows-IsChain id (t ∷ ss) hs)

rows-All :
    (id : String) (ss : List AgentSwitch)
    → All (λ row. is_switch_of id row ≡ true) (map (switch_row id) ss)
unfolding switch_row
rows-All id [] = tt
rows-All id (s ∷ ss) = (eq_refl id, rows-All id ss)

add_switches_lem :
    (ss rows rows' : List SwitchModel) → add_switches ss rows ≡ some rows' → rows' ≡ rows ++ ss
unfolding add_switches
add_switches_lem [] rows rows' h = ground (arith, append-nil rows)
add_switches_lem (s ∷ ss) rows rows' h =
    ground (arith, add_switches_lem ss (rows ++ s ∷ []) rows', append_assoc rows (s ∷ []) ss)

module _ (id : String) (c : AgentContext) (db db' : ContextDb)
    (h : replace_switches id c db ≡ some db') where
  pub replaced :
      (db'.sessions ≡ db.sessions)
      × (db'.contexts ≡ db.contexts)
      × (db'.switches
          ≡ keep (λ row. not (is_switch_of id row)) db.switches
            ++ map (switch_row id) c.switch_history)
  replaced =
      let kept = keep (λ row. not (is_switch_of id row)) db.switches in
      let rows = map (switch_row id) c.switch_history in
      elim (Option-cases (add_switches rows kept)) [
        | inl e ↦ ground (arith, h, e)
        | inr (t, e) ↦ ground (arith, h, e, add_switches_lem rows kept t)
      ]

  keep-replaced : keep (is_switch_of id) db'.switches ≡ map (switch_row id) c.switch_history
  keep-replaced =
      let other = λ (row : SwitchModel). not (is_switch_of id row) in
      let rows = map (switch_row id) c.switch_history in
      ap (keep (is_switch_of id)) replaced.2
      ∙ keep-append (is_switch_of id) (keep other db.switches) rows
      ∙ ap (λ xs. xs ++ keep (is_switch_of id) rows)
          (keep-keep-none (is_switch_of id) other (λ row e. ground arith) db.switches)
      ∙ keep-All (is_switch_of id) rows (rows-All id c.switch_history)

  switches_of-replaced :
      IsReadable c.switch_history
      → switches_of (select_switches id db'.switches) ≡ some (map kept_switch c.switch_history)
  unfolding select_switches
  switches_of-replaced (valid, ordered) =
      let rows = map (switch_row id) c.switch_history in
      ap (λ xs. switches_of (sort_by is_made_before xs)) keep-replaced
      ∙ ap switches_of
          (sort_by-IsChain is_made_before rows (rows-IsChain id c.switch_history ordered))
      ∙ switches_of-rows id c.switch_history valid

  -- A row of the context is read with this history.
  pub read_context-replaced :
      IsReadable c.switch_history
      → (model : ContextModel) → model.id ≡ id
      → is_some (find (has_key model.session_db_id) db.sessions) ≡ true
      → read_context model db' ≡ found (context_of model (map kept_switch c.switch_history))
  unfolding read_context
  read_context-replaced readable model e there =
      let read : switches_of (select_switches model.id db'.switches)
          ≡ some (map kept_switch c.switch_history) =
        ap (λ k. switches_of (select_switches k db'.switches)) e ∙ switches_of-replaced readable in
      let there' : is_some (find (has_key model.session_db_id) db'.sessions) ≡ true =
        ap (λ rows. is_some (find (has_key model.session_db_id) rows)) replaced.0 ∙ there in
      simp (read_context, in_session, read, there', if◌then◌else◌)
