-- ===== src/Agent/ContextTables/Tests.antt =====
-- A context that is saved twice: its confidence is not kept.
use codelab_ai_service.Agent.Context.{AgentContext, AgentSwitch, ask, coder, new_context}
use codelab_ai_service.Agent.Session.{new_session}
use codelab_ai_service.Agent.SessionRepository.{new_model}
use codelab_ai_service.Agent.ContextTables.{
  ContextDb, found, save_context, find_by_session_id, context_row, switch_row, add_switches,
}
use codelab_ai_service.Agent.ContextTables.Histories.{kept_switch}
use codelab_ai_service.Agent.ContextTables.Stored.{kept_context, row_id, find_by_session_id-save}
use codelab_ai_service.Prelude.{none, refl, some, ◌∷◌, ◌≡◌, [], lookup}

abbrev switch : AgentSwitch
switch = record {
  id = "sw";
  from_agent = some ask;
  to_agent = coder;
  reason = "code";
  switched_at = 5;
  confidence = some "high";
  metadata = [];
}

abbrev context : AgentContext
context = record (new_context "c" "s" coder) { switch_history = switch ∷ []; switch_count = 1 }

abbrev before : ContextDb
before = record {
  sessions = new_model (new_session "s" 1 2) ∷ [];
  contexts = context_row 3 "s" (new_context "old" "s" ask) ∷ [];
  switches = [];
}

abbrev after : ContextDb
after = record before {
  contexts = context_row 3 "s" (record context { id = "old"; updated_at = some 4 }) ∷ [];
  switches = switch_row "old" switch ∷ [];
}

saved : save_context 4 context before ≡ some after
unfolding save_context add_switches switch_row
saved = refl

find_by_session_id-save_example :
    find_by_session_id "s" after ≡ found (kept_context (row_id context before) 4 context)
unfolding lookup
find_by_session_id-save_example =
    find_by_session_id-save 4 context before after ((refl, tt), tt) saved

forgotten : (kept_switch switch).confidence ≡ none
unfolding lookup
forgotten = refl
