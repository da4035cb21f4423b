-- ===== src/Agent/Decision/Deciding.antt =====
-- A decision is taken once: agent-runtime/app/domain/services/hitl_decision_handler.py over
-- agent-runtime/app/domain/services/approval_management.py.
use codelab_ai_service.Agent.Approvals.{get_pending}
use codelab_ai_service.Agent.Approvals.Manager.{Manager}
use codelab_ai_service.Agent.Decision.{
  HitlDecision, continued, declined, interrupted, Decided, not_imported,
}
use codelab_ai_service.Prelude.{Option, String, none, ◌≡◌, ◌⊎◌, is_some, true, some}
use codelab_ai_service.Agent.Orchestration.{ContextRepository}
use codelab_ai_service.Prelude.Json.{Json}
use codelab_ai_service.Agent.Chunk.{error}
use codelab_ai_service.Agent.Processing.{Agent}
use codelab_ai_service.Agent.Message.{Message}

module _ (repo : ContextRepository) where
  -- What a decision has done, by its answer: nothing, because the import failed; declined with one final
  -- chunk, because it is no decision or nothing was pending; or taken, and then it is a decision, a
  -- request was pending, and is so no more.
  abbrev pub IsDecided :
      Option (String → Option HitlDecision) → String → String → Manager → Decided repo → Type 0
  IsDecided hitl_models id decision m not_imported = hitl_models ≡ none
  IsDecided hitl_models id decision m (declined c) =
      (parse : String → Option HitlDecision) × (hitl_models ≡ some parse)
      × ((parse decision ≡ none) ⊎ (get_pending id m.rows ≡ none))
      × (c.type ≡ error)
      × (c.is_final ≡ true)
  IsDecided hitl_models id decision m (interrupted e m') =
      (parse : String → Option HitlDecision) × (hitl_models ≡ some parse)
      × (is_some (parse decision) ≡ true)
      × (is_some (get_pending id m.rows) ≡ true)
      × (get_pending id m'.rows ≡ none)
  IsDecided hitl_models id decision m (continued m' p) =
      (parse : String → Option HitlDecision) × (hitl_models ≡ some parse)
      × (is_some (parse decision) ≡ true)
      × (is_some (get_pending id m.rows) ≡ true)
      × (get_pending id m'.rows ≡ none)
