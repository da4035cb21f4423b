-- ===== src/Agent/Switching/Consistency.antt =====
-- A switch that an agent asked for, in the answer, the notification and the repository:
-- agent-runtime/app/domain/services/helpers/agent_switch_helper.py over agent_orchestration.py.
use mathlib.Core.Path.{subst}
use codelab_ai_service.Agent.Context.{AgentType, AgentContext, Stamp}
use codelab_ai_service.Agent.Orchestration.{
  ContextRepository, unavailable, switch_agent, Reply, ok, raised, Service,
}
use codelab_ai_service.Agent.Orchestration.Events.{WorksWith, Answers, switch_agent-Answers}
use codelab_ai_service.Agent.Switching.{
  Services, SwitchReads, execute_agent_switch, handle_agent_switch_request, SwitchRequest,
  HelperError, switch_request, replied, notify, create_agent_switched_chunk, confidence_json,
  add_switch_mode_tool_result, find_switch_mode_call_id,
}
use codelab_ai_service.Prelude.{
  Sum-cases, String, inl, inr, some, ◌≡◌, ◌⊎◌, Option-cases, Text, ap, arith, false, sym, ◌∙◌,
}
use codelab_ai_service.Prelude.Json.{Json}
use codelab_ai_service.Agent.Chunk.{StreamChunk}
use codelab_ai_service.Agent.Session.{Session}
use codelab_ai_service.Agent.SessionManagement.{get_session}

module _ (repo : ContextRepository) where
  replied-inr :
      (stamp : Stamp) (session_id : String) (target : AgentType) (reason : String)
      (w w' : Services repo) (c : AgentContext) (answer : Reply × Service repo)
      → Answers repo stamp session_id target reason w.contexts answer
      → replied repo w answer ≡ (inr c, w')
      → (c.current_agent ≡ target)
        × WorksWith repo session_id target w'.contexts
        × (w'.sessions ≡ w.sessions)
  replied-inr stamp session_id target reason w w' c (ok d, contexts) (now, stored) h =
      let same : d ≡ c = ground (arith, h) in
      let kept : contexts ≡ w'.contexts = ground (arith, h) in
      (
        ap (λ (k : AgentContext). k.current_agent) (sym same) ∙ now,
        subst (WorksWith repo session_id target) kept stored,
        ground (arith, h),
      )
  replied-inr stamp session_id target reason w w' c (raised e, contexts) answers h =
      ground (arith, h)
  replied-inr stamp session_id target reason w w' c (unavailable, contexts) answers h =
      ground (arith, h)

  -- What a successful request has done.
  notify-inr :
      (from : AgentType) (q : SwitchRequest) (r : (HelperError ⊎ AgentContext) × Services repo)
      (c : AgentContext) (note : StreamChunk) (w' : Services repo)
      → notify repo from q r ≡ (inr (c, note), w')
      → (r ≡ (inr c, w'))
        × (note
            ≡ create_agent_switched_chunk from q.target q.reason
                (confidence_json q.confidence)
                false)
  notify-inr from q (inl e, w) c note w' h = ground (arith, h)
  notify-inr from q (inr d, w) c note w' h = ground (arith, h)

  pub handle_agent_switch_request-agrees :
      (dumps : Json → Text) (reads : SwitchReads) (session_id : String) (chunk note : StreamChunk)
      (current c : AgentContext) (w w' : Services repo)
      → handle_agent_switch_request repo dumps reads session_id chunk current w
        ≡ (inr (c, note), w')
      → (q : SwitchRequest) × (switch_request chunk ≡ some q)
        × (c.current_agent ≡ q.target)
        × WorksWith repo session_id q.target w'.contexts
        × (note
            ≡ create_agent_switched_chunk current.current_agent q.target q.reason
                (confidence_json q.confidence)
                false)
        × (session : Session) × (get_session session_id w.sessions ≡ inr session)
        × (add_switch_mode_tool_result repo dumps reads session_id
              (find_switch_mode_call_id session)
              q.target
              w.sessions
            ≡ inr w'.sessions)
  unfolding handle_agent_switch_request execute_agent_switch
  handle_agent_switch_request-agrees dumps reads session_id chunk note current c w w' h =
      elim (Option-cases (switch_request chunk)) [
        | inl e ↦ ground (arith, h, e)
        | inr (q, e) ↦ elim (Sum-cases (get_session session_id w.sessions)) [
          | inl (x, e') ↦ ground (arith, h, e, e')
          | inr (session, e') ↦
              elim (Sum-cases (
                add_switch_mode_tool_result repo dumps reads session_id
                  (find_switch_mode_call_id session) q.target w.sessions)) [
                    | inl (x, e'') ↦ ground (arith, h, e, e', e'')
                    | inr (s, e'') ↦
                        let w0 : Services repo = record w { sessions = s } in
                        let r =
                          switch_agent repo reads.uuid reads.stamp session_id q.target q.reason
                            q.confidence w.contexts in
                        let told : notify repo current.current_agent q (replied repo w0 r)
                            ≡ (inr (c, note), w') =
                          ground (arith, h, e, e', e'') in
                        let (made, noted) =
                          notify-inr current.current_agent q (replied repo w0 r) c note w' told in
                        let answers =
                          switch_agent-Answers repo reads.uuid reads.stamp session_id q.target
                            q.reason q.confidence w.contexts in
                        let (now, stored, kept) =
                          replied-inr reads.stamp session_id q.target q.reason w0 w' c r answers
                            made in
                        (q, e, now, stored, noted, session, e', e'' ∙ ap inr (sym kept))
                  ]
        ]
      ]
