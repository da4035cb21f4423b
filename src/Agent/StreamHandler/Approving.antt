-- ===== src/Agent/StreamHandler/Approving.antt =====
-- A dangerous call of a tool and its request for approval: agent-runtime/app/application/handlers/
-- stream_llm_response_handler.py, with agent-runtime/app/domain/services/llm_response_processor.py and
-- approval_management.py beside it.
use mathlib.Core.Path.{subst}
use codelab_ai_service.Prelude.{
  Sum-cases, refl, Bool, String, arith, codes, eq_refl, find, inl, inr, is_some, none, some, true,
  ℕ, ◌&&◌, ◌∷◌, ◌≡◌, ◌⊎◌, [], Bool-cases, Dict, List, Option, ap, sym, ◌∙◌, Option-cases, Text,
  false, get_or, length,
}
use codelab_ai_service.Agent.Message.{Message, LlmMessage}
use codelab_ai_service.Agent.Approvals.{
  Request, PendingApproval, Table, has_id, save_pending, get_pending, is_pending, new_approval,
}
use codelab_ai_service.Agent.SessionManagement.{
  SessionService, SessionError, Draft, Done, add_message, returned, failed,
}
use codelab_ai_service.Agent.Hitl.{HitlPolicy, requires_approval}
use codelab_ai_service.Agent.Llm.{
  ToolCall, LlmResponse, ProcessedResponse, process_response, get_first_tool_call, check_policy,
  first_only,
}
use codelab_ai_service.Agent.Approvals.Manager.{Manager, add_pending}
use codelab_ai_service.Agent.StreamHandler.{
  text_draft, message_chunk, handle_assistant_message, Runtime, Moment, complete, handle_tool_call,
  tool_chunk, tool_draft, tool_execution_requested, ask_approval, handle, handle_processed, emit,
  conclude, approval_request, current_agent, request_started,
}
use codelab_ai_service.Agent.Tools.{ToolSpec, tools_spec, filter_tools}
use codelab_ai_service.Agent.Chunk.{StreamChunk, is_tool_call}
use codelab_ai_service.Prelude.Selecting.{find-append, find-weaker}
use codelab_ai_service.Prelude.Json.{Json}

-- A new request is pending.
pub get_pending-save_pending :
    (now : ℕ) (q : Request) (rows : Table)
    → find (has_id q.request_id) rows ≡ none
    → is_some (get_pending q.request_id (save_pending now q rows)) ≡ true
unfolding get_pending save_pending
get_pending-save_pending now q rows h =
    let p = λ (row : PendingApproval). has_id q.request_id row && is_pending row in
    let old : find p rows ≡ none =
      find-weaker p (has_id q.request_id) (λ row e. ground arith) rows (ground (arith, h)) in
    ground (arith, h, old, find-append p rows (new_approval now q ∷ []), eq_refl q.request_id)

pub Done-cases :
    (A : Type 0) (r : Done A)
    → ((a : A) × (s : SessionService) × (r ≡ returned a s)) ⊎ ((e : SessionError) × (r ≡ failed e))
Done-cases A (returned a s) = inl (a, s, refl)
Done-cases A (failed e) = inr (e, refl)

-- What the end of a branch did when it gave a chunk.
complete-inr :
    (moment : Moment) (session_id : String) (d : Draft) (p : ProcessedResponse) (calls : Bool)
    (chunk c : StreamChunk) (w w' : Runtime)
    → complete moment session_id d p calls chunk w ≡ (inr c, w')
    → (c ≡ chunk)
      × (w'.manager ≡ w.manager)
      × (m : Message) × (add_message moment.posted session_id d w.service ≡ returned m w'.service)
complete-inr moment session_id d p calls chunk c w w' h =
    elim (Done-cases Message (add_message moment.posted session_id d w.service)) [
      | inl (m, s, e) ↦ (ground (arith, e), ground (arith, e), m, ground (arith, e))
      | inr (r, e) ↦ ground arith
    ]

-- The rule on approvals is applied to the first call.
check_policy-first :
    (policy : HitlPolicy) (calls : List ToolCall) (call : ToolCall)
    → get_first_tool_call calls ≡ some call
    → check_policy policy calls ≡ requires_approval policy (codes call.tool_name)
check_policy-first policy [] call h = ground arith
check_policy-first policy (c ∷ calls) call h =
    let same : c ≡ call = ground (arith, h) in
    ap (λ (k : ToolCall). requires_approval policy (codes k.tool_name)) same

process_response-first :
    (policy : HitlPolicy) (response : LlmResponse) (call : ToolCall)
    → get_first_tool_call (process_response policy response).tool_calls ≡ some call
    → (process_response policy response).requires_approval
      ≡ (requires_approval policy (codes call.tool_name)).0
unfolding process_response
process_response-first policy response call h =
    ap (λ (r : Bool × Option String). r.0)
      (check_policy-first policy (first_only response.tool_calls).0 call h)

-- A request for approval leaves the sessions alone, and is pending when it was asked for.
ask_approval-service :
    (moment : Moment) (session_id : String) (call : ToolCall) (p : ProcessedResponse) (w : Runtime)
    → (ask_approval moment session_id call p w).service ≡ w.service
ask_approval-service moment session_id call p w = elim (Bool-cases p.requires_approval) [
  | inl e ↦ ground (arith, e)
  | inr e ↦ ground (arith, e)
]

ask_approval-pending :
    (moment : Moment) (session_id : String) (call : ToolCall) (p : ProcessedResponse) (w : Runtime)
    → p.requires_approval ≡ true
    → find (has_id call.id) w.manager.rows ≡ none
    → is_some (get_pending call.id (ask_approval moment session_id call p w).manager.rows) ≡ true
unfolding add_pending
ask_approval-pending moment session_id call p w e h =
    let waiting =
      get_pending-save_pending moment.requested (approval_request session_id call p) w.manager.rows
        h in
    ground (arith, e, waiting)

-- A call of a tool that comes out of the branch of calls.
handle_tool_call-inr :
    (dumps : Dict Json → String) (moment : Moment) (session_id : String) (call : ToolCall)
    (p : ProcessedResponse) (history : List LlmMessage) (c : StreamChunk) (w w' : Runtime)
    → handle_tool_call dumps moment session_id call p history w ≡ (inr c, w')
    → p.requires_approval ≡ true
    → find (has_id call.id) w.manager.rows ≡ none
    → (c ≡ tool_chunk call p)
      × (is_some (get_pending call.id w'.manager.rows) ≡ true)
      × (m : Message) × (add_message moment.posted session_id (tool_draft dumps call) w.service
          ≡ returned m w'.service)
unfolding handle_tool_call
handle_tool_call-inr dumps moment session_id call p history c w w' h e fresh =
    let begun =
      emit (tool_execution_requested session_id call (get_or (current_agent history) "unknown"))
        w in
    let asked = ask_approval moment session_id call p begun in
    let (same, managed, m, stored) =
      complete-inr moment session_id (tool_draft dumps call) p true (tool_chunk call p) c asked w'
        h in
    let waiting = ask_approval-pending moment session_id call p begun e fresh in
    (
      same,
      ap (λ (k : Manager). is_some (get_pending call.id k.rows)) managed ∙ waiting,
      m,
      ap (λ k. add_message moment.posted session_id (tool_draft dumps call) k)
            (sym (ask_approval-service moment session_id call p begun))
          ∙ stored,
    )

handle_tool_call-chunk :
    (dumps : Dict Json → String) (moment : Moment) (session_id : String) (call : ToolCall)
    (p : ProcessedResponse) (history : List LlmMessage) (c : StreamChunk) (w w' : Runtime)
    → handle_tool_call dumps moment session_id call p history w ≡ (inr c, w')
    → c ≡ tool_chunk call p
unfolding handle_tool_call
handle_tool_call-chunk dumps moment session_id call p history c w w' h =
    let begun =
      emit (tool_execution_requested session_id call (get_or (current_agent history) "unknown"))
        w in
    (complete-inr moment session_id (tool_draft dumps call) p true (tool_chunk call p) c
      (ask_approval moment session_id call p begun) w' h).0

-- A chunk that calls a tool comes from the branch of calls.
handle_processed-tool_call :
    (dumps : Dict Json → String) (moment : Moment) (session_id : String) (p : ProcessedResponse)
    (history : List LlmMessage) (c : StreamChunk) (w w' : Runtime)
    → handle_processed dumps moment session_id p history w ≡ (inr c, w')
    → is_tool_call c ≡ true
    → (call : ToolCall) × (get_first_tool_call p.tool_calls ≡ some call)
      × (handle_tool_call dumps moment session_id call p history w ≡ (inr c, w'))
unfolding handle_assistant_message
handle_processed-tool_call dumps moment session_id p history c w w' h h' =
    elim (Option-cases (get_first_tool_call p.tool_calls)) [
      | inl e ↦
          let made =
            complete-inr moment session_id (text_draft p.content) p false (message_chunk p.content)
              c w w' (ground (arith, e, h)) in
          ground (arith, made.0, h')
      | inr (call, e) ↦ (call, e, ground (arith, e, h))
    ]

conclude-tool_call :
    (show : SessionError → Text) (session_id model : String)
    (r : (SessionError ⊎ StreamChunk) × Runtime) (c : StreamChunk) (w' : Runtime)
    → conclude show session_id model r ≡ (c, w')
    → is_tool_call c ≡ true
    → r ≡ (inr c, w')
conclude-tool_call show session_id model (inl e, w) c w' h h' = ground (arith, h, h')
conclude-tool_call show session_id model (inr d, w) c w' h h' = ground (arith, h)

-- When the handler yields the call of a tool that the policy wants approved, and no request with
-- the identifier of the call was in the table of approvals, then the chunk says that an approval is
-- required and the request is pending in the table.
pub handle-pending :
    (dumps : Dict Json → String) (show : SessionError → Text)
    (chat : List LlmMessage → List ToolSpec → Text ⊎ LlmResponse) (policy : HitlPolicy)
    (moment : Moment) (session_id : String) (history : List LlmMessage) (model : String)
    (allowed : Option (List String)) (w w' : Runtime) (c : StreamChunk) (name id : String)
    → handle dumps show chat policy moment session_id history model allowed w ≡ (c, w')
    → is_tool_call c ≡ true
    → c.tool_name ≡ some name
    → c.call_id ≡ some id
    → (requires_approval policy (codes name)).0 ≡ true
    → find (has_id id) w.manager.rows ≡ none
    → (c.requires_approval ≡ some true) × (is_some (get_pending id w'.manager.rows) ≡ true)
unfolding handle
handle-pending dumps show chat policy moment session_id history model allowed w w' c name id h typed
      named called required fresh =
    let tools = filter_tools tools_spec allowed in
    let begun = emit (request_started session_id model (length history) (length tools)) w in
    elim (Sum-cases (chat history tools)) [
      | inl (message, e) ↦ ground (arith, e, h, typed)
      | inr (response, e) ↦
          let p = process_response policy response in
          let r = handle_processed dumps moment session_id p history begun in
          let ended : conclude show session_id model r ≡ (c, w') = ground (arith, e, h) in
          let (call, first, made) =
            handle_processed-tool_call dumps moment session_id p history c begun w'
              (conclude-tool_call show session_id model r c w' ended typed) typed in
          let same =
            handle_tool_call-chunk dumps moment session_id call p history c begun w' made in
          let tool_same : call.tool_name ≡ name = ground (arith, same, named) in
          let id_same : call.id ≡ id = ground (arith, same, called) in
          let needed : p.requires_approval ≡ true =
            process_response-first policy response call first
            ∙ ap (λ k. (requires_approval policy (codes k)).0) tool_same
            ∙ required in
          let ended_well =
            handle_tool_call-inr dumps moment session_id call p history c begun w' made needed
              (subst (λ k. find (has_id k) w.manager.rows ≡ none) (sym id_same) fresh) in
          (
            ground (arith, same, needed),
            subst (λ k. is_some (get_pending k w'.manager.rows) ≡ true) id_same ended_well.1,
          )
    ]
