-- ===== src/Agent/Approvals/Manager.antt =====
-- agent-runtime/app/domain/services/approval_management.py: the manager of requests for approval. What
-- it publishes (agent-runtime/app/events/approval_events.py) is kept in the order of publication;
-- `refused` is the `ValueError` of a request that is not pending.
use codelab_ai_service.Prelude.{String, Option, none, some, List, [], ◌∷◌, ◌++◌, ℕ}
use codelab_ai_service.Agent.Approvals.{
  Status, Table, Request, save_pending, get_pending, approved, rejected, update_status,
}

pub data ApprovalEvent : Type 0 where
  approval_requested : String → String → String → String → Option String → ApprovalEvent
  approval_approved : String → String → String → ApprovalEvent
  approval_rejected : String → String → String → Option String → ApprovalEvent

pub record Manager : Type 0 where
  pub rows : Table
  pub events : List ApprovalEvent

-- Whether the call returns or raises.
pub data Reply : Type 0 where
  returned refused : Reply

abbrev pub publish : ApprovalEvent → Manager → Manager
publish e m = record m { events = m.events ++ e ∷ [] }

unfoldable pub add_pending : ℕ → Request → Manager → Manager
add_pending now q m =
    publish (approval_requested q.request_id q.session_id q.request_type q.subject q.reason)
      (record m { rows = save_pending now q m.rows })

-- `update_status`, whose answer is not looked at, then the event.
abbrev pub settle : Status → ℕ → String → Option String → ApprovalEvent → Manager → Manager
settle status now id reason e m =
    publish e (record m { rows = (update_status id status now reason m.rows).1 })

unfoldable pub approve : ℕ → String → Manager → Reply × Manager
approve now id m = elim (get_pending id m.rows) [
  | none ↦ (refused, m)
  | some a ↦
      (returned, settle approved now id none (approval_approved id a.session_id a.request_type) m)
]

unfoldable pub reject : ℕ → String → Option String → Manager → Reply × Manager
reject now id reason m = elim (get_pending id m.rows) [
  | none ↦ (refused, m)
  | some a ↦ (
    returned,
    settle rejected now id reason (approval_rejected id a.session_id a.request_type reason) m,
  )
]

pub data Call : Type 0 where
  add : ℕ → Request → Call
  accept : ℕ → String → Call
  decline : ℕ → String → Option String → Call

unfoldable pub apply : Call → Manager → Manager
unfolding add_pending approve reject
apply (add now q) m = add_pending now q m
apply (accept now id) m = (approve now id m).1
apply (decline now id reason) m = (reject now id reason m).1

unfoldable pub run : List Call → Manager → Manager
unfolding apply
run [] m = m
run (call ∷ calls) m = run calls (apply call m)
