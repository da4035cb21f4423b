-- ===== src/Agent/Approvals.antt =====
-- The table of requests for approval: agent-runtime/app/infrastructure/persistence/models/hitl.py, and
-- the repository on it, agent-runtime/app/infrastructure/persistence/repositories/
-- approval_repository_impl.py. The database answers every statement: `RepositoryError` is not modelled.
-- `request_id` is unique in the table, so that `scalar_one_or_none` is the first row that fits.
mod Tests
pub mod Policy
pub mod Rules
pub mod Manager
pub mod Listing
pub mod Decisions
pub mod Finality
use codelab_ai_service.Prelude.{
  Bool, ℕ, String, Option, none, some, List, [], ◌∷◌, ◌++◌, Dict, lookup, get_or, str_eq, ◌&&◌,
  false, find, if◌then◌else◌, is_truthy, keep, leb, length, map, not, true,
}
use codelab_ai_service.Prelude.Json.{Json, object, no_members}

pub data Status : Type 0 where
  pending approved rejected : Status

pub record PendingApproval : Type 0 where
  pub request_id : String
  pub request_type : String
  pub subject : String
  pub details : Dict Json
  pub call_id : Option String
  pub session_id : String
  pub tool_name : Option String
  pub arguments : Option Json
  pub reason : Option String
  pub created_at : ℕ
  pub status : Status
  pub decision_at : Option ℕ
  pub decision_reason : Option String

abbrev pub Table : Type 0
Table = List PendingApproval

-- The entity of agent-runtime/app/domain/entities/approval.py.
pub record PendingApprovalState : Type 0 where
  pub request_id : String
  pub request_type : String
  pub subject : String
  pub session_id : String
  pub details : Dict Json
  pub reason : Option String
  pub created_at : ℕ
  pub status : Status

abbrev pub model_to_entity : PendingApproval → PendingApprovalState
model_to_entity row = record {
  request_id = row.request_id;
  request_type = row.request_type;
  subject = row.subject;
  session_id = row.session_id;
  details = row.details;
  reason = row.reason;
  created_at = row.created_at;
  status = row.status;
}

abbrev pub is_pending : PendingApproval → Bool
is_pending row = elim row.status [ pending ↦ true | _ ↦ false ]

abbrev pub has_id : String → PendingApproval → Bool
has_id id row = str_eq row.request_id id

-- What a request brings.
pub record Request : Type 0 where
  pub request_id : String
  pub request_type : String
  pub subject : String
  pub session_id : String
  pub details : Dict Json
  pub reason : Option String

-- A column that only the requests of tools fill.
abbrev for_tool : {A : Type 0} → String → A → Option A
for_tool request_type a = if str_eq request_type "tool" then some a else none

abbrev pub new_approval : ℕ → Request → PendingApproval
new_approval now q = record {
  request_id = q.request_id;
  request_type = q.request_type;
  subject = q.subject;
  details = q.details;
  call_id = for_tool q.request_type q.request_id;
  session_id = q.session_id;
  tool_name = for_tool q.request_type q.subject;
  arguments = for_tool q.request_type (get_or (lookup "arguments" q.details) (object no_members));
  reason = q.reason;
  created_at = now;
  status = pending;
  decision_at = none;
  decision_reason = none;
}

-- A request whose identifier is there already changes nothing, and the caller is not told.
unfoldable pub save_pending : ℕ → Request → Table → Table
save_pending now q rows = elim (find (has_id q.request_id) rows) [
  | some row ↦ rows
  | none ↦ rows ++ new_approval now q ∷ []
]

unfoldable pub get_pending : String → Table → Option PendingApprovalState
get_pending id rows = elim (find (λ row. has_id id row && is_pending row) rows) [
  | some row ↦ some (model_to_entity row)
  | none ↦ none
]

-- `order_by(created_at.asc())`: rows of one time stay in the order of the table.
abbrev pub insert_by_time : PendingApproval → Table → Table
insert_by_time row [] = row ∷ []
insert_by_time row (other ∷ rows) =
    let rest = insert_by_time row rows in
    if leb row.created_at other.created_at then row ∷ other ∷ rows else other ∷ rest

unfoldable pub order_by_time : Table → Table
order_by_time [] = []
order_by_time (row ∷ rows) = insert_by_time row (order_by_time rows)

abbrev pub of_type : Option String → PendingApproval → Bool
of_type request_type row =
    if is_truthy request_type then str_eq row.request_type (get_or request_type "") else true

unfoldable pub get_all_pending : String → Option String → Table → List PendingApprovalState
unfolding order_by_time
get_all_pending session_id request_type rows =
    let passes = λ (row : PendingApproval).
      str_eq row.session_id session_id && is_pending row && of_type request_type row in
    map model_to_entity (order_by_time (keep passes rows))

abbrev pub decide : Status → ℕ → Option String → PendingApproval → PendingApproval
decide status now reason row = record row {
  status = status;
  decision_at = some now;
  decision_reason = if is_truthy reason then reason else row.decision_reason;
}

-- The change of the first row that passes a test.
abbrev pub change_first :
    (PendingApproval → Bool) → (PendingApproval → PendingApproval) → Table → Table
change_first p f [] = []
change_first p f (row ∷ rows) =
    let rest = change_first p f rows in if p row then f row ∷ rows else row ∷ rest

unfoldable pub update_status : String → Status → ℕ → Option String → Table → Bool × Table
update_status id status now reason rows = elim (find (has_id id) rows) [
  | some row ↦ (true, change_first (has_id id) (decide status now reason) rows)
  | none ↦ (false, rows)
]

unfoldable pub delete_pending : String → Table → Bool × Table
delete_pending id rows = elim (find (has_id id) rows) [
  | some row ↦ (true, keep (λ row. not (has_id id row)) rows)
  | none ↦ (false, rows)
]

unfoldable pub count_pending : String → Table → ℕ
count_pending session_id rows =
    length (keep (λ row. str_eq row.session_id session_id && is_pending row) rows)
