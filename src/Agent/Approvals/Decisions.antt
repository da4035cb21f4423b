-- ===== src/Agent/Approvals/Decisions.antt =====
-- A request for approval (approval_management.py) is decided at most once, and for good.
use codelab_ai_service.Agent.Approvals.{
  Table, PendingApproval, has_id, is_pending, change_first, decide, Status, pending, save_pending,
  get_pending, Request, update_status, approved, rejected, new_approval,
}
use codelab_ai_service.Agent.Approvals.Manager.{
  ApprovalEvent, approval_requested, approval_approved, approval_rejected, accept, add, decline,
  Manager, reject, approve, run, add_pending, apply, Call, settle,
}
use codelab_ai_service.Prelude.{
  Bool, List, Option, String, arith, eq_iff, find, if◌then◌else◌, none, not, refl, some, str_eq, ℕ,
  ◌&&◌, ◌++◌, ◌+◌, ◌∷◌, ◌≡◌, ◌≢◌, ◌≤◌, [], Option-cases, inl, inr,
}

-- How many rows pass a test.
abbrev pub count_of : (PendingApproval → Bool) → Table → ℕ
count_of p [] = 0
count_of p (row ∷ rows) = (if p row then 1 else 0) + count_of p rows

-- A row of the request that is no longer pending.
abbrev pub is_decided : String → PendingApproval → Bool
is_decided id row = has_id id row && not (is_pending row)

-- The events that tell of a decision on the request.
abbrev pub one_decision : String → ApprovalEvent → ℕ
one_decision id (approval_requested j session_id request_type subject reason) = 0
one_decision id (approval_approved j session_id request_type) = if str_eq j id then 1 else 0
one_decision id (approval_rejected j session_id request_type reason) = if str_eq j id then 1 else 0

abbrev pub decisions : String → List ApprovalEvent → ℕ
decisions id [] = 0
decisions id (e ∷ events) = one_decision id e + decisions id events

decisions-append_one :
    (id : String) (e : ApprovalEvent) (events : List ApprovalEvent)
    → decisions id (events ++ e ∷ []) ≡ decisions id events + one_decision id e
decisions-append_one id e [] = omega arith
decisions-append_one id e (d ∷ events) = omega (arith, decisions-append_one id e events)

pub count_of-append_one :
    (p : PendingApproval → Bool) (row : PendingApproval) (rows : Table)
    → count_of p (rows ++ row ∷ []) ≡ count_of p rows + (if p row then 1 else 0)
count_of-append_one p row [] = omega arith
count_of-append_one p row (other ∷ rows) = omega (arith, count_of-append_one p row rows)

count_of-find-none :
    (p : PendingApproval → Bool) (rows : Table) → find p rows ≡ none → count_of p rows ≡ 0
count_of-find-none p [] h = refl
count_of-find-none p (row ∷ rows) h = ground (arith, count_of-find-none p rows)

count_of-find_pending :
    (id : String) (row : PendingApproval) (rows : Table)
    → find (λ r. has_id id r && is_pending r) rows ≡ some row
    → 1 ≤ count_of (has_id id) rows
count_of-find_pending id row [] h = cc
count_of-find_pending id row (other ∷ rows) h = ground (arith, count_of-find_pending id row rows)

pub count_of-change_first :
    (id j : String) (status : Status) (now : ℕ) (reason : Option String) (rows : Table)
    → count_of (has_id j) (change_first (has_id id) (decide status now reason) rows)
      ≡ count_of (has_id j) rows
count_of-change_first id j status now reason [] = refl
count_of-change_first id j status now reason (row ∷ rows) =
    ground (arith, count_of-change_first id j status now reason rows)

decided-change_first :
    (id j : String) (status : Status) (now : ℕ) (reason : Option String) (row : PendingApproval)
    (rows : Table)
    → status ≢ pending
    → find (λ r. has_id id r && is_pending r) rows ≡ some row
    → count_of (has_id id) rows ≤ 1
    → count_of (is_decided j) (change_first (has_id id) (decide status now reason) rows)
      ≡ count_of (is_decided j) rows + (if str_eq id j then 1 else 0)
decided-change_first id j status now reason row [] final h one = cc
decided-change_first id j status now reason row (other ∷ rows) final h one = ground (
  arith,
  eq_iff other.request_id id,
  count_of-find_pending id row rows,
  decided-change_first id j status now reason row rows final,
)

count_of-is_decided :
    (id : String) (rows : Table) → count_of (is_decided id) rows ≤ count_of (has_id id) rows
count_of-is_decided id [] = omega arith
count_of-is_decided id (row ∷ rows) = ground (arith, count_of-is_decided id rows)

-- The events tell of as many decisions as the table holds, and no request is in the table twice.
abbrev pub IsSettled : Manager → Type 0
IsSettled m =
    (id : String)
    → (decisions id m.events ≡ count_of (is_decided id) m.rows) × (count_of (has_id id) m.rows ≤ 1)

add-IsSettled :
    (now : ℕ) (q : Request) (m : Manager) → IsSettled m → IsSettled (add_pending now q m)
unfolding add_pending save_pending
add-IsSettled now q m h id =
    let e = approval_requested q.request_id q.session_id q.request_type q.subject q.reason in
    elim (Option-cases (find (has_id q.request_id) m.rows)) [
      | inl absent ↦
          rw (absent, save_pending)
            (ground (
              arith,
              h id,
              eq_iff q.request_id id,
              decisions-append_one id e m.events,
              count_of-append_one (has_id id) (new_approval now q) m.rows,
              count_of-append_one (is_decided id) (new_approval now q) m.rows,
              count_of-find-none (has_id q.request_id) m.rows absent,
            ))
      | inr (row, present) ↦
          rw (present, save_pending) (ground (arith, h id, decisions-append_one id e m.events))
    ]

settle-IsSettled :
    (status : Status) (now : ℕ) (i : String) (reason : Option String) (e : ApprovalEvent)
    (row : PendingApproval) (m : Manager)
    → status ≢ pending
    → ((id : String) → one_decision id e ≡ (if str_eq i id then 1 else 0))
    → find (λ r. has_id i r && is_pending r) m.rows ≡ some row
    → IsSettled m
    → IsSettled (settle status now i reason e m)
unfolding update_status
settle-IsSettled status now i reason e row m final told found h id =
    elim (Option-cases (find (has_id i) m.rows)) [
      | inl absent ↦ absurd (
          omega (
            arith,
            count_of-find_pending i row m.rows found,
            count_of-find-none (has_id i) m.rows absent,
          ))
      | inr (first, present) ↦
          rw (present, update_status)
            (ground (
              arith,
              h id,
              told id,
              decisions-append_one id e m.events,
              count_of-change_first i id status now reason m.rows,
              decided-change_first i id status now reason row m.rows final found (h i).1,
            ))
    ]

approve-IsSettled :
    (now : ℕ) (i : String) (m : Manager) → IsSettled m → IsSettled (approve now i m).1
unfolding approve get_pending
approve-IsSettled now i m h = elim (Option-cases (find (λ r. has_id i r && is_pending r) m.rows)) [
  | inl absent ↦ rw (absent, approve) h
  | inr (row, found) ↦
      rw (found, approve)
        (settle-IsSettled approved now i none (approval_approved i row.session_id row.request_type)
          row m (λ e. cc) (λ id. refl) found h)
]

reject-IsSettled :
    (now : ℕ) (i : String) (reason : Option String) (m : Manager)
    → IsSettled m
    → IsSettled (reject now i reason m).1
unfolding reject get_pending
reject-IsSettled now i reason m h =
    elim (Option-cases (find (λ r. has_id i r && is_pending r) m.rows)) [
      | inl absent ↦ rw (absent, reject) h
      | inr (row, found) ↦
          rw (found, reject)
            (settle-IsSettled rejected now i reason
              (approval_rejected i row.session_id row.request_type reason) row m (λ e. cc)
              (λ id. refl) found h)
    ]

apply-IsSettled : (call : Call) (m : Manager) → IsSettled m → IsSettled (apply call m)
unfolding apply
apply-IsSettled (add now q) m h = add-IsSettled now q m h
apply-IsSettled (accept now i) m h = approve-IsSettled now i m h
apply-IsSettled (decline now i reason) m h = reject-IsSettled now i reason m h

run-IsSettled : (calls : List Call) (m : Manager) → IsSettled m → IsSettled (run calls m)
unfolding run
run-IsSettled [] m h = h
run-IsSettled (call ∷ calls) m h = run-IsSettled calls (apply call m) (apply-IsSettled call m h)

-- Whatever requests are added, approved and rejected, from an empty table on, at most one decision on
-- a request is published, and one is exactly if its row is no longer pending.
pub decisions-run :
    (calls : List Call) (id : String)
    → let m = run calls (record { rows = []; events = [] }) in
      (decisions id m.events ≤ 1) × (decisions id m.events ≡ count_of (is_decided id) m.rows)
decisions-run calls id =
    let end =
      run-IsSettled calls (record { rows = []; events = [] }) (λ i. (refl, omega arith)) id in
    let one = count_of-is_decided id (run calls (record { rows = []; events = [] })).rows in
    (omega (arith, end.0, end.1, one), end.0)
