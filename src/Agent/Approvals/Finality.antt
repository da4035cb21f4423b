-- ===== src/Agent/Approvals/Finality.antt =====
-- A decision on a request for approval (approval_management.py) cannot be taken back or taken again.
use mathlib.Core.Path.{subst}
use codelab_ai_service.Agent.Approvals.{
  Table, PendingApproval, has_id, is_pending, change_first, decide, Status, get_pending, approved,
  rejected, save_pending, update_status, PendingApprovalState, new_approval,
}
use codelab_ai_service.Agent.Approvals.Manager.{
  Manager, Call, add, accept, decline, apply, run, refused, approve, reject, approval_approved,
  approval_rejected, ApprovalEvent, settle,
}
use codelab_ai_service.Agent.Approvals.Decisions.{
  count_of, count_of-change_first, count_of-append_one,
}
use codelab_ai_service.Prelude.{
  List, Option, String, arith, false, find, none, refl, some, str_eq, ℕ, ◌&&◌, ◌++◌, ◌∷◌, ◌≡◌, ◌≤◌,
  [], Bool, Bool-cases, Option-cases, eq_iff, inl, inr, sym,
}

-- The only row of the request, which is decided.
abbrev pub IsFinal : String → PendingApproval → Table → Type 0
IsFinal id row rows =
    (find (has_id id) rows ≡ some row) × (is_pending row ≡ false) × (count_of (has_id id) rows ≤ 1)

pub find_pending-none :
    (id : String) (rows : Table)
    → count_of (has_id id) rows ≡ 0
    → find (λ r. has_id id r && is_pending r) rows ≡ none
find_pending-none id [] h = refl
find_pending-none id (other ∷ rows) h = ground (arith, find_pending-none id rows)

find_pending-IsFinal :
    (id : String) (row : PendingApproval) (rows : Table)
    → IsFinal id row rows
    → find (λ r. has_id id r && is_pending r) rows ≡ none
find_pending-IsFinal id row [] h = refl
find_pending-IsFinal id row (other ∷ rows) h =
    ground (arith, find_pending-none id rows, find_pending-IsFinal id row rows)

find-append_one :
    (p : PendingApproval → Bool) (row new : PendingApproval) (rows : Table)
    → find p rows ≡ some row
    → find p (rows ++ new ∷ []) ≡ some row
find-append_one p row new [] h = cc
find-append_one p row new (other ∷ rows) h = ground (arith, find-append_one p row new rows)

find-change_first :
    (id i : String) (status : Status) (now : ℕ) (reason : Option String) (rows : Table)
    → str_eq i id ≡ false
    → find (has_id id) (change_first (has_id i) (decide status now reason) rows)
      ≡ find (has_id id) rows
find-change_first id i status now reason [] h = refl
find-change_first id i status now reason (row ∷ rows) h = ground (
  arith,
  eq_iff row.request_id i,
  eq_iff row.request_id id,
  eq_iff i id,
  find-change_first id i status now reason rows,
)

append_one-IsFinal :
    (id : String) (row new : PendingApproval) (rows : Table)
    → has_id id new ≡ false
    → IsFinal id row rows
    → IsFinal id row (rows ++ new ∷ [])
append_one-IsFinal id row new rows other h =
    ground
      (arith, find-append_one (has_id id) row new rows, count_of-append_one (has_id id) new rows)

change_first-IsFinal :
    (id i : String) (status : Status) (now : ℕ) (reason : Option String) (row : PendingApproval)
    (rows : Table)
    → str_eq i id ≡ false
    → IsFinal id row rows
    → IsFinal id row (change_first (has_id i) (decide status now reason) rows)
change_first-IsFinal id i status now reason row rows other h = ground (
  arith,
  find-change_first id i status now reason rows,
  count_of-change_first i id status now reason rows,
)

approve-IsFinal :
    (now : ℕ) (id : String) (row : PendingApproval) (m : Manager)
    → IsFinal id row m.rows
    → approve now id m ≡ (refused, m)
unfolding approve get_pending
approve-IsFinal now id row m h = rw (find_pending-IsFinal id row m.rows h, approve) refl

reject-IsFinal :
    (now : ℕ) (id : String) (reason : Option String) (row : PendingApproval) (m : Manager)
    → IsFinal id row m.rows
    → reject now id reason m ≡ (refused, m)
unfolding reject get_pending
reject-IsFinal now id reason row m h = rw (find_pending-IsFinal id row m.rows h, reject) refl

-- What can still be decided is another request.
pending-IsFinal :
    (i id : String) (row : PendingApproval) (a : PendingApprovalState) (rows : Table)
    → get_pending i rows ≡ some a
    → IsFinal id row rows
    → str_eq i id ≡ false
unfolding get_pending
pending-IsFinal i id row a rows h final = elim (Bool-cases (str_eq i id)) [
  | inl same ↦
      let none_left = find_pending-IsFinal id row rows final in
      let e : i ≡ id = ground (arith, eq_iff i id) in
      ground
        (arith, subst (λ j. find (λ r. has_id j r && is_pending r) rows ≡ none) (sym e) none_left)
  | inr other ↦ other
]

settle-IsFinal :
    (status : Status) (now : ℕ) (i id : String) (reason : Option String) (e : ApprovalEvent)
    (row : PendingApproval) (a : PendingApprovalState) (m : Manager)
    → get_pending i m.rows ≡ some a
    → IsFinal id row m.rows
    → IsFinal id row (settle status now i reason e m).rows
unfolding update_status
settle-IsFinal status now i id reason e row a m h final =
    let other = pending-IsFinal i id row a m.rows h final in
    elim (Option-cases (find (has_id i) m.rows)) [
      | inl absent ↦ rw (absent, update_status) final
      | inr (first, present) ↦
          rw (present, update_status)
            (change_first-IsFinal id i status now reason row m.rows other final)
    ]

apply-IsFinal :
    (call : Call) (id : String) (row : PendingApproval) (m : Manager)
    → IsFinal id row m.rows
    → IsFinal id row (apply call m).rows
unfolding apply save_pending
apply-IsFinal (add now q) id row m h = elim (Option-cases (find (has_id q.request_id) m.rows)) [
  | inl absent ↦
      rw (absent, save_pending)
        (append_one-IsFinal id row (new_approval now q) m.rows
          (ground (arith, eq_iff q.request_id id, h)) h)
  | inr (first, present) ↦ rw (present, save_pending) h
]
apply-IsFinal (accept now i) id row m h = elim (Option-cases (get_pending i m.rows)) [
  | inl absent ↦ rw (absent, apply) h
  | inr (a, found) ↦
      rw (found, apply)
        (settle-IsFinal approved now i id none (approval_approved i a.session_id a.request_type) row
          a m found h)
]
apply-IsFinal (decline now i reason) id row m h = elim (Option-cases (get_pending i m.rows)) [
  | inl absent ↦ rw (absent, apply) h
  | inr (a, found) ↦
      rw (found, apply)
        (settle-IsFinal rejected now i id reason
          (approval_rejected i a.session_id a.request_type reason) row a m found h)
]

run-IsFinal :
    (calls : List Call) (id : String) (row : PendingApproval) (m : Manager)
    → IsFinal id row m.rows
    → IsFinal id row (run calls m).rows
unfolding run
run-IsFinal [] id row m h = h
run-IsFinal (call ∷ calls) id row m h =
    run-IsFinal calls id row (apply call m) (apply-IsFinal call id row m h)

-- Once a request is decided, no sequence of calls changes its row, and at its end the request can
-- neither be approved nor be rejected: both calls raise, and change and publish nothing.
pub decided_for_good :
    (calls : List Call) (now : ℕ) (id : String) (reason : Option String) (row : PendingApproval)
    (m : Manager)
    → find (has_id id) m.rows ≡ some row
    → is_pending row ≡ false
    → count_of (has_id id) m.rows ≤ 1
    → let end = run calls m in
      (find (has_id id) end.rows ≡ some row)
      × (approve now id end ≡ (refused, end))
      × (reject now id reason end ≡ (refused, end))
decided_for_good calls now id reason row m found final one =
    let h = run-IsFinal calls id row m (found, final, one) in
    let end = run calls m in
    (h.0, approve-IsFinal now id row end h, reject-IsFinal now id reason row end h)
