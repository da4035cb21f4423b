-- ===== src/Agent/Approvals/Tests.antt =====
-- Requests for approval at concrete inputs, and the theorems about them there.
use codelab_ai_service.Prelude.{
  codes, List, [], ◌∷◌, arith, false, find, none, refl, some, true, ◌≡◌, ◌≤◌, inr,
}
use codelab_ai_service.Agent.Approvals.{Request, PendingApproval, approved, new_approval, has_id}
use codelab_ai_service.Agent.Approvals.Manager.{
  Manager, Call, add, accept, decline, run, approve, reject, refused,
}
use codelab_ai_service.Agent.Approvals.Decisions.{decisions, decisions-run, count_of, is_decided}
use codelab_ai_service.Agent.Approvals.Finality.{decided_for_good}
use codelab_ai_service.Agent.Approvals.Rules.{
  should_require_approval-first, policy_of, default_policy-requires, is_required, changes,
}
use codelab_ai_service.Agent.Approvals.Policy.{
  rule, tool, plan, anything, literal, should_require_approval, default_policy, Rule, rule_matches,
}

abbrev write : Request
write = record {
  request_id = "r1";
  request_type = "tool";
  subject = "write_file";
  session_id = "s1";
  details = [];
  reason = none;
}

abbrev calls : List Call
calls =
    add 1 write ∷ accept 2 "r1" ∷ decline 3 "r1" (some "late") ∷ add 4 write ∷ accept 5 "r1" ∷ []

abbrev empty : Manager
empty = record { rows = []; events = [] }

abbrev written : PendingApproval
written = record (new_approval 1 write) { status = approved; decision_at = some 2 }

one_row : (run calls empty).rows ≡ written ∷ []
unfolding run codelab_ai_service.Agent.Approvals.get_pending
    codelab_ai_service.Agent.Approvals.save_pending codelab_ai_service.Agent.Approvals.update_status
one_row = refl

decisions-run_example :
    (decisions "r1" (run calls empty).events ≤ 1)
    × (decisions "r1" (run calls empty).events ≡ count_of (is_decided "r1") (run calls empty).rows)
decisions-run_example = decisions-run calls "r1"

abbrev decided : Manager
decided = record { rows = written ∷ []; events = [] }

decided_for_good_example :
    (find (has_id "r1") (run calls decided).rows ≡ some written)
    × (approve 9 "r1" (run calls decided) ≡ (refused, run calls decided))
    × (reject 9 "r1" none (run calls decided) ≡ (refused, run calls decided))
decided_for_good_example =
    decided_for_good calls 9 "r1" none written decided refl refl (omega arith)

abbrev plans : Rule
plans = rule plan anything true none

abbrev writes : Rule
writes = rule tool (literal (codes "write")) true (some "changes a file")

should_require_approval-first_example :
    should_require_approval
      (policy_of true (plans ∷ writes ∷ []) false)
      "tool"
      (codes "write_file")
      []
    ≡ some (true, some "changes a file")
should_require_approval-first_example =
    should_require_approval-first (policy_of true (plans ∷ writes ∷ []) false) (some writes) "tool"
      (codes "write_file") []
      (inr (plans ∷ [], [], refl, (unfold rule_matches in (refl, tt)), unfold rule_matches in refl))

default_policy-requires_example :
    (is_required (should_require_approval default_policy "tool" (codes "move_file") [])
      ≡ some (changes (codes "move_file")))
    × (is_required (should_require_approval default_policy "plan" (codes "move_file") [])
        ≡ some true)
default_policy-requires_example = default_policy-requires (codes "move_file") []
