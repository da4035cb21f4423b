-- ===== src/Agent/Approvals/Listing.antt =====
-- The operations that ApprovalRepositoryImpl has from the interface of repositories, and the policy of
-- the manager: agent-runtime/app/infrastructure/persistence/repositories/approval_repository_impl.py,
-- agent-runtime/app/domain/services/approval_management.py.
use codelab_ai_service.Prelude.Sorting.{sort_by}
use codelab_ai_service.Agent.Approvals.{
  PendingApproval, PendingApprovalState, Table, model_to_entity, is_pending, has_id, save_pending,
}
use codelab_ai_service.Agent.Approvals.Policy.{ApprovalPolicy}
use codelab_ai_service.Prelude.{Bool, List, String, drop, keep, leb, length, ltb, map, take, ℕ}

-- `save` saves the request of an entity, which is pending then.
unfoldable pub save_approval : ℕ → PendingApprovalState → Table → Table
save_approval now a rows =
    save_pending now
      (record {
        request_id = a.request_id;
        request_type = a.request_type;
        subject = a.subject;
        session_id = a.session_id;
        details = a.details;
        reason = a.reason;
      })
      rows

abbrev pub is_newer : PendingApproval → PendingApproval → Bool
is_newer a b = leb b.created_at a.created_at

-- The method `list`.
unfoldable pub list_approvals : ℕ → ℕ → Table → List PendingApprovalState
list_approvals limit offset rows =
    map model_to_entity (take limit (drop offset (sort_by is_newer (keep is_pending rows))))

unfoldable pub approval_exists : String → Table → Bool
approval_exists id rows = ltb 0 (length (keep (has_id id) rows))

unfoldable pub approval_count : Table → ℕ
approval_count rows = length (keep is_pending rows)

-- The policy that the manager holds, after the call.
unfoldable pub update_policy : ApprovalPolicy → ApprovalPolicy → ApprovalPolicy
update_policy policy old = policy

unfoldable pub is_enabled : ApprovalPolicy → Bool
is_enabled policy = policy.enabled
