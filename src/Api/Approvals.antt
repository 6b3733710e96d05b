-- ===== src/Api/Approvals.antt =====
-- `approve` and `deny` of app/main.py.
use aurelian_autonomous_ente.Prelude.{
  ℕ, String, Bool, true, false, not, [], ◌∷◌, Option, none, some, ◌==◌, eqb, concat, if◌then◌else◌,
}
use aurelian_autonomous_ente.Result.{Result, ok, raised, http_exception}
use aurelian_autonomous_ente.Auth.Roles.{Principal, has_scope}
use aurelian_autonomous_ente.Policy.Decision.{PolicyDecision}
use aurelian_autonomous_ente.Policy.Evaluate.{approval_authorized}
use aurelian_autonomous_ente.World.Rows.{
  TaskRow, TaskStatus, WorkflowState, Outcome, ApprovalRow, ApprovalStatus,
}
use aurelian_autonomous_ente.World.Effects.{Effect, pure, raise, attempt, ◌>>=◌, ◌>>◌}
use aurelian_autonomous_ente.World.Statements.Tasks.{select_task, set_task_status}
use aurelian_autonomous_ente.World.Statements.Approvals.{
  is_pending, select_approval, claim_approval, deny_approval, set_approval_status,
}
use aurelian_autonomous_ente.Engine.Environment.{Env, query, query_at, classify, decide_production}
use aurelian_autonomous_ente.Engine.Steps.{audit}
use aurelian_autonomous_ente.Engine.Execute.{execute_approved}

-- The status of an approval after its action ended with a result.
abbrev pub final_status : Outcome → ApprovalStatus
final_status (Outcome.completed _ _ _ _) = ApprovalStatus.approved
final_status (Outcome.recovery_required _ _) = ApprovalStatus.recovery_required
final_status _ = ApprovalStatus.execution_failed

module _ (env : Env) (p : Principal) where
  -- The status after the action, and what the reviewer is told.
  unfoldable pub settle : ApprovalRow → Result Outcome → Effect Outcome
  settle a (ok result) = do
    query env (set_approval_status p.tenant_id a.id (final_status result))
    audit env p.tenant_id p "approval.executed" a.id
    pure result
  settle a (raised e) = do
    query env (set_approval_status p.tenant_id a.id ApprovalStatus.execution_failed)
    audit env p.tenant_id p "approval.execution_failed" a.id
    raise (http_exception 500 "approved action failed safely")

  -- What a claim does that changed one row.
  unfoldable pub execute_claimed : ApprovalRow → PolicyDecision → String → Effect Outcome
  unfolding settle
  execute_claimed a decision input_risk = do
    audit env p.tenant_id p "approval.claimed" a.id
    r ←
        attempt
          (execute_approved env a.task_id a.tool_name a.args p decision.approval_tier input_risk)
    settle a r

  unfoldable pub after_approval_claim : ApprovalRow → PolicyDecision → String → ℕ → Effect Outcome
  unfolding execute_claimed
  after_approval_claim a decision input_risk claimed =
      if not (eqb claimed 1)
      then raise (http_exception 409 "approval was claimed by another reviewer")
      else execute_claimed a decision input_risk

  unfoldable pub claim_and_execute : ApprovalRow → PolicyDecision → String → Effect Outcome
  unfolding after_approval_claim
  claim_and_execute a decision input_risk = do
    claimed ← query_at env (claim_approval p.tenant_id a.id p.sub)
    after_approval_claim a decision input_risk claimed

  -- The reviewer's authority, and the tier that was asked for.
  unfoldable pub after_review :
      ApprovalRow → PolicyDecision → String → Bool × String → Effect Outcome
  unfolding claim_and_execute
  after_review a decision input_risk (false, reason) = raise (http_exception 403 reason)
  after_review a decision input_risk (true, reason) =
      if not (decision.approval_tier == a.approval_tier)
      then raise (http_exception 409 "policy changed since approval request; re-request approval")
      else claim_and_execute a decision input_risk

  unfoldable pub review : ApprovalRow → Option TaskRow → Effect Outcome
  unfolding after_review
  review a none = raise (http_exception 409 "approval references missing task")
  review a (some t) = do
    risk ← classify env t.request
    decision ← decide_production env a.tool_name p risk.risk
    after_review a decision risk.risk (approval_authorized decision p)

  unfoldable pub review_pending : Option ApprovalRow → Effect Outcome
  unfolding review
  review_pending none = raise (http_exception 404 "Not Found")
  review_pending (some a) =
      if not (is_pending a)
      then raise (http_exception 409 "already reviewed or executing")
      else (do row ← query env (select_task p.tenant_id a.task_id); review a row)

  unfoldable pub approve : ℕ → Effect Outcome
  unfolding review_pending
  approve approval_id = do a ← query env (select_approval p.tenant_id approval_id); review_pending a

  abbrev pub required_scope : ApprovalRow → String
  required_scope a =
      if a.approval_tier == "executive_mfa" then "approve:executive" else "approve:team"

  unfoldable pub after_denial : ApprovalRow → ℕ → Effect (Unit {0})
  after_denial a changed =
      if not (eqb changed 1)
      then raise (http_exception 409 "approval already reviewed or executing")
      else (do
        query_at env (set_task_status p.tenant_id a.task_id TaskStatus.blocked WorkflowState.denied)
        audit env p.tenant_id p "approval.denied" a.id)

  unfoldable pub deny_found : Option ApprovalRow → Effect (Unit {0})
  unfolding after_denial
  deny_found none = raise (http_exception 404 "Not Found")
  deny_found (some a) =
      if not (has_scope (required_scope a) p)
      then raise (
          http_exception 403
            (concat (required_scope a ∷ " scope required to deny this approval" ∷ [])))
      else (do changed ← query env (deny_approval p.tenant_id a.id p.sub); after_denial a changed)

  unfoldable pub deny : ℕ → Effect (Unit {0})
  unfolding deny_found
  deny approval_id = do a ← query env (select_approval p.tenant_id approval_id); deny_found a
