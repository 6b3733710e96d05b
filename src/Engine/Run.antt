-- ===== src/Engine/Run.antt =====
-- `_run` (app/agent.py): guard, plan, policy, and then approval, refusal or execution.
use aurelian_autonomous_ente.Prelude.{ℕ, String, Text, ltb, if◌then◌else◌}
use aurelian_autonomous_ente.Auth.Roles.{Principal}
use aurelian_autonomous_ente.Policy.Decision.{PolicyDecision}
use aurelian_autonomous_ente.World.Rows.{TaskStatus, WorkflowState, Outcome}
use aurelian_autonomous_ente.World.Effects.{Effect, pure, ◌>>=◌, ◌>>◌}
use aurelian_autonomous_ente.World.Statements.Approvals.{insert_approval}
use aurelian_autonomous_ente.Engine.Environment.{
  Env, Plan, query, classify, decide_production, make_plan,
}
use aurelian_autonomous_ente.Engine.Steps.{audit, checkpoint, finish, fail}
use aurelian_autonomous_ente.Engine.Execute.{execute_approved}

module _ (env : Env) (task : ℕ) (p : Principal) where
  -- An approval is requested and the task waits.
  unfoldable pub request_approval : Plan → PolicyDecision → Effect Outcome
  request_approval plan decision = do
    id ← query env (
        insert_approval p.tenant_id task plan.tool plan.args p.sub p.role decision.approval_tier
          decision.reason)
    let result =
        Outcome.pending_approval id plan.tool decision.risk decision.approval_tier decision.reason
    finish env p.tenant_id task TaskStatus.pending_approval result WorkflowState.wait_approval
    audit env p.tenant_id p "approval.requested" task
    pure result

  unfoldable pub block : PolicyDecision → Effect Outcome
  block decision = do
    let result = Outcome.blocked decision.reason
    finish env p.tenant_id task TaskStatus.blocked result WorkflowState.blocked
    pure result

  unfoldable pub after_policy : String → Plan → PolicyDecision → Effect Outcome
  unfolding request_approval block
  after_policy input_risk plan decision =
      if decision.requires_approval
      then request_approval plan decision
      else if decision.allowed
      then execute_approved env task plan.tool plan.args p "none" input_risk
      else block decision

  unfoldable pub plan_and_decide : Text → String → Effect Outcome
  unfolding after_policy
  plan_and_decide request input_risk = do
    plan ← make_plan env request
    checkpoint env p.tenant_id task WorkflowState.plan 1
    audit env p.tenant_id p "agent.plan" task
    decision ← decide_production env plan.tool p input_risk
    checkpoint env p.tenant_id task WorkflowState.policy 1
    audit env p.tenant_id p "policy.decision" task
    after_policy input_risk plan decision

  -- One step is done when the budget is tested.
  unfoldable pub run : Text → Effect Outcome
  unfolding plan_and_decide
  run request = do
    risk ← classify env request
    checkpoint env p.tenant_id task WorkflowState.input_guard 1
    if ltb env.max_workflow_steps 1
        then fail env p.tenant_id task p "step budget exceeded"
        else plan_and_decide request risk.risk
