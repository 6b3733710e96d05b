-- ===== src/Engine/Steps.antt =====
-- `checkpoint`, `_finish` and `_fail` (app/agent.py). What the bus publishes is telemetry.
use aurelian_autonomous_ente.Prelude.{ℕ, String}
use aurelian_autonomous_ente.Auth.Roles.{Principal}
use aurelian_autonomous_ente.World.Rows.{TaskStatus, WorkflowState, Outcome}
use aurelian_autonomous_ente.World.Effects.{Effect, pure, ◌>>◌}
use aurelian_autonomous_ente.World.Statements.Tasks.{
  insert_checkpoint, update_workflow_state, finish_task, insert_audit,
}
use aurelian_autonomous_ente.Engine.Environment.{Env, query, query_at}

module _ (env : Env) where
  unfoldable pub audit : String → Principal → String → ℕ → Effect (Unit {0})
  audit tenant p event_type subject = query env (insert_audit tenant p.sub event_type subject)

  unfoldable pub checkpoint : String → ℕ → WorkflowState → ℕ → Effect (Unit {0})
  checkpoint tenant task node attempt = do
    query env (insert_checkpoint tenant task node attempt)
    query_at env (λ now. update_workflow_state tenant task node now)

  unfoldable pub finish : String → ℕ → TaskStatus → Outcome → WorkflowState → Effect (Unit {0})
  finish tenant task status result node =
      query_at env (λ now. finish_task tenant task status result node now)

  unfoldable pub fail : String → ℕ → Principal → String → Effect Outcome
  fail tenant task p reason = do
    let result = Outcome.failed_safe reason
    finish tenant task TaskStatus.failed result WorkflowState.failed
    audit tenant p "workflow.failed" task
    pure result
