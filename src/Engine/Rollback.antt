-- ===== src/Engine/Rollback.antt =====
-- `rollback` (app/agent.py): the compensation of a task's last reversible action.
use aurelian_autonomous_ente.Prelude.{
  ℕ, String, Bool, true, false, [], ◌∷◌, Option, none, some, eqb, concat, if◌then◌else◌,
}
use aurelian_autonomous_ente.Json.{Value, Fields, bool, str, dict, field, end, get_null}
use aurelian_autonomous_ente.Result.{Result, ok, raised, error, type_name}
use aurelian_autonomous_ente.Auth.Roles.{Principal}
use aurelian_autonomous_ente.Policy.Decision.{PolicyDecision}
use aurelian_autonomous_ente.Policy.Evaluate.{approval_authorized}
use aurelian_autonomous_ente.Tools.Specs.{is_tool}
use aurelian_autonomous_ente.World.Rows.{
  TaskRow, TaskStatus, WorkflowState, ExecutionStatus, CompensationRow, CompensationStatus, Outcome,
}
use aurelian_autonomous_ente.World.Effects.{Effect, pure, raise, attempt, ◌>>=◌, ◌>>◌}
use aurelian_autonomous_ente.World.Statements.Tasks.{select_task}
use aurelian_autonomous_ente.World.Statements.Executions.{
  claim_execution, complete_rollback, end_execution,
}
use aurelian_autonomous_ente.World.Statements.Compensations.{select_compensation, move_compensation}
use aurelian_autonomous_ente.Engine.Environment.{
  Env, query, query_at, classify, decide_production, call_tool,
}
use aurelian_autonomous_ente.Engine.Keys.{decimal, execution_key}
use aurelian_autonomous_ente.Engine.Output.{validate_compensation}
use aurelian_autonomous_ente.Engine.Steps.{audit, finish}

-- `comp.get("tool")` and `comp.get("args",{})` of a validated compensation: a text and an object.
abbrev pub comp_tool : Fields → String
comp_tool comp = elim (get_null "tool" comp) [ str s ↦ s | _ ↦ "" ]

abbrev pub comp_args : Fields → Fields
comp_args comp = elim (get_null "args" comp) [ dict d ↦ d | _ ↦ end ]

module _ (env : Env) (task : ℕ) (p : Principal) where
  abbrev pub rollback_key : CompensationRow → Fields → String
  rollback_key c comp =
      execution_key task (concat ("rollback-" ∷ decimal c.id ∷ [])) (comp_tool comp)

  -- The action that undoes, real or simulated.
  unfoldable pub undo : String → Fields → Effect Fields
  undo key comp =
      if is_tool (comp_tool comp)
      then call_tool env p.tenant_id key (comp_tool comp) (comp_args comp)
      else pure (field "simulated" (bool true) (field "compensation" (dict comp) end))

  -- `if used!=1: raise`
  abbrev pub used_once : Fields → ℕ → Effect Fields
  used_once out n = if eqb n 1 then pure out else raise (error "RuntimeError")

  -- The body of the `try`.
  unfoldable pub try_undo : CompensationRow → Fields → Effect Fields
  unfolding undo
  try_undo c comp = do
    let key = rollback_key c comp
    out ← undo key comp
    query env (complete_rollback p.tenant_id key out)
    used ←
        query env
          (move_compensation p.tenant_id c.id CompensationStatus.executing CompensationStatus.used)
    used_once out used

  unfoldable pub after_undo : CompensationRow → Fields → Result Fields → Effect Outcome
  after_undo c comp (ok out) = do
    let result = Outcome.rolled_back out (rollback_key c comp)
    finish env p.tenant_id task TaskStatus.rolled_back result WorkflowState.rolled_back
    audit env p.tenant_id p "workflow.rollback" task
    pure result
  after_undo c comp (raised e) = do
    let key = rollback_key c comp
    query env (end_execution p.tenant_id key ExecutionStatus.execution_unknown (type_name e))
    query env (
        move_compensation p.tenant_id c.id CompensationStatus.executing
          CompensationStatus.execution_unknown)
    finish env p.tenant_id task TaskStatus.recovery_required
        (Outcome.recovery_required (comp_tool comp) key) WorkflowState.recovery_required
    raise e

  unfoldable pub after_rollback_claim : CompensationRow → Fields → Bool → Effect Outcome
  unfolding try_undo after_undo
  after_rollback_claim c comp true = do r ← attempt (try_undo c comp); after_undo c comp r
  after_rollback_claim c comp false = do
    query env (
        move_compensation p.tenant_id c.id CompensationStatus.executing
          CompensationStatus.execution_unknown)
    pure (Outcome.recovery_required (comp_tool comp) (rollback_key c comp))

  unfoldable pub claim_rollback : CompensationRow → Fields → Effect Bool
  claim_rollback c comp =
      query_at env
        (claim_execution p.tenant_id task "rollback" (comp_tool comp) (rollback_key c comp))

  -- The claim of the compensation, by the number of rows that it changed.
  unfoldable pub after_compensation_claim : CompensationRow → Fields → ℕ → Effect Outcome
  unfolding claim_rollback after_rollback_claim
  after_compensation_claim c comp claimed =
      if eqb claimed 0
      then pure Outcome.conflict
      else (do ex ← claim_rollback c comp; after_rollback_claim c comp ex)

  unfoldable pub claim_and_undo : CompensationRow → Fields → Effect Outcome
  unfolding after_compensation_claim
  claim_and_undo c comp = do
    claimed ← query env (
        move_compensation p.tenant_id c.id CompensationStatus.available
          CompensationStatus.executing)
    after_compensation_claim c comp claimed

  -- `approval_authorized(jit,p) if jit.requires_approval else (jit.allowed,jit.reason)`
  abbrev pub may_undo : PolicyDecision → Bool × String
  may_undo jit =
      if jit.requires_approval then approval_authorized jit p else (jit.allowed, jit.reason)

  unfoldable pub after_rollback_jit : CompensationRow → Fields → Bool × String → Effect Outcome
  unfolding claim_and_undo
  after_rollback_jit c comp (true, reason) = claim_and_undo c comp
  after_rollback_jit c comp (false, reason) =
      pure (Outcome.blocked (concat ("rollback JIT authorization failed: " ∷ reason ∷ [])))

  unfoldable pub authorize_rollback : CompensationRow → Fields → String → Effect Outcome
  unfolding claim_and_undo after_rollback_jit
  authorize_rollback c comp input_risk =
      if is_tool (comp_tool comp)
      then (do
        jit ← decide_production env (comp_tool comp) p input_risk
        after_rollback_jit c comp (may_undo jit))
      else claim_and_undo c comp

  unfoldable pub after_task : CompensationRow → Fields → Option TaskRow → Effect Outcome
  unfolding authorize_rollback
  after_task c comp none = pure (Outcome.blocked "originating task missing")
  after_task c comp (some t) = do risk ← classify env t.request; authorize_rollback c comp risk.risk

  unfoldable pub after_validation : CompensationRow → Fields → Bool × String → Effect Outcome
  unfolding after_task
  after_validation c comp (false, reason) =
      pure (Outcome.blocked (concat ("invalid compensation: " ∷ reason ∷ [])))
  after_validation c comp (true, reason) = do
    row ← query env (select_task p.tenant_id task)
    after_task c comp row

  -- A compensation that is not an object has no `get`.
  unfoldable pub with_compensation : CompensationRow → Value → Effect Outcome
  unfolding after_validation
  with_compensation c (dict comp) = after_validation c comp (validate_compensation c.tool_name comp)
  with_compensation c v = raise (error "AttributeError")

  unfoldable pub after_selection : Option CompensationRow → Effect Outcome
  unfolding with_compensation
  after_selection none = pure Outcome.no_compensation
  after_selection (some c) = with_compensation c c.compensation

  unfoldable pub rollback : Effect Outcome
  unfolding after_selection
  rollback = do c ← query env (select_compensation p.tenant_id task); after_selection c
