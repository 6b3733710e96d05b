-- ===== src/Engine/Execute.antt =====
-- `execute_approved` (app/agent.py): the claim of an execution key, the attempts, and what follows.
use aurelian_autonomous_ente.Prelude.{
  ℕ, zero, suc, ◌+◌, String, Bool, true, false, not, ◌||◌, [], ◌∷◌, Option, none, some, ◌==◌,
  concat, if◌then◌else◌,
}
use aurelian_autonomous_ente.Json.{Fields, get_null, truthy}
use aurelian_autonomous_ente.Result.{Exception, ok, raised, type_name}
use aurelian_autonomous_ente.Auth.Roles.{Principal}
use aurelian_autonomous_ente.Policy.Decision.{PolicyDecision}
use aurelian_autonomous_ente.Policy.Evaluate.{approval_authorized}
use aurelian_autonomous_ente.Tools.Specs.{has_side_effect}
use aurelian_autonomous_ente.World.Rows.{
  TaskStatus, WorkflowState, ExecutionStatus, ExecutionRow, Outcome,
}
use aurelian_autonomous_ente.World.Effects.{Effect, pure, attempt, ◌>>=◌, ◌>>◌}
use aurelian_autonomous_ente.World.Statements.Executions.{
  select_execution, claim_execution, complete_execution, end_execution,
}
use aurelian_autonomous_ente.World.Statements.Compensations.{has_compensation, insert_compensation}
use aurelian_autonomous_ente.Engine.Environment.{Env, query, query_at, decide_production, call_tool}
use aurelian_autonomous_ente.Engine.Keys.{execution_key}
use aurelian_autonomous_ente.Engine.Output.{verify_output}
use aurelian_autonomous_ente.Engine.Steps.{audit, checkpoint, finish, fail}

-- How far `execute_approved` has come: a finished result, an output that is replayed, or a key that
-- is still to claim or has been claimed.
pub data Stage : Type 0 where
  stop : Outcome → Stage
  replay : Fields → Stage
  fresh : Stage

-- How the attempts end.
pub data Attempts : Type 0 where
  -- `break`, with the output and the attempt's number
  done : Fields → ℕ → Attempts
  -- `return` from the handler
  returned : Outcome → Attempts
  -- the loop's `else`, with the type of the last exception
  exhausted : String → Attempts

-- The completed output of a row, if it can be replayed.
abbrev pub replayable : ExecutionRow → Option Fields
replayable e = elim e.status [ ExecutionStatus.completed ↦ e.output | _ ↦ none ]

-- Why the just-in-time decision stops an execution, if it does.
unfoldable pub jit_refusal : String → PolicyDecision → Principal → Option String
jit_refusal approval_tier jit p =
    if approval_tier == "none"
    then (if not jit.allowed
        then some (concat ("JIT policy denied execution: " ∷ jit.reason ∷ []))
        else none)
    else let (authorized, reason) = approval_authorized jit p in
      if not authorized || not (jit.approval_tier == approval_tier)
      then some (concat ("JIT approval authorization failed: " ∷ reason ∷ []))
      else none

module _ (env : Env) (task : ℕ) (tool : String) (args : Fields) (p : Principal) where
  abbrev pub exec_key : String
  exec_key = execution_key task "primary" tool

  -- The result `recovery_required`, which is also the task's.
  unfoldable pub need_recovery : Effect Outcome
  need_recovery = do
    let result = Outcome.recovery_required tool exec_key
    finish env p.tenant_id task TaskStatus.recovery_required result WorkflowState.recovery_required
    pure result

  unfoldable pub stop_for_recovery : Effect Stage
  unfolding need_recovery
  stop_for_recovery = do result ← need_recovery; pure (stop result)

  -- What an execution row that is there already means.
  unfoldable pub look_at_existing : ExecutionRow → Effect Stage
  unfolding stop_for_recovery
  look_at_existing e = elim (replayable e) [
    | some output ↦ pure (replay output)
    | none ↦ stop_for_recovery
  ]

  unfoldable pub after_lookup : Option ExecutionRow → Effect Stage
  unfolding look_at_existing
  after_lookup none = pure fresh
  after_lookup (some e) = look_at_existing e

  -- Another caller has claimed the key.
  unfoldable pub after_lost_claim : Option ExecutionRow → Effect Stage
  unfolding look_at_existing stop_for_recovery
  after_lost_claim none = stop_for_recovery
  after_lost_claim (some e) = look_at_existing e

  unfoldable pub after_claim : Bool → Effect Stage
  unfolding after_lost_claim
  after_claim true = pure fresh
  after_claim false = do
    existing ← query env (select_execution p.tenant_id exec_key)
    after_lost_claim existing

  unfoldable pub claim : Effect Bool
  claim = query_at env (claim_execution p.tenant_id task "primary" tool exec_key)

  unfoldable pub after_jit : Option String → Effect Stage
  unfolding claim after_claim
  after_jit (some reason) = do
    let result = Outcome.blocked reason
    finish env p.tenant_id task TaskStatus.blocked result WorkflowState.jit_blocked
    pure (stop result)
  after_jit none = do claimed ← claim; after_claim claimed

  -- The just-in-time decision before a new execution.
  unfoldable pub authorize : String → String → Effect Stage
  unfolding after_jit
  authorize approval_tier input_risk = do
    jit ← decide_production env tool p input_risk
    checkpoint env p.tenant_id task WorkflowState.jit_policy 1
    audit env p.tenant_id p "policy.jit_recheck" task
    after_jit (jit_refusal approval_tier jit p)

  unfoldable pub authorize_if_fresh : String → String → Stage → Effect Stage
  unfolding authorize
  authorize_if_fresh approval_tier input_risk fresh = authorize approval_tier input_risk
  authorize_if_fresh approval_tier input_risk (stop result) = pure (stop result)
  authorize_if_fresh approval_tier input_risk (replay output) = pure (replay output)

  -- The body of one `try`: the call, and its output noted.
  unfoldable pub one_attempt : Effect Fields
  one_attempt = do
    output ← call_tool env p.tenant_id exec_key tool args
    query env (complete_execution p.tenant_id exec_key output)
    pure output

  -- The handler of the last attempt's exception.
  unfoldable pub give_up : String → Effect (Option Outcome)
  unfolding need_recovery
  give_up error_type =
      if has_side_effect tool
      then (do
        query env (end_execution p.tenant_id exec_key ExecutionStatus.execution_unknown error_type)
        result ← need_recovery
        pure (some result))
      else (do
        query env (end_execution p.tenant_id exec_key ExecutionStatus.failed error_type)
        pure none)

  -- The last attempt, and then any one before it: `left` more follow.
  unfoldable pub after_exception : ℕ → Exception → Effect (Option Outcome)
  unfolding give_up
  after_exception zero e = give_up (type_name e)
  after_exception (suc left) e = pure none

  -- `for attempt in range(1,max_attempts+1)`, from a number of attempts left.
  unfoldable pub attempts : ℕ → ℕ → String → Effect Attempts
  attempts zero n last = pure (exhausted last)
  attempts (suc left) n last = do
    r ← attempt one_attempt
    elim r [
      | ok output ↦ pure (done output n)
      | raised e ↦ do
        given_up ← after_exception left e
        elim given_up [
          | some result ↦ pure (returned result)
          | none ↦ do
            checkpoint env p.tenant_id task WorkflowState.execute_retry n
            attempts left (suc n) (type_name e)
        ]
    ]

  -- `max_attempts`
  unfoldable pub max_attempts : ℕ
  max_attempts = if has_side_effect tool then 1 else env.max_tool_retries + 1

  -- `if output.get("compensation")`, noted once for each execution key.
  unfoldable pub keep_compensation : Fields → Effect (Unit {0})
  keep_compensation output =
      if truthy (get_null "compensation" output)
      then (do
        prior ← query env (has_compensation p.tenant_id task exec_key)
        if prior
            then pure tt
            else query_at env (
                insert_compensation p.tenant_id task tool (get_null "compensation" output)
                  exec_key))
      else pure tt

  unfoldable pub after_verify : Fields → ℕ → Bool × String → Effect Outcome
  after_verify output n (false, reason) =
      fail env p.tenant_id task p (concat ("verification failed: " ∷ reason ∷ []))
  after_verify output n (true, reason) = do
    let result = Outcome.completed tool output n exec_key
    finish env p.tenant_id task TaskStatus.completed result WorkflowState.complete
    audit env p.tenant_id p "tool.executed" task
    pure result

  -- From the output to the result; a replay counts as attempt 0.
  unfoldable pub conclude : Fields → ℕ → Effect Outcome
  unfolding keep_compensation after_verify
  conclude output n = do
    checkpoint env p.tenant_id task WorkflowState.execute n
    keep_compensation output
    checkpoint env p.tenant_id task WorkflowState.verify 1
    after_verify output n (verify_output tool output)

  unfoldable pub after_attempts : Attempts → Effect Outcome
  unfolding conclude
  after_attempts (done output n) = conclude output n
  after_attempts (returned result) = pure result
  after_attempts (exhausted last) =
      fail env p.tenant_id task p (concat ("tool failed safely after retries: " ∷ last ∷ []))

  unfoldable pub perform : Stage → Effect Outcome
  unfolding conclude attempts after_attempts
  perform (stop result) = pure result
  perform (replay output) = do
    audit env p.tenant_id p "tool.execution_recovered" task
    conclude output 0
  perform fresh = do ended ← attempts max_attempts 1 "NoneType"; after_attempts ended

  unfoldable pub execute_approved : String → String → Effect Outcome
  unfolding after_lookup authorize_if_fresh perform
  execute_approved approval_tier input_risk = do
    existing ← query env (select_execution p.tenant_id exec_key)
    found ← after_lookup existing
    stage ← authorize_if_fresh approval_tier input_risk found
    perform stage
