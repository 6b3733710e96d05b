-- ===== src/Engine/Moves.antt =====
-- How the parts of app/agent.py change the world: the steps, the attempts and `execute_approved`,
-- by what the call of the tool does.
use aurelian_autonomous_ente.Prelude.{
  ℕ, zero, suc, String, Bool, true, false, Option, none, some, Text,
}
use aurelian_autonomous_ente.Json.{Fields}
use aurelian_autonomous_ente.Result.{Exception, type_name}
use aurelian_autonomous_ente.Auth.Roles.{Principal}
use aurelian_autonomous_ente.World.Rows.{TaskStatus, WorkflowState, Outcome, ExecutionRow}
use aurelian_autonomous_ente.Engine.Environment.{
  Env, classify, decide_production, make_plan, call_tool,
}
use aurelian_autonomous_ente.Engine.Steps.{audit, checkpoint, finish, fail}
use aurelian_autonomous_ente.Engine.Execute.{
  Stage, stop, replay, fresh, Attempts, replayable, need_recovery, stop_for_recovery,
  look_at_existing, after_lookup, after_lost_claim, after_claim, claim, after_jit, authorize,
  authorize_if_fresh, one_attempt, give_up, after_exception, attempts, keep_compensation,
  after_verify, conclude, after_attempts, perform, execute_approved,
}
use aurelian_autonomous_ente.Engine.Frames.{
  Frame, Moves, moves_rules, Moves-bind, Moves-attempt, Moves-result, Moves-option,
}
use aurelian_autonomous_ente.Engine.Statements.{mild_rules}

module _ (F : Frame) (env : Env) where
  pub Moves-audit : (t : String) (p : Principal) (e : String) (n : ℕ) → Moves F (audit env t p e n)
  unfolding audit
  Moves-audit t p e n = search (moves_rules, mild_rules)

  pub Moves-checkpoint :
      (t : String) (task : ℕ) (node : WorkflowState) (n : ℕ)
      → Moves F (checkpoint env t task node n)
  unfolding checkpoint
  Moves-checkpoint t task node n = search (moves_rules, mild_rules)

  pub Moves-finish :
      (t : String) (task : ℕ) (s : TaskStatus) (r : Outcome) (node : WorkflowState)
      → Moves F (finish env t task s r node)
  unfolding finish
  Moves-finish t task s r node = search (moves_rules, mild_rules)

  pub Moves-fail :
      (t : String) (task : ℕ) (p : Principal) (reason : String) → Moves F (fail env t task p reason)
  unfolding fail
  Moves-fail t task p reason = search (Moves-finish, Moves-audit, moves_rules)

  pub Moves-classify : (text : Text) → Moves F (classify env text)
  unfolding classify
  Moves-classify text = search moves_rules

  pub Moves-decide :
      (a : String) (p : Principal) (r : String) → Moves F (decide_production env a p r)
  unfolding decide_production
  Moves-decide a p r = search moves_rules

  pub Moves-make_plan : (text : Text) → Moves F (make_plan env text)
  unfolding make_plan
  Moves-make_plan text = search moves_rules

pub ruleset step_rules = (
  Moves-audit, Moves-checkpoint, Moves-finish, Moves-fail, Moves-classify, Moves-decide,
  Moves-make_plan,
)

module _ (F : Frame) (env : Env) (task : ℕ) (tool : String) (args : Fields) (p : Principal) where
  pub Moves-need_recovery : Moves F (need_recovery env task tool args p)
  unfolding need_recovery
  Moves-need_recovery = search (step_rules, moves_rules)

  pub Moves-stop_for_recovery : Moves F (stop_for_recovery env task tool args p)
  unfolding stop_for_recovery
  Moves-stop_for_recovery = search (Moves-need_recovery, moves_rules)

  pub Moves-look_at_existing :
      (e : ExecutionRow) → Moves F (look_at_existing env task tool args p e)
  unfolding look_at_existing
  Moves-look_at_existing e =
      Moves-option F (replayable e) _ _ (λ output. search moves_rules) Moves-stop_for_recovery

  pub Moves-after_lookup : (o : Option ExecutionRow) → Moves F (after_lookup env task tool args p o)
  unfolding after_lookup
  Moves-after_lookup none = search moves_rules
  Moves-after_lookup (some e) = Moves-look_at_existing e

  pub Moves-after_lost_claim :
      (o : Option ExecutionRow) → Moves F (after_lost_claim env task tool args p o)
  unfolding after_lost_claim
  Moves-after_lost_claim none = Moves-stop_for_recovery
  Moves-after_lost_claim (some e) = Moves-look_at_existing e

  pub Moves-after_claim : (b : Bool) → Moves F (after_claim env task tool args p b)
  unfolding after_claim
  Moves-after_claim true = search moves_rules
  Moves-after_claim false = search (Moves-after_lost_claim, mild_rules, moves_rules)

  pub Moves-claim : Moves F (claim env task tool args p)
  unfolding claim
  Moves-claim = search (mild_rules, moves_rules)

  pub Moves-after_jit : (o : Option String) → Moves F (after_jit env task tool args p o)
  unfolding after_jit
  Moves-after_jit none = search (Moves-claim, Moves-after_claim, moves_rules)
  Moves-after_jit (some reason) = search (step_rules, moves_rules)

  pub Moves-give_up : (e : String) → Moves F (give_up env task tool args p e)
  unfolding give_up
  Moves-give_up e = search (Moves-need_recovery, mild_rules, moves_rules)

  pub Moves-after_exception :
      (n : ℕ) (e : Exception) → Moves F (after_exception env task tool args p n e)
  unfolding after_exception
  Moves-after_exception zero e = Moves-give_up (type_name e)
  Moves-after_exception (suc n) e = search moves_rules

  pub Moves-keep_compensation : (o : Fields) → Moves F (keep_compensation env task tool args p o)
  unfolding keep_compensation
  Moves-keep_compensation o = search (mild_rules, moves_rules)

  pub Moves-after_verify :
      (o : Fields) (n : ℕ) (v : Bool × String) → Moves F (after_verify env task tool args p o n v)
  unfolding after_verify
  Moves-after_verify o n (false, reason) = search (step_rules, moves_rules)
  Moves-after_verify o n (true, reason) = search (step_rules, moves_rules)

  pub Moves-conclude : (o : Fields) (n : ℕ) → Moves F (conclude env task tool args p o n)
  unfolding conclude
  Moves-conclude o n = search (step_rules, Moves-keep_compensation, Moves-after_verify, moves_rules)

  pub Moves-after_attempts : (a : Attempts) → Moves F (after_attempts env task tool args p a)
  unfolding after_attempts
  Moves-after_attempts (Attempts.done o n) = Moves-conclude o n
  Moves-after_attempts (Attempts.returned r) = search moves_rules
  Moves-after_attempts (Attempts.exhausted e) = Moves-fail F env p.tenant_id task p _

  pub Moves-authorize : (tier risk : String) → Moves F (authorize env task tool args p tier risk)
  unfolding authorize
  Moves-authorize tier risk = search (step_rules, Moves-after_jit, moves_rules)

  pub Moves-authorize_if_fresh :
      (tier risk : String) (s : Stage)
      → Moves F (authorize_if_fresh env task tool args p tier risk s)
  unfolding authorize_if_fresh
  Moves-authorize_if_fresh tier risk fresh = Moves-authorize tier risk
  Moves-authorize_if_fresh tier risk (stop r) = search moves_rules
  Moves-authorize_if_fresh tier risk (replay o) = search moves_rules

  -- What follows is by what the calls of the tool do.
  module _ (h : (key : String) → Moves F (call_tool env p.tenant_id key tool args)) where
    pub Moves-one_attempt : Moves F (one_attempt env task tool args p)
    unfolding one_attempt
    Moves-one_attempt = search (h, mild_rules, moves_rules)

    pub Moves-attempts :
        (left n : ℕ) (last : String) → Moves F (attempts env task tool args p left n last)
    unfolding attempts
    Moves-attempts zero n last = search moves_rules
    Moves-attempts (suc left) n last = Moves-bind F _ _ (Moves-attempt F _ Moves-one_attempt) (λ r.
        Moves-result F r _ _ (λ o. search moves_rules)
          (λ e. Moves-bind F _ _ (Moves-after_exception left e) (λ g.
            Moves-option F g _ _ (λ result. search moves_rules)
              (Moves-bind F _ _
                (Moves-checkpoint F env p.tenant_id task WorkflowState.execute_retry n)
                (λ _. Moves-attempts left (suc n) (type_name e))))))

    pub Moves-perform : (s : Stage) → Moves F (perform env task tool args p s)
    unfolding perform
    Moves-perform (stop r) = search moves_rules
    Moves-perform (replay o) = search (step_rules, Moves-conclude, moves_rules)
    Moves-perform fresh = search (Moves-attempts, Moves-after_attempts, moves_rules)

    pub Moves-execute_approved :
        (tier risk : String) → Moves F (execute_approved env task tool args p tier risk)
    unfolding execute_approved
    Moves-execute_approved tier risk =
        search
          (mild_rules, Moves-after_lookup, Moves-authorize_if_fresh, Moves-perform, moves_rules)
