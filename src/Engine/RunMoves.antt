-- ===== src/Engine/RunMoves.antt =====
-- How `_run` and `rollback` (app/agent.py) change the world, by what their last steps do.
use aurelian_autonomous_ente.Prelude.{
  ℕ, String, ◌≡◌, refl, Bool, true, false, Option, none, some, Text,
}
use aurelian_autonomous_ente.Json.{Value, dict, Fields}
use aurelian_autonomous_ente.Result.{Result, ok, raised}
use aurelian_autonomous_ente.Auth.Roles.{Principal}
use aurelian_autonomous_ente.Policy.Decision.{PolicyDecision}
use aurelian_autonomous_ente.Tools.Specs.{is_tool}
use aurelian_autonomous_ente.World.Rows.{TaskRow, CompensationRow}
use aurelian_autonomous_ente.Engine.Environment.{Env, Plan, decide_production}
use aurelian_autonomous_ente.Engine.Execute.{execute_approved}
use aurelian_autonomous_ente.Engine.Run.{
  request_approval, block, after_policy, plan_and_decide, run,
}
use aurelian_autonomous_ente.Engine.Rollback.{
  comp_tool, undo, used_once, try_undo, after_rollback_claim, claim_rollback,
  after_compensation_claim, after_undo, claim_and_undo, may_undo, after_rollback_jit,
  authorize_rollback, after_task, after_validation, with_compensation, after_selection, rollback,
}
use aurelian_autonomous_ente.Engine.Frames.{
  Frame, Moves, Returns, moves_rules, Moves-bind, Moves-after, Moves-if,
}
use aurelian_autonomous_ente.Engine.Statements.{mild_rules}
use aurelian_autonomous_ente.Engine.Moves.{
  step_rules, Moves-audit, Moves-checkpoint, Moves-decide, Moves-make_plan,
}

module _ (F : Frame) (env : Env) (task : ℕ) (p : Principal) where
  pub Moves-request_approval :
      (plan : Plan) (d : PolicyDecision) → Moves F (request_approval env task p plan d)
  unfolding request_approval
  Moves-request_approval plan d = search (step_rules, mild_rules, moves_rules)

  pub Moves-block : (d : PolicyDecision) → Moves F (block env task p d)
  unfolding block
  Moves-block d = search (step_rules, moves_rules)

  -- A run, by what executing does under a decision that allows it without approval.
  module _
      (executes : (plan : Plan) (risk : String) (d : PolicyDecision)
        → Returns (decide_production env plan.tool p risk) d
        → d.requires_approval ≡ false
        → d.allowed ≡ true
        → Moves F (execute_approved env task plan.tool plan.args p "none" risk)) where
    pub Moves-after_policy :
        (risk : String) (plan : Plan) (d : PolicyDecision)
        → Returns (decide_production env plan.tool p risk) d
        → Moves F (after_policy env task p risk plan d)
    unfolding after_policy
    Moves-after_policy risk plan d h =
        Moves-if F _ _ _ (λ _. Moves-request_approval plan d)
          (λ r. Moves-if F _ _ _ (λ a. executes plan risk d h r a) (λ _. Moves-block d))

    pub Moves-plan_and_decide :
        (request : Text) (risk : String) → Moves F (plan_and_decide env task p request risk)
    unfolding plan_and_decide
    Moves-plan_and_decide request risk = Moves-bind F _ _ (Moves-make_plan F env request) (λ plan.
        Moves-bind F _ _ (Moves-checkpoint F env _ _ _ _) (λ _.
          Moves-bind F _ _ (Moves-audit F env _ _ _ _) (λ _.
            Moves-after F _ _ (Moves-decide F env plan.tool p risk) (λ d h.
              Moves-bind F _ _ (Moves-checkpoint F env _ _ _ _) (λ _.
                Moves-bind F _ _ (Moves-audit F env _ _ _ _)
                  (λ _. Moves-after_policy risk plan d h))))))

    pub Moves-run : (request : Text) → Moves F (run env task p request)
    unfolding run
    Moves-run request = search (step_rules, Moves-plan_and_decide, moves_rules)

  pub Moves-after_undo :
      (c : CompensationRow) (comp : Fields) (r : Result Fields)
      → Moves F (after_undo env task p c comp r)
  unfolding after_undo
  Moves-after_undo c comp (ok out) = search (step_rules, moves_rules)
  Moves-after_undo c comp (raised e) = search (step_rules, mild_rules, moves_rules)

  -- The claims of a rollback, by what the undoing does.
  module _ (comp : Fields) (h : (key : String) → Moves F (undo env task p key comp)) where
    Moves-used_once : (out : Fields) (n : ℕ) → Moves F (used_once env task p out n)
    Moves-used_once out n = search moves_rules

    pub Moves-try_undo : (c : CompensationRow) → Moves F (try_undo env task p c comp)
    unfolding try_undo
    Moves-try_undo c = search (h, mild_rules, moves_rules)

    pub Moves-after_rollback_claim :
        (c : CompensationRow) (b : Bool) → Moves F (after_rollback_claim env task p c comp b)
    unfolding after_rollback_claim
    Moves-after_rollback_claim c true = search (Moves-try_undo, Moves-after_undo, moves_rules)
    Moves-after_rollback_claim c false = search (mild_rules, moves_rules)

    pub Moves-claim_and_undo : (c : CompensationRow) → Moves F (claim_and_undo env task p c comp)
    unfolding claim_and_undo after_compensation_claim claim_rollback
    Moves-claim_and_undo c = search (Moves-after_rollback_claim, mild_rules, moves_rules)

  -- A rollback, by what its claim and its undoing do once they are authorized.
  module _
      (undoes : (c : CompensationRow) (comp : Fields) (risk : String)
        → (is_tool (comp_tool comp) ≡ true
            → (d : PolicyDecision) × Returns (decide_production env (comp_tool comp) p risk) d
              × ((may_undo env task p d).0 ≡ true))
        → Moves F (claim_and_undo env task p c comp)) where
    after_jit-Moves :
        (c : CompensationRow) (comp : Fields) (risk : String) (d : PolicyDecision)
        → Returns (decide_production env (comp_tool comp) p risk) d
        → (v : Bool × String) → (may_undo env task p d).0 ≡ v.0
        → Moves F (after_rollback_jit env task p c comp v)
    unfolding after_rollback_jit
    after_jit-Moves c comp risk d h (true, reason) e = undoes c comp risk (λ _. (d, h, e))
    after_jit-Moves c comp risk d h (false, reason) e = search moves_rules

    pub Moves-authorize_rollback :
        (c : CompensationRow) (comp : Fields) (risk : String)
        → Moves F (authorize_rollback env task p c comp risk)
    unfolding authorize_rollback
    Moves-authorize_rollback c comp risk =
        Moves-if F _ _ _
          (λ _.
            Moves-after F _ _ (Moves-decide F env _ p risk)
              (λ d h. after_jit-Moves c comp risk d h (may_undo env task p d) refl))
          (λ no. undoes c comp risk (λ yes. cc))

    pub Moves-after_task :
        (c : CompensationRow) (comp : Fields) (t : Option TaskRow)
        → Moves F (after_task env task p c comp t)
    unfolding after_task
    Moves-after_task c comp none = search moves_rules
    Moves-after_task c comp (some t) = search (step_rules, Moves-authorize_rollback, moves_rules)

    pub Moves-after_validation :
        (c : CompensationRow) (comp : Fields) (v : Bool × String)
        → Moves F (after_validation env task p c comp v)
    unfolding after_validation
    Moves-after_validation c comp (false, reason) = search moves_rules
    Moves-after_validation c comp (true, reason) =
        search (Moves-after_task, mild_rules, moves_rules)

    pub Moves-with_compensation :
        (c : CompensationRow) (v : Value) → Moves F (with_compensation env task p c v)
    unfolding with_compensation
    Moves-with_compensation c (dict comp) = Moves-after_validation c comp _
    Moves-with_compensation c _ = search moves_rules

    pub Moves-after_selection :
        (c : Option CompensationRow) → Moves F (after_selection env task p c)
    unfolding after_selection
    Moves-after_selection none = search moves_rules
    Moves-after_selection (some c) = Moves-with_compensation c c.compensation

    pub Moves-rollback : Moves F (rollback env task p)
    unfolding rollback
    Moves-rollback = search (Moves-after_selection, mild_rules, moves_rules)
