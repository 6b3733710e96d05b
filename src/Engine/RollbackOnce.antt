-- ===== src/Engine/RollbackOnce.antt =====
-- `rollback` and `_run` (app/agent.py) keep each execution key to one call with a side effect.
use aurelian_autonomous_ente.Prelude.{
  ℕ, String, ◌≡◌, refl, Bool, true, false, Text, inl, inr, Bool-cases, eqb,
}
use aurelian_autonomous_ente.Json.{Fields}
use aurelian_autonomous_ente.Auth.Roles.{Principal}
use aurelian_autonomous_ente.Tools.Specs.{is_tool}
use aurelian_autonomous_ente.World.Rows.{World, CompensationRow, Outcome}
use aurelian_autonomous_ente.World.Effects.{pure, attempt, ◌>>=◌}
use aurelian_autonomous_ente.Engine.Environment.{Env}
use aurelian_autonomous_ente.Engine.Run.{run}
use aurelian_autonomous_ente.Engine.Rollback.{
  comp_tool, comp_args, rollback_key, undo, try_undo, after_rollback_claim, claim_rollback,
  after_compensation_claim, claim_and_undo, rollback,
}
use aurelian_autonomous_ente.Engine.Frames.{Moves, moves_rules, Moves-bind, Moves-if, Moves-query}
use aurelian_autonomous_ente.Engine.Statements.{mild_rules}
use aurelian_autonomous_ente.Engine.RunMoves.{Moves-run, Moves-rollback, Moves-after_undo}
use aurelian_autonomous_ente.Engine.Once.{
  IsOnce, IsClaimed, once_frame, Post-bind, claim-Post, call_tool-IsOnce,
}
use aurelian_autonomous_ente.Engine.AtMostOnce.{Any, go_on-IsOnce, Moves-execute-IsOnce}

module _ (env : Env) (task : ℕ) (p : Principal) where
  undo-IsOnce :
      (key : String) (comp : Fields) (v : World)
      → IsOnce v
      → IsClaimed p.tenant_id key v
      → IsOnce (undo env task p key comp v).1
  unfolding undo
  undo-IsOnce key comp v h c = elim (Bool-cases (is_tool (comp_tool comp))) [
    | inl x ↦ rw x (call_tool-IsOnce env p.tenant_id key (comp_tool comp) (comp_args comp) v h c)
    | inr x ↦ rw x h
  ]

  try_undo-IsOnce :
      (c : CompensationRow) (comp : Fields) (v : World)
      → IsOnce v
      → IsClaimed p.tenant_id (rollback_key env task p c comp) v
      → IsOnce (try_undo env task p c comp v).1
  unfolding try_undo
  try_undo-IsOnce c comp v h x =
      go_on-IsOnce _ _ v (undo-IsOnce (rollback_key env task p c comp) comp v h x)
        (λ out. search (mild_rules, moves_rules))

  rollback_claim-IsOnce :
      (c : CompensationRow) (comp : Fields) (b : Bool) (v : World)
      → IsOnce v
      → (b ≡ true → IsClaimed p.tenant_id (rollback_key env task p c comp) v)
      → IsOnce (after_rollback_claim env task p c comp b v).1
  unfolding after_rollback_claim
  rollback_claim-IsOnce c comp true v h x =
      go_on-IsOnce (attempt (try_undo env task p c comp)) _ v (try_undo-IsOnce c comp v h (x refl))
        (Moves-after_undo once_frame env task p c comp)
  rollback_claim-IsOnce c comp false v h x =
      go_on-IsOnce _ _ v ((Moves-query once_frame env _ (search mild_rules)).at v h)
        (λ _. search moves_rules)

  claimed-IsOnce :
      (c : CompensationRow) (comp : Fields) (n : ℕ)
      → Moves once_frame (after_compensation_claim env task p c comp n)
  unfolding after_compensation_claim claim_rollback
  claimed-IsOnce c comp n =
      Moves-if once_frame (eqb n 0) (pure Outcome.conflict)
        (claim_rollback env task p c comp >>= after_rollback_claim env task p c comp)
        (λ _. search moves_rules)
        (λ _. record {
          at = λ w h.
              (Post-bind
                {Q = λ b v. b ≡ true → IsClaimed p.tenant_id (rollback_key env task p c comp) v} Any
                (after_rollback_claim env task p c comp) (claim_rollback env task p c comp) w
                (claim-Post env p.tenant_id task "rollback" (comp_tool comp)
                  (rollback_key env task p c comp) w h)
                (λ b v k x. (rollback_claim-IsOnce c comp b v k x, λ a e. tt))).0;
        })

  pub Moves-rollback-IsOnce : Moves once_frame (rollback env task p)
  unfolding claim_and_undo
  Moves-rollback-IsOnce = Moves-rollback once_frame env task p (λ c comp risk may.
      Moves-bind once_frame _ _ (search (mild_rules, moves_rules)) (claimed-IsOnce c comp))

  pub Moves-run-IsOnce : (request : Text) → Moves once_frame (run env task p request)
  Moves-run-IsOnce request =
      Moves-run once_frame env task p
        (λ plan risk d x r a. Moves-execute-IsOnce env task plan.tool plan.args p "none" risk)
        request
