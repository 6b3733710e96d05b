-- ===== src/Engine/Outage.antt =====
-- app/agent.py while the policy engine does not answer.
use aurelian_autonomous_ente.Prelude.{
  ℕ, String, ◌≡◌, ◌≢◌, refl, ◌∙◌, true, false, some, Text, inl, inr, Bool-cases, [], ◌∷◌, concat,
  ◌==◌,
}
use aurelian_autonomous_ente.Json.{Fields}
use aurelian_autonomous_ente.Result.{Exception, raised}
use aurelian_autonomous_ente.Auth.Roles.{Principal}
use aurelian_autonomous_ente.Policy.Decision.{PolicyDecision}
use aurelian_autonomous_ente.Policy.Evaluate.{OpaInput, approval_authorized}
use aurelian_autonomous_ente.Policy.Approval.{evaluate_fail_closed}
use aurelian_autonomous_ente.Tools.Specs.{is_tool}
use aurelian_autonomous_ente.World.Effects.{outside}
use aurelian_autonomous_ente.Engine.Environment.{Env, decide_production}
use aurelian_autonomous_ente.Engine.Execute.{
  Stage, stop, replay, fresh, jit_refusal, after_jit, authorize, authorize_if_fresh, perform,
  execute_approved,
}
use aurelian_autonomous_ente.Engine.Run.{run}
use aurelian_autonomous_ente.Engine.Rollback.{comp_tool, may_undo, undo, rollback}
use aurelian_autonomous_ente.Engine.Frames.{
  Frame, Moves, Returns, Returns-bind, moves_rules, Moves-after, Moves-bind,
}
use aurelian_autonomous_ente.Engine.Statements.{mild_rules}
use aurelian_autonomous_ente.Engine.Moves.{
  step_rules, Moves-after_lookup, Moves-authorize_if_fresh, Moves-conclude,
}
use aurelian_autonomous_ente.Engine.RunMoves.{Moves-claim_and_undo, Moves-run, Moves-rollback}

-- The policy engine is configured and fails on every query, at every time.
abbrev pub IsDown : Env → Type 0
IsDown env =
    (n : ℕ)
    → ((env.opa n).opa_url ≢ "")
      × (e : Exception) × ((input : OpaInput) → (env.opa n).query input ≡ raised e)

-- No tool is called.
abbrev pub calls_frame : Frame
calls_frame = record {
  relates = λ w v. v.calls ≡ w.calls;
  near = λ w v h. h.0;
  trans = λ u v w h k. k ∙ h;
}

module _ (env : Env) (down : IsDown env) (task : ℕ) (p : Principal) where
  decide-IsClosed :
      (action risk : String) (d : PolicyDecision) (reviewer : Principal)
      → Returns (decide_production env action p risk) d
      → (d.allowed ≡ false)
        × (d.requires_approval ≡ false)
        × ((approval_authorized d reviewer).0 ≡ false)
  unfolding decide_production outside
  decide-IsClosed action risk d reviewer (w, h) =
      let (url, e, fails) = down w.tick in
      evaluate_fail_closed (env.opa w.tick) env.policy action "production" risk p reviewer e d url
        fails h

  -- Such a decision refuses every execution.
  closed-refusal :
      (tier : String) (d : PolicyDecision)
      → d.allowed ≡ false
      → (approval_authorized d p).0 ≡ false
      → (reason : String) × (jit_refusal tier d p ≡ some reason)
  unfolding jit_refusal
  closed-refusal tier d a r = elim (Bool-cases (tier == "none")) [
    | inl h ↦ (concat ("JIT policy denied execution: " ∷ d.reason ∷ []), rw (h, jit_refusal) (rw a))
    | inr h ↦ (
      concat ("JIT approval authorization failed: " ∷ (approval_authorized d p).1 ∷ []),
      rw (h, jit_refusal) (rw r),
    )
  ]

  module _ (tool : String) (args : Fields) where
    after_jit-not_fresh :
        (reason : String) → Returns (after_jit env task tool args p (some reason)) fresh → ⊥
    unfolding after_jit
    after_jit-not_fresh reason h = let (_, _, (_, e)) = Returns-bind _ _ fresh h in cc

    authorize-not_fresh :
        (tier risk : String) → Returns (authorize env task tool args p tier risk) fresh → ⊥
    unfolding authorize
    authorize-not_fresh tier risk h =
        let (d, x, h) = Returns-bind _ _ fresh h in
        let (_, _, h) = Returns-bind _ _ fresh h in
        let (_, _, h) = Returns-bind _ _ fresh h in
        let (a, _, r) = decide-IsClosed tool risk d p x in
        let (reason, e) = closed-refusal tier d a r in after_jit-not_fresh reason (rw e at h)

    stage-not_fresh :
        (tier risk : String) (s : Stage)
        → Returns (authorize_if_fresh env task tool args p tier risk s) fresh
        → ⊥
    unfolding authorize_if_fresh
    stage-not_fresh tier risk fresh h = authorize-not_fresh tier risk h
    stage-not_fresh tier risk (stop r) (w, h) = cc
    stage-not_fresh tier risk (replay o) (w, h) = cc

    perform-calls : (s : Stage) → s ≢ fresh → Moves calls_frame (perform env task tool args p s)
    unfolding perform
    perform-calls (stop r) h = search moves_rules
    perform-calls (replay o) h = search (step_rules, Moves-conclude, moves_rules)
    perform-calls fresh h = elim (h refl) [ ]

    pub execute_approved-calls :
        (tier risk : String) → Moves calls_frame (execute_approved env task tool args p tier risk)
    unfolding execute_approved
    execute_approved-calls tier risk =
        Moves-bind calls_frame _ _ (search (mild_rules, moves_rules)) (λ e.
          Moves-bind calls_frame _ _ (Moves-after_lookup calls_frame env task tool args p e) (λ s.
            Moves-after calls_frame _ _
              (Moves-authorize_if_fresh calls_frame env task tool args p tier risk s)
              (λ t r. perform-calls t (λ e. stage-not_fresh tier risk s (rw e at r)))))

  may_undo-closed :
      (action risk : String) (d : PolicyDecision)
      → Returns (decide_production env action p risk) d
      → (may_undo env task p d).0 ≡ true
      → ⊥
  may_undo-closed action risk d x e =
      let (a, r, _) = decide-IsClosed action risk d p x in cc (rw r at e)

  undo-calls :
      (key : String) (comp : Fields)
      → is_tool (comp_tool comp) ≡ false
      → Moves calls_frame (undo env task p key comp)
  unfolding undo
  undo-calls key comp h = rw h (search moves_rules)

  pub rollback-calls : Moves calls_frame (rollback env task p)
  rollback-calls = Moves-rollback calls_frame env task p (λ c comp risk may.
      elim (Bool-cases (is_tool (comp_tool comp))) [
        | inl h ↦ let (d, x, e) = may h in elim (may_undo-closed (comp_tool comp) risk d x e) [ ]
        | inr h ↦ Moves-claim_and_undo calls_frame env task p comp (λ key. undo-calls key comp h) c
      ])

  pub run-calls : (request : Text) → Moves calls_frame (run env task p request)
  run-calls request =
      Moves-run calls_frame env task p
        (λ plan risk d x r a. execute_approved-calls plan.tool plan.args "none" risk) request
