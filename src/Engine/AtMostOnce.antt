-- ===== src/Engine/AtMostOnce.antt =====
-- The engine of app/agent.py keeps each execution key to one call with a side effect.
use aurelian_autonomous_ente.Prelude.{
  ℕ, String, ◌≡◌, refl, ap, ◌∙◌, Bool, true, false, Option, none, some, inl, inr, Bool-cases,
}
use aurelian_autonomous_ente.Json.{Fields}
use aurelian_autonomous_ente.Result.{ok}
use aurelian_autonomous_ente.Auth.Roles.{Principal}
use aurelian_autonomous_ente.Tools.Specs.{has_side_effect}
use aurelian_autonomous_ente.World.Rows.{World, WorkflowState, ExecutionRow}
use aurelian_autonomous_ente.World.Effects.{Effect, pure, attempt, ◌>>=◌}
use aurelian_autonomous_ente.Engine.Environment.{Env}
use aurelian_autonomous_ente.Engine.Execute.{
  Stage, stop, replay, fresh, exec_key, stop_for_recovery, look_at_existing, after_lost_claim,
  replayable, claim, after_claim, after_jit, authorize, authorize_if_fresh, one_attempt, attempts,
  max_attempts, perform, execute_approved, jit_refusal,
}
use aurelian_autonomous_ente.Engine.Frames.{
  Moves, Returns, Returns-bind, moves_rules, Moves-bind, Moves-result, Moves-option,
}
use aurelian_autonomous_ente.Engine.Statements.{mild_rules}
use aurelian_autonomous_ente.Engine.Moves.{
  Moves-after_lookup, Moves-decide, Moves-checkpoint, Moves-audit, Moves-after_exception,
  Moves-after_attempts, Moves-conclude, Moves-after_claim, Moves-after_jit, Moves-execute_approved,
}
use aurelian_autonomous_ente.Engine.Once.{
  IsOnce, IsClaimed, once_frame, Post, Post-bind, claim-Post, call_tool-IsOnce, Moves-read_call,
}

-- What is known of no world, beside `IsOnce`.
abbrev pub Any : {A : Type 0} → A → World → Type 0
Any a v = Unit {0}

module _ {A B : Type 0} (m : Effect A) (f : A → Effect B) (w : World) where
  pub Post-then :
      (R : B → World → Type 0)
      → Moves once_frame m
      → IsOnce w
      → ((a : A) (u : World) → IsOnce u → Post R (f a u))
      → Post R ((m >>= f) w)
  Post-then R h o k = Post-bind {Q = Any} R f m w (h.at w o, λ a e. tt) (λ a u x _. k a u x)

  -- A sequence keeps `IsOnce` when its first part does from here, and its rest from anywhere.
  pub go_on-IsOnce : IsOnce (m w).1 → ((a : A) → Moves once_frame (f a)) → IsOnce ((m >>= f) w).1
  go_on-IsOnce h k =
      (Post-bind {Q = Any} Any f m w (h, λ a e. tt) (λ a u x _. ((k a).at u x, λ b e. tt))).0

module _ (env : Env) (task : ℕ) (tool : String) (args : Fields) (p : Principal) where
  abbrev Ready : Stage → World → Type 0
  Ready stage v = stage ≡ fresh → IsClaimed p.tenant_id (exec_key env task tool args p) v

  stop-not_fresh : Returns (stop_for_recovery env task tool args p) fresh → ⊥
  unfolding stop_for_recovery
  stop-not_fresh h = let (_, _, (_, e)) = Returns-bind _ _ fresh h in cc

  look_at-not_fresh :
      (o : Option Fields)
      → Returns
          (elim o [
            | some output ↦ pure (replay output)
            | none ↦ stop_for_recovery env task tool args p
          ])
          fresh
      → ⊥
  look_at-not_fresh none h = stop-not_fresh h
  look_at-not_fresh (some output) (w, e) = cc

  lost_claim-not_fresh :
      (o : Option ExecutionRow) → Returns (after_lost_claim env task tool args p o) fresh → ⊥
  unfolding after_lost_claim look_at_existing
  lost_claim-not_fresh none h = stop-not_fresh h
  lost_claim-not_fresh (some e) h = look_at-not_fresh (replayable e) h

  not_claimed-not_fresh : Returns (after_claim env task tool args p false) fresh → ⊥
  unfolding after_claim
  not_claimed-not_fresh h = let (o, _, r) = Returns-bind _ _ fresh h in lost_claim-not_fresh o r

  after_claim-Ready :
      (b : Bool) (v : World)
      → IsOnce v
      → (b ≡ true → IsClaimed p.tenant_id (exec_key env task tool args p) v)
      → Post Ready (after_claim env task tool args p b v)
  after_claim-Ready true v h c = unfold after_claim in (h, λ s e x. c refl)
  after_claim-Ready false v h c = (
    (Moves-after_claim once_frame env task tool args p false).at v h,
    λ s e x. elim (not_claimed-not_fresh (v, e ∙ ap ok x)) [ ],
  )

  after_jit-Ready :
      (o : Option String) (v : World) → IsOnce v → Post Ready (after_jit env task tool args p o v)
  unfolding after_jit claim
  after_jit-Ready none v h =
      Post-bind Ready (after_claim env task tool args p) (claim env task tool args p) v
        (claim-Post env p.tenant_id task "primary" tool (exec_key env task tool args p) v h)
        after_claim-Ready
  after_jit-Ready (some reason) v h = (
    (Moves-after_jit once_frame env task tool args p (some reason)).at v h,
    λ s e x. let (_, _, (_, y)) = Returns-bind _ _ fresh (v, e ∙ ap ok x) in cc,
  )

  authorize-Ready :
      (tier risk : String) (w : World)
      → IsOnce w
      → Post Ready (authorize env task tool args p tier risk w)
  unfolding authorize
  authorize-Ready tier risk w h =
      Post-then _ _ w Ready (Moves-decide once_frame env tool p risk) h (λ jit u k.
        Post-then _ _ u Ready (Moves-checkpoint once_frame env _ _ _ _) k (λ _ u k.
          Post-then _ _ u Ready (Moves-audit once_frame env _ _ _ _) k
            (λ _ u k. after_jit-Ready (jit_refusal tier jit p) u k)))

  stage-Ready :
      (tier risk : String) (s : Stage) (w : World)
      → IsOnce w
      → Post Ready (authorize_if_fresh env task tool args p tier risk s w)
  unfolding authorize_if_fresh
  stage-Ready tier risk fresh w h = authorize-Ready tier risk w h
  stage-Ready tier risk (stop r) w h = (h, λ s e x. cc)
  stage-Ready tier risk (replay o) w h = (h, λ s e x. cc)

  one_attempt-IsOnce :
      (v : World)
      → IsOnce v
      → IsClaimed p.tenant_id (exec_key env task tool args p) v
      → IsOnce (one_attempt env task tool args p v).1
  unfolding one_attempt
  one_attempt-IsOnce v h c =
      go_on-IsOnce _ _ v
        (call_tool-IsOnce env p.tenant_id (exec_key env task tool args p) tool args v h c)
        (λ o. search (mild_rules, moves_rules))

  -- A tool with a side effect has one attempt.
  only_attempt-IsOnce :
      (v : World)
      → IsOnce v
      → IsClaimed p.tenant_id (exec_key env task tool args p) v
      → IsOnce (attempts env task tool args p 1 1 "NoneType" v).1
  unfolding attempts
  only_attempt-IsOnce v h c =
      go_on-IsOnce (attempt (one_attempt env task tool args p)) _ v (one_attempt-IsOnce v h c) (λ r.
        Moves-result once_frame r _ _ (λ o. search moves_rules)
          (λ e.
            Moves-bind once_frame _ _ (Moves-after_exception once_frame env task tool args p 0 e)
              (λ g.
                Moves-option once_frame g _ _ (λ result. search moves_rules)
                  (Moves-bind once_frame _ _
                    (Moves-checkpoint once_frame env p.tenant_id task WorkflowState.execute_retry 1)
                    (λ _. search moves_rules)))))

  perform-IsOnce :
      (s : Stage) (v : World)
      → has_side_effect tool ≡ true
      → IsOnce v
      → Ready s v
      → IsOnce (perform env task tool args p s v).1
  unfolding perform max_attempts
  perform-IsOnce (stop r) v x h c = h
  perform-IsOnce (replay o) v x h c =
      go_on-IsOnce _ _ v ((Moves-audit once_frame env _ _ _ _).at v h)
        (λ _. Moves-conclude once_frame env task tool args p o 0)
  perform-IsOnce fresh v x h c = rw x (
      go_on-IsOnce _ _ v (only_attempt-IsOnce v h (c refl))
        (Moves-after_attempts once_frame env task tool args p))

  effect-IsOnce :
      (tier risk : String) (w : World)
      → has_side_effect tool ≡ true
      → IsOnce w
      → IsOnce (execute_approved env task tool args p tier risk w).1
  unfolding execute_approved
  effect-IsOnce tier risk w x h =
      (Post-then _ _ w Any (search (mild_rules, moves_rules)) h (λ e u h.
        Post-then _ _ u Any (Moves-after_lookup once_frame env task tool args p e) h (λ s u h.
          Post-bind {Q = Ready} Any _ _ u (stage-Ready tier risk s u h)
            (λ t v h c. (perform-IsOnce t v x h c, λ a e. tt))))).0

  pub Moves-execute-IsOnce :
      (tier risk : String) → Moves once_frame (execute_approved env task tool args p tier risk)
  Moves-execute-IsOnce tier risk = elim (Bool-cases (has_side_effect tool)) [
    | inl x ↦ record { at = λ w h. effect-IsOnce tier risk w x h }
    | inr x ↦
        Moves-execute_approved once_frame env task tool args p
          (λ key. Moves-read_call env p.tenant_id key tool args x) tier risk
  ]
