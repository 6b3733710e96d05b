-- ===== src/Api/Moves.antt =====
-- How the handlers of app/main.py change the world, by what the engine does.
use aurelian_autonomous_ente.Prelude.{
  ℕ, String, ◌≡◌, refl, not, ◌||◌, ◌==◌, Bool, true, false, Option, none, some, Text,
}
use aurelian_autonomous_ente.Result.{Result, ok, raised}
use aurelian_autonomous_ente.Auth.Roles.{Principal}
use aurelian_autonomous_ente.Policy.Decision.{PolicyDecision}
use aurelian_autonomous_ente.Policy.Evaluate.{approval_authorized}
use aurelian_autonomous_ente.World.Rows.{World, TaskRow, Outcome, ApprovalRow, ApprovalStatus}
use aurelian_autonomous_ente.Engine.Environment.{Env, query}
use aurelian_autonomous_ente.Engine.Execute.{execute_approved}
use aurelian_autonomous_ente.Engine.Run.{run}
use aurelian_autonomous_ente.Engine.Rollback.{rollback}
use aurelian_autonomous_ente.Engine.Frames.{
  Frame, Moves, moves_rules, Moves-query, Moves-bind, Moves-attempt, Moves-if, Moves-option,
}
use aurelian_autonomous_ente.Engine.Statements.{mild_rules, IsMild-set_approval_status}
use aurelian_autonomous_ente.World.Statements.Approvals.{set_approval_status}
use aurelian_autonomous_ente.Engine.Decided.{IsFinal}
use aurelian_autonomous_ente.Engine.Moves.{step_rules, Moves-audit}
use aurelian_autonomous_ente.Api.Tasks.{
  start, answer_existing, after_insert, create_keyed, create_task, used_key, rollback_task,
}
use aurelian_autonomous_ente.Api.Approvals.{
  final_status, settle, execute_claimed, after_approval_claim, claim_and_execute, after_review,
  review, review_pending, approve, after_denial, deny_found, deny,
}
use aurelian_autonomous_ente.Api.RecoveryMoves.{Moves-reconcile}
use aurelian_autonomous_ente.Api.Requests.{
  Request, create, approving, denying, rolling_back, recovering, serve,
}

final_status-IsFinal : (r : Outcome) → IsFinal (final_status r)
final_status-IsFinal (Outcome.completed _ _ _ _) = tt
final_status-IsFinal (Outcome.recovery_required _ _) = tt
final_status-IsFinal _ = tt

-- Who may roll a task back.
abbrev pub MayRollBack : Principal → Type 0
MayRollBack p = (not (p.role == "executive") || not p.mfa) ≡ false

module _ (F : Frame) (env : Env) (p : Principal) where
  module _ (request : Text) (runs : (id : ℕ) → Moves F (run env id p request)) where
    Moves-start : (id : ℕ) → Moves F (start env p request id)
    unfolding start
    Moves-start id = search (step_rules, runs, moves_rules)

    Moves-answer_existing : (o : Option TaskRow) → Moves F (answer_existing env p request o)
    unfolding answer_existing
    Moves-answer_existing none = search moves_rules
    Moves-answer_existing (some t) =
        Moves-option F t.result _ _ (λ r. search moves_rules) (search moves_rules)

    Moves-after_insert : (key : String) (o : Option ℕ) → Moves F (after_insert env p request key o)
    unfolding after_insert
    Moves-after_insert key none = search (Moves-answer_existing, mild_rules, moves_rules)
    Moves-after_insert key (some id) = Moves-start id

    Moves-create_keyed : (key : Option String) → Moves F (create_keyed env p request key)
    unfolding create_keyed
    Moves-create_keyed none = search (Moves-start, mild_rules, moves_rules)
    Moves-create_keyed (some key) = search (Moves-after_insert, mild_rules, moves_rules)

    pub Moves-create_task : (key : Option String) → Moves F (create_task env p request key)
    unfolding create_task
    Moves-create_task key = Moves-create_keyed (used_key key)

  pub Moves-rollback_task :
      (task : ℕ)
      → (MayRollBack p → Moves F (rollback env task p))
      → Moves F (rollback_task env task p)
  unfolding rollback_task
  Moves-rollback_task task h = Moves-if F _ _ _ (λ _. search moves_rules) h

  Moves-after_denial : (a : ApprovalRow) (n : ℕ) → Moves F (after_denial env p a n)
  unfolding after_denial
  Moves-after_denial a n = search (step_rules, mild_rules, moves_rules)

  Moves-deny_found : (a : Option ApprovalRow) → Moves F (deny_found env p a)
  unfolding deny_found
  Moves-deny_found none = search moves_rules
  Moves-deny_found (some a) = search (Moves-after_denial, mild_rules, moves_rules)

  pub Moves-deny : (id : ℕ) → Moves F (deny env p id)
  unfolding deny
  Moves-deny id = search (Moves-deny_found, mild_rules, moves_rules)

  settled-Moves :
      (t : String) (id : ℕ) (s : ApprovalStatus)
      → IsFinal s
      → Moves F (query env (set_approval_status t id s))
  settled-Moves t id s f = Moves-query F env _ (IsMild-set_approval_status t id s f)

  Moves-settle : (a : ApprovalRow) (r : Result Outcome) → Moves F (settle env p a r)
  unfolding settle
  Moves-settle a (ok result) =
      Moves-bind F _ _ (settled-Moves p.tenant_id a.id _ (final_status-IsFinal result))
        (λ _. search (step_rules, moves_rules))
  Moves-settle a (raised e) =
      Moves-bind F _ _ (settled-Moves p.tenant_id a.id ApprovalStatus.execution_failed tt)
        (λ _. search (step_rules, moves_rules))

  after_approval_claim-Moves :
      (a : ApprovalRow) (d : PolicyDecision) (risk : String)
      → Moves F (execute_claimed env p a d risk)
      → (n : ℕ) → Moves F (after_approval_claim env p a d risk n)
  unfolding after_approval_claim
  after_approval_claim-Moves a d risk h n = search (h, moves_rules)

  after_tier-Moves :
      (a : ApprovalRow) (d : PolicyDecision) (risk reason : String)
      → Moves F (claim_and_execute env p a d risk)
      → Moves F (after_review env p a d risk (true, reason))
  unfolding after_review
  after_tier-Moves a d risk reason h = search (h, moves_rules)

  module _
      (executes : (a : ApprovalRow) (d : PolicyDecision) (risk : String)
        → (approval_authorized d p).0 ≡ true
        → Moves F (execute_approved env a.task_id a.tool_name a.args p d.approval_tier risk)) where
    pub Moves-execute_claimed :
        (a : ApprovalRow) (d : PolicyDecision) (risk : String)
        → (approval_authorized d p).0 ≡ true
        → Moves F (execute_claimed env p a d risk)
    unfolding execute_claimed
    Moves-execute_claimed a d risk h =
        Moves-bind F _ _ (Moves-audit F env _ _ _ _)
          (λ _. Moves-bind F _ _ (Moves-attempt F _ (executes a d risk h)) (λ r. Moves-settle a r))

    Moves-claim_and_execute :
        (a : ApprovalRow) (d : PolicyDecision) (risk : String)
        → (approval_authorized d p).0 ≡ true
        → Moves F (claim_and_execute env p a d risk)
    unfolding claim_and_execute
    Moves-claim_and_execute a d risk h =
        Moves-bind F _ _ (search (mild_rules, moves_rules))
          (after_approval_claim-Moves a d risk (Moves-execute_claimed a d risk h))

    Moves-after_review :
        (a : ApprovalRow) (d : PolicyDecision) (risk : String) (v : Bool × String)
        → (approval_authorized d p).0 ≡ v.0
        → Moves F (after_review env p a d risk v)
    unfolding after_review
    Moves-after_review a d risk (false, reason) h = search moves_rules
    Moves-after_review a d risk (true, reason) h =
        after_tier-Moves a d risk reason (Moves-claim_and_execute a d risk h)

    reviewed-Moves :
        (a : ApprovalRow) (d : PolicyDecision) (risk : String)
        → Moves F (after_review env p a d risk (approval_authorized d p))
    reviewed-Moves a d risk = Moves-after_review a d risk (approval_authorized d p) refl

    Moves-review : (a : ApprovalRow) (t : Option TaskRow) → Moves F (review env p a t)
    unfolding review
    Moves-review a none = search moves_rules
    Moves-review a (some t) = search (step_rules, reviewed-Moves, moves_rules)

    Moves-review_pending : (a : Option ApprovalRow) → Moves F (review_pending env p a)
    unfolding review_pending
    Moves-review_pending none = search moves_rules
    Moves-review_pending (some a) = search (Moves-review, mild_rules, moves_rules)

    pub Moves-approve : (id : ℕ) → Moves F (approve env p id)
    unfolding approve
    Moves-approve id = search (Moves-review_pending, mild_rules, moves_rules)

    -- A request, by what the engine does for it.
    pub serve-relates :
        ((id : ℕ) (request : Text) → Moves F (run env id p request))
        → ((task : ℕ) → MayRollBack p → Moves F (rollback env task p))
        → (r : Request) (w : World) → F.relates w (serve env p r w)
    unfolding serve
    serve-relates runs rolls (create request key) w =
        (Moves-create_task request (λ id. runs id request) key).at w
    serve-relates runs rolls (approving id) w = (Moves-approve id).at w
    serve-relates runs rolls (denying id) w = (Moves-deny id).at w
    serve-relates runs rolls (rolling_back task) w = (Moves-rollback_task task (rolls task)).at w
    serve-relates runs rolls (recovering scan) w = (Moves-reconcile F env scan).at w
