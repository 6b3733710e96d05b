-- ===== src/Engine/Statements.antt =====
-- What the SQL statements of app/agent.py leave alone: the calls made, and the execution rows.
use aurelian_autonomous_ente.Prelude.{
  ℕ, String, ◌≡◌, refl, Bool, true, ◌&&◌, List, [], ◌∷◌, ◌++◌, Option, some, Text, any, find,
  update_where, Bool-cases, Option-cases, inl, inr, arith,
}
use aurelian_autonomous_ente.Json.{Value, Fields}
use aurelian_autonomous_ente.World.Rows.{
  World, TaskStatus, WorkflowState, Outcome, ApprovalStatus, ExecutionStatus, CompensationStatus,
}
use aurelian_autonomous_ente.World.Statements.Tasks.{
  select_task, select_task_by_key, insert_task, insert_task_once, insert_checkpoint,
  update_workflow_state, finish_task, set_task_status, insert_audit, has_task_key,
}
use aurelian_autonomous_ente.World.Statements.Approvals.{
  is_approval, pending_here, select_approval, insert_approval, claim_approval, deny_approval,
  set_approval_status,
}
use aurelian_autonomous_ente.World.Statements.Executions.{
  has_key, is_executing, select_execution, claim_execution, complete_execution, complete_rollback,
  end_execution,
}
use aurelian_autonomous_ente.World.Statements.Compensations.{
  select_compensation, has_compensation, insert_compensation, move_compensation,
}
use aurelian_autonomous_ente.Engine.Decided.{decided-append, decided-update, IsFinal, not_pending}
use aurelian_autonomous_ente.Engine.Frames.{IsMild, Near}

-- Statements on other tables.
pub IsMild-select_task : (t : String) (id : ℕ) → IsMild (select_task t id)
IsMild-select_task t id = record { at = λ w. (refl, (λ _ _ h. h), λ _ _ h. h) }

pub IsMild-select_task_by_key : (t a k : String) → IsMild (select_task_by_key t a k)
IsMild-select_task_by_key t a k = record { at = λ w. (refl, (λ _ _ h. h), λ _ _ h. h) }

pub IsMild-insert_task :
    (t : String) (r : Text) (a role : String) (k : Option String) (now : ℕ)
    → IsMild (insert_task t r a role k now)
unfolding insert_task
IsMild-insert_task t r a role k now = record { at = λ w. (refl, (λ _ _ h. h), λ _ _ h. h) }

insert_task_once-Near :
    (t : String) (r : Text) (a role k : String) (now : ℕ) (w : World)
    → Near w (insert_task_once t r a role k now w).1
unfolding insert_task_once
insert_task_once-Near t r a role k now w = elim (Option-cases (find (has_task_key t a k) w.tasks)) [
  | inl h ↦ rw (h, insert_task_once) (refl, (λ _ _ x. x), λ _ _ x. x)
  | inr (_, h) ↦ rw (h, insert_task_once) (refl, (λ _ _ x. x), λ _ _ x. x)
]

pub IsMild-insert_task_once :
    (t : String) (r : Text) (a role k : String) (now : ℕ)
    → IsMild (insert_task_once t r a role k now)
IsMild-insert_task_once t r a role k now = record { at = insert_task_once-Near t r a role k now }

pub IsMild-insert_checkpoint :
    (t : String) (id : ℕ) (node : WorkflowState) (n : ℕ) → IsMild (insert_checkpoint t id node n)
unfolding insert_checkpoint
IsMild-insert_checkpoint t id node n = record { at = λ w. (refl, (λ _ _ h. h), λ _ _ h. h) }

pub IsMild-update_workflow_state :
    (t : String) (id : ℕ) (node : WorkflowState) (now : ℕ)
    → IsMild (update_workflow_state t id node now)
unfolding update_workflow_state
IsMild-update_workflow_state t id node now = record { at = λ w. (refl, (λ _ _ h. h), λ _ _ h. h) }

pub IsMild-finish_task :
    (t : String) (id : ℕ) (s : TaskStatus) (r : Outcome) (node : WorkflowState) (now : ℕ)
    → IsMild (finish_task t id s r node now)
unfolding finish_task
IsMild-finish_task t id s r node now = record { at = λ w. (refl, (λ _ _ h. h), λ _ _ h. h) }

pub IsMild-set_task_status :
    (t : String) (id : ℕ) (s : TaskStatus) (node : WorkflowState) (now : ℕ)
    → IsMild (set_task_status t id s node now)
unfolding set_task_status
IsMild-set_task_status t id s node now = record { at = λ w. (refl, (λ _ _ h. h), λ _ _ h. h) }

pub IsMild-insert_audit : (t a e : String) (id : ℕ) → IsMild (insert_audit t a e id)
unfolding insert_audit
IsMild-insert_audit t a e id = record { at = λ w. (refl, (λ _ _ h. h), λ _ _ h. h) }

pub IsMild-select_approval : (t : String) (id : ℕ) → IsMild (select_approval t id)
IsMild-select_approval t id = record { at = λ w. (refl, (λ _ _ h. h), λ _ _ h. h) }

pub IsMild-insert_approval :
    (t : String) (id : ℕ) (tool : String) (args : Fields) (a role tier reason : String)
    → IsMild (insert_approval t id tool args a role tier reason)
unfolding insert_approval
IsMild-insert_approval t id tool args a role tier reason = record {
  at = λ w. (refl, (λ _ _ h. h), λ t' i h. decided-append (is_approval t' i) w.approvals _ h);
}

pub IsMild-claim_approval :
    (t : String) (id : ℕ) (r : String) (now : ℕ) → IsMild (claim_approval t id r now)
unfolding claim_approval
IsMild-claim_approval t id r now = record {
  at = λ w. (
    refl,
    (λ _ _ h. h),
    λ t' i h.
        decided-update (is_approval t' i) (pending_here t id)
          (λ a. record a {
            status = ApprovalStatus.executing;
            reviewed_by = some r;
            started_at = some now;
          })
          w.approvals (λ _. refl) (λ _. refl) h,
  );
}

pub IsMild-deny_approval : (t : String) (id : ℕ) (r : String) → IsMild (deny_approval t id r)
unfolding deny_approval
IsMild-deny_approval t id r = record {
  at = λ w. (
    refl,
    (λ _ _ h. h),
    λ t' i h.
        decided-update (is_approval t' i) (pending_here t id)
          (λ a. record a { status = ApprovalStatus.denied; reviewed_by = some r }) w.approvals
          (λ _. refl) (λ _. refl) h,
  );
}

pub IsMild-set_approval_status :
    (t : String) (id : ℕ) (s : ApprovalStatus) → IsFinal s → IsMild (set_approval_status t id s)
unfolding set_approval_status
IsMild-set_approval_status t id s f = record {
  at = λ w. (
    refl,
    (λ _ _ h. h),
    λ t' i h.
        decided-update (is_approval t' i) (is_approval t id) (λ a. record a { status = s })
          w.approvals (λ _. refl) (λ a. not_pending a s f) h,
  );
}

pub IsMild-select_compensation : (t : String) (id : ℕ) → IsMild (select_compensation t id)
IsMild-select_compensation t id = record { at = λ w. (refl, (λ _ _ h. h), λ _ _ h. h) }

pub IsMild-has_compensation : (t : String) (id : ℕ) (k : String) → IsMild (has_compensation t id k)
IsMild-has_compensation t id k = record { at = λ w. (refl, (λ _ _ h. h), λ _ _ h. h) }

pub IsMild-insert_compensation :
    (t : String) (id : ℕ) (tool : String) (v : Value) (k : String) (now : ℕ)
    → IsMild (insert_compensation t id tool v k now)
unfolding insert_compensation
IsMild-insert_compensation t id tool v k now = record { at = λ w. (refl, (λ _ _ h. h), λ _ _ h. h) }

pub IsMild-move_compensation :
    (t : String) (id : ℕ) (from to : CompensationStatus) → IsMild (move_compensation t id from to)
unfolding move_compensation
IsMild-move_compensation t id from to = record { at = λ w. (refl, (λ _ _ h. h), λ _ _ h. h) }

-- Statements on `tool_executions`.
any-append_keeps :
    {A : Type 0} (p : A → Bool) (xs ys : List A) → any p xs ≡ true → any p (xs ++ ys) ≡ true
any-append_keeps p [] ys h = ground arith
any-append_keeps p (x ∷ xs) ys h = ground (arith, any-append_keeps p xs ys)

pub any-update_where :
    {A : Type 0} (p q : A → Bool) (g : A → A) (xs : List A)
    → ((x : A) → p (g x) ≡ p x)
    → any p xs ≡ true
    → any p (update_where q g xs) ≡ true
any-update_where p q g [] k h = h
any-update_where p q g (x ∷ xs) k h = ground (arith, any-update_where p q g xs k, k x)

pub IsMild-select_execution : (t k : String) → IsMild (select_execution t k)
IsMild-select_execution t k = record { at = λ w. (refl, (λ _ _ h. h), λ _ _ h. h) }

claim_execution-Near :
    (t : String) (id : ℕ) (phase tool k : String) (now : ℕ) (w : World)
    → Near w (claim_execution t id phase tool k now w).1
unfolding claim_execution
claim_execution-Near t id phase tool k now w = elim (Bool-cases (any (has_key t k) w.executions)) [
  | inl h ↦ rw h (refl, (λ _ _ x. x), λ _ _ x. x)
  | inr h ↦ rw h (refl, (λ t' k' x. any-append_keeps (has_key t' k') w.executions _ x), λ _ _ x. x)
]

pub IsMild-claim_execution :
    (t : String) (id : ℕ) (phase tool k : String) (now : ℕ)
    → IsMild (claim_execution t id phase tool k now)
IsMild-claim_execution t id phase tool k now = record {
  at = claim_execution-Near t id phase tool k now;
}

pub IsMild-complete_execution : (t k : String) (o : Fields) → IsMild (complete_execution t k o)
unfolding complete_execution
IsMild-complete_execution t k o = record {
  at = λ w. (
    refl,
    (λ t' k' h.
        any-update_where (has_key t' k') (λ e. has_key t k e && is_executing e)
          (λ e. record e { status = ExecutionStatus.completed; output = some o }) w.executions
          (λ _. refl) h),
    λ _ _ x. x,
  );
}

pub IsMild-complete_rollback : (t k : String) (o : Fields) → IsMild (complete_rollback t k o)
unfolding complete_rollback
IsMild-complete_rollback t k o = record {
  at = λ w. (
    refl,
    (λ t' k' h.
        any-update_where (has_key t' k') (has_key t k)
          (λ e. record e { status = ExecutionStatus.completed; output = some o }) w.executions
          (λ _. refl) h),
    λ _ _ x. x,
  );
}

pub IsMild-end_execution :
    (t k : String) (s : ExecutionStatus) (e : String) → IsMild (end_execution t k s e)
unfolding end_execution
IsMild-end_execution t k s e = record {
  at = λ w. (
    refl,
    (λ t' k' h.
        any-update_where (has_key t' k') (λ x. has_key t k x && is_executing x)
          (λ x. record x { status = s; error_type = some e }) w.executions (λ _. refl) h),
    λ _ _ x. x,
  );
}

pub ruleset mild_rules = (
  IsMild-select_task, IsMild-select_task_by_key, IsMild-insert_task, IsMild-insert_task_once,
  IsMild-insert_checkpoint, IsMild-update_workflow_state, IsMild-finish_task,
  IsMild-set_task_status, IsMild-insert_audit, IsMild-select_approval, IsMild-insert_approval,
  IsMild-claim_approval, IsMild-deny_approval, IsMild-set_approval_status,
  IsMild-select_compensation, IsMild-has_compensation, IsMild-insert_compensation,
  IsMild-move_compensation, IsMild-select_execution, IsMild-claim_execution,
  IsMild-complete_execution, IsMild-complete_rollback, IsMild-end_execution,
)
