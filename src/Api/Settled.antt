-- ===== src/Api/Settled.antt =====
-- What a recovery scan is to reach, and the steps that undo none of it.
use aurelian_autonomous_ente.Prelude.{ℕ, String, ◌≡◌, Bool, false, update_where}
use aurelian_autonomous_ente.World.Rows.{World, TaskRow, ApprovalRow, ExecutionRow, CompensationRow}
use aurelian_autonomous_ente.Api.Stale.{
  is_stale_approval, is_stale_execution, is_stale_compensation, is_orphan, Settled, Settled-update,
}

module _ (cutoff : ℕ) where
  abbrev pub ApprovalsSettled : String → World → Type 0
  ApprovalsSettled t w = Settled (is_stale_approval cutoff t) (λ a. a.id) w.approvals

  abbrev pub ExecutionsSettled : String → World → Type 0
  ExecutionsSettled t w = Settled (is_stale_execution cutoff t) (λ e. e.id) w.executions

  abbrev pub CompensationsSettled : String → World → Type 0
  CompensationsSettled t w = Settled (is_stale_compensation cutoff t) (λ c. c.id) w.compensations

  abbrev pub TasksSettled : String → World → Type 0
  TasksSettled t w = Settled (is_orphan cutoff t) (λ r. r.id) w.tasks

  -- Nothing of the tenant is stale: no approval, execution or compensation is being executed since
  -- before the cutoff, and no task is running, just created, since before it.
  abbrev pub IsSettled : String → World → Type 0
  IsSettled t w =
      ApprovalsSettled t w × ExecutionsSettled t w × CompensationsSettled t w × TasksSettled t w

  -- What is settled stays so.
  pub record Settles (w after : World) : Type 0 where
    pub approvals : (t : String) → ApprovalsSettled t w → ApprovalsSettled t after
    pub executions : (t : String) → ExecutionsSettled t w → ExecutionsSettled t after
    pub compensations : (t : String) → CompensationsSettled t w → CompensationsSettled t after
    pub tasks : (t : String) → TasksSettled t w → TasksSettled t after

  pub Settles-refl : (w : World) → Settles w w
  Settles-refl w = record {
    approvals = λ t h. h;
    executions = λ t h. h;
    compensations = λ t h. h;
    tasks = λ t h. h;
  }

  pub Settles-trans : (u v w : World) → Settles u v → Settles v w → Settles u w
  Settles-trans u v w f g = record {
    approvals = λ t h. g.approvals t (f.approvals t h);
    executions = λ t h. g.executions t (f.executions t h);
    compensations = λ t h. g.compensations t (f.compensations t h);
    tasks = λ t h. g.tasks t (f.tasks t h);
  }

  -- A step that changes one table only, by marking rows that are not stale then.
  pub settles_approvals :
      (hit : ApprovalRow → Bool) (mark : ApprovalRow → ApprovalRow) (w : World) (n : ℕ)
      → ((t : String) (a : ApprovalRow) → is_stale_approval cutoff t (mark a) ≡ false)
      → Settles w (record w { approvals = update_where hit mark w.approvals; tick = n })
  settles_approvals hit mark w n cleared = record {
    approvals = λ t.
        Settled-update (is_stale_approval cutoff t) (λ a. a.id) hit mark (cleared t) w.approvals;
    executions = λ t h. h;
    compensations = λ t h. h;
    tasks = λ t h. h;
  }

  pub settles_executions :
      (hit : ExecutionRow → Bool) (mark : ExecutionRow → ExecutionRow) (w : World) (n : ℕ)
      → ((t : String) (e : ExecutionRow) → is_stale_execution cutoff t (mark e) ≡ false)
      → Settles w (record w { executions = update_where hit mark w.executions; tick = n })
  settles_executions hit mark w n cleared = record {
    approvals = λ t h. h;
    executions = λ t.
        Settled-update (is_stale_execution cutoff t) (λ e. e.id) hit mark (cleared t) w.executions;
    compensations = λ t h. h;
    tasks = λ t h. h;
  }

  pub settles_compensations :
      (hit : CompensationRow → Bool) (mark : CompensationRow → CompensationRow) (w : World) (n : ℕ)
      → ((t : String) (c : CompensationRow) → is_stale_compensation cutoff t (mark c) ≡ false)
      → Settles w (record w { compensations = update_where hit mark w.compensations; tick = n })
  settles_compensations hit mark w n cleared = record {
    approvals = λ t h. h;
    executions = λ t h. h;
    compensations = λ t.
        Settled-update (is_stale_compensation cutoff t) (λ c. c.id) hit mark (cleared t)
          w.compensations;
    tasks = λ t h. h;
  }

  pub settles_tasks :
      (hit : TaskRow → Bool) (mark : TaskRow → TaskRow) (w : World) (n : ℕ)
      → ((t : String) (r : TaskRow) → is_orphan cutoff t (mark r) ≡ false)
      → Settles w (record w { tasks = update_where hit mark w.tasks; tick = n })
  settles_tasks hit mark w n cleared = record {
    approvals = λ t h. h;
    executions = λ t h. h;
    compensations = λ t h. h;
    tasks = λ t. Settled-update (is_orphan cutoff t) (λ r. r.id) hit mark (cleared t) w.tasks;
  }
