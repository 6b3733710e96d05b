-- ===== src/World/Statements/Recovery.antt =====
-- The statements of `reconcile_stale_state` (app/main.py). With row-level security a query sees the
-- rows of one tenant, and without it those of all.
use aurelian_autonomous_ente.Prelude.{
  ℕ, String, Bool, true, false, ◌&&◌, ◌||◌, not, List, Option, none, some, ◌==◌, eqb, ltb, select,
  update_where, count_where,
}
use aurelian_autonomous_ente.World.Rows.{
  World, TaskRow, TaskStatus, WorkflowState, ApprovalRow, ApprovalStatus, ExecutionRow,
  ExecutionStatus, CompensationRow, CompensationStatus,
}
use aurelian_autonomous_ente.World.Statements.Tasks.{is_task}
use aurelian_autonomous_ente.World.Statements.Approvals.{is_approval}
use aurelian_autonomous_ente.World.Statements.Executions.{is_executing}
use aurelian_autonomous_ente.World.Statements.Compensations.{has_status}

-- Whether a row is seen: `(row-level security, the tenant of the context)`.
abbrev pub sees : Bool × String → String → Bool
sees (rls, tenant) row_tenant = not rls || row_tenant == tenant

abbrev pub is_executing_approval : ApprovalRow → Bool
is_executing_approval a = elim a.status [ ApprovalStatus.executing ↦ true | _ ↦ false ]

abbrev pub is_running : TaskRow → Bool
is_running t = elim t.status [ TaskStatus.running ↦ true | _ ↦ false ]

abbrev pub is_created : TaskRow → Bool
is_created t = elim t.workflow_state [ WorkflowState.created ↦ true | _ ↦ false ]

-- `started_at IS NOT NULL AND started_at<?`
abbrev pub is_before : ℕ → Option ℕ → Bool
is_before cutoff none = false
is_before cutoff (some t) = ltb t cutoff

abbrev pub select_stale_approvals : Bool × String → ℕ → World → List ApprovalRow × World
select_stale_approvals view cutoff w = (
  select (λ a. sees view a.tenant_id && is_executing_approval a && is_before cutoff a.started_at)
      w.approvals,
  w,
)

unfoldable pub expire_approval : String → ℕ → World → ℕ × World
expire_approval tenant id w = (
  count_where (λ a. is_approval tenant id a && is_executing_approval a) w.approvals,
  record w {
    approvals =
        update_where (λ a. is_approval tenant id a && is_executing_approval a)
          (λ a. record a { status = ApprovalStatus.recovery_required }) w.approvals;
  },
)

abbrev pub select_stale_executions : Bool × String → ℕ → World → List ExecutionRow × World
select_stale_executions view cutoff w = (
  select (λ e. sees view e.tenant_id && is_executing e && ltb e.started_at cutoff) w.executions,
  w,
)

abbrev pub is_execution : String → ℕ → ExecutionRow → Bool
is_execution tenant id e = e.tenant_id == tenant && eqb e.id id && is_executing e

unfoldable pub expire_execution : String → ℕ → World → ℕ × World
expire_execution tenant id w = (
  count_where (is_execution tenant id) w.executions,
  record w {
    executions =
        update_where (is_execution tenant id)
          (λ e. record e { status = ExecutionStatus.execution_unknown }) w.executions;
  },
)

abbrev pub select_stale_compensations : Bool × String → ℕ → World → List CompensationRow × World
select_stale_compensations view cutoff w = (
  select
      (λ c.
        sees view c.tenant_id
        && has_status CompensationStatus.executing c
        && ltb c.created_at cutoff)
      w.compensations,
  w,
)

abbrev pub select_orphans : Bool × String → ℕ → World → List TaskRow × World
select_orphans view cutoff w = (
  select (λ t. sees view t.tenant_id && is_running t && is_created t && ltb t.updated_at cutoff)
      w.tasks,
  w,
)

unfoldable pub expire_task : String → ℕ → ℕ → World → ℕ × World
expire_task tenant id now w = (
  count_where (λ t. is_task tenant id t && is_running t) w.tasks,
  record w {
    tasks =
        update_where (λ t. is_task tenant id t && is_running t)
          (λ t. record t {
            status = TaskStatus.recovery_required;
            workflow_state = WorkflowState.recovery_required;
            updated_at = now;
          })
          w.tasks;
  },
)
