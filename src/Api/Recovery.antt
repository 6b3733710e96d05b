-- ===== src/Api/Recovery.antt =====
-- `reconcile_stale_state` of app/main.py: what an interrupted process has left `executing` is set
-- aside for recovery, and never run again.
use aurelian_autonomous_ente.Prelude.{ℕ, ◌+◌, String, Bool, List, [], ◌∷◌, eqb, if◌then◌else◌}
use aurelian_autonomous_ente.World.Rows.{
  World, TaskRow, TaskStatus, WorkflowState, ApprovalRow, ExecutionRow, CompensationRow,
  CompensationStatus,
}
use aurelian_autonomous_ente.World.Effects.{Effect, pure, ◌>>=◌, ◌>>◌}
use aurelian_autonomous_ente.World.Statements.Tasks.{set_task_status, insert_audit}
use aurelian_autonomous_ente.World.Statements.Compensations.{move_compensation}
use aurelian_autonomous_ente.World.Statements.Recovery.{
  select_stale_approvals, expire_approval, select_stale_executions, expire_execution,
  select_stale_compensations, select_orphans, expire_task,
}
use aurelian_autonomous_ente.Engine.Environment.{Env, query, query_at}

-- `summary`, by its counts
pub record Summary : Type 0 where
  pub approvals : ℕ
  pub executions : ℕ
  pub compensations : ℕ
  pub created_tasks : ℕ

-- What the scan reads besides the tables it changes.
pub record Scan : Type 0 where
  -- the rows of `tenants`
  pub tenants : List String
  pub row_level_security : Bool
  pub cutoff : ℕ

-- The loop over rows, which adds up the changes.
abbrev pub each : {A : Type 0} → (A → Effect ℕ) → List A → Effect ℕ
each f [] = pure 0
each f (a ∷ rows) = do n ← f a; rest ← each f rows; pure (n + rest)

module _ (env : Env) (scan : Scan) (tenant : String) where
  unfoldable pub recover_task : ℕ → Effect (Unit {0})
  recover_task task =
      query_at env
        (set_task_status tenant task TaskStatus.recovery_required WorkflowState.recovery_required)

  unfoldable pub recover_approval : ApprovalRow → Effect ℕ
  unfolding recover_task
  recover_approval a = do
    n ← query env (expire_approval tenant a.id)
    recover_task a.task_id
    pure n

  unfoldable pub recover_execution : ExecutionRow → Effect ℕ
  unfolding recover_task
  recover_execution e = do
    n ← query env (expire_execution tenant e.id)
    recover_task e.task_id
    pure n

  unfoldable pub recover_compensation : CompensationRow → Effect ℕ
  unfolding recover_task
  recover_compensation c = do
    n ← query env (
        move_compensation tenant c.id CompensationStatus.executing
          CompensationStatus.execution_unknown)
    recover_task c.task_id
    pure n

  unfoldable pub recover_orphan : TaskRow → Effect ℕ
  recover_orphan t = query_at env (expire_task tenant t.id)

  -- `if any(tenant_summary.values())`
  unfoldable pub note_scan : Summary → Effect (Unit {0})
  note_scan s =
      if eqb (s.approvals + s.executions + s.compensations + s.created_tasks) 0
      then pure tt
      else query env (insert_audit tenant "system" "recovery.scan" 0)

  unfoldable pub recover_tenant : Effect Summary
  unfolding recover_approval recover_execution recover_compensation recover_orphan note_scan
  recover_tenant = do
    let view : Bool × String = (scan.row_level_security, tenant)
    stale_approvals ← query env (select_stale_approvals view scan.cutoff)
    a ← each recover_approval stale_approvals
    stale_executions ← query env (select_stale_executions view scan.cutoff)
    e ← each recover_execution stale_executions
    stale_compensations ← query env (select_stale_compensations view scan.cutoff)
    c ← each recover_compensation stale_compensations
    orphans ← query env (select_orphans view scan.cutoff)
    t ← each recover_orphan orphans
    let summary : Summary = record {
      approvals = a;
      executions = e;
      compensations = c;
      created_tasks = t;
    }
    note_scan summary
    pure summary

abbrev pub add_summaries : Summary → Summary → Summary
add_summaries s t = record {
  approvals = s.approvals + t.approvals;
  executions = s.executions + t.executions;
  compensations = s.compensations + t.compensations;
  created_tasks = s.created_tasks + t.created_tasks;
}

abbrev pub recover_tenants : Env → Scan → List String → Effect Summary
recover_tenants env scan [] =
    pure (record { approvals = 0; executions = 0; compensations = 0; created_tasks = 0 })
recover_tenants env scan (tenant ∷ tenants) = do
  s ← recover_tenant env scan tenant
  rest ← recover_tenants env scan tenants
  pure (add_summaries s rest)

-- `SELECT tenant_id FROM tenants`
abbrev pub select_tenants : Scan → World → List String × World
select_tenants scan w = (scan.tenants, w)

unfoldable pub reconcile_stale_state : Env → Scan → Effect Summary
reconcile_stale_state env scan = do
  tenants ← query env (select_tenants scan)
  recover_tenants env scan tenants
