-- ===== src/Api/Phases.antt =====
-- The phases of a recovery scan in which no statement fails (app/main.py).
use aurelian_autonomous_ente.Prelude.{ℕ, suc, String, ◌≡◌, Bool, ◌&&◌, List, ◌∷◌, arith}
use aurelian_autonomous_ente.World.Rows.{
  World, TaskRow, TaskStatus, WorkflowState, ApprovalRow, ApprovalStatus, ExecutionRow,
  ExecutionStatus, CompensationRow, CompensationStatus,
}
use aurelian_autonomous_ente.World.Effects.{Effect, ◌>>=◌, done, advance}
use aurelian_autonomous_ente.World.Statements.Tasks.{set_task_status, is_task}
use aurelian_autonomous_ente.World.Statements.Approvals.{is_approval}
use aurelian_autonomous_ente.World.Statements.Compensations.{move_compensation, is_compensation}
use aurelian_autonomous_ente.World.Statements.Recovery.{
  is_executing_approval, is_running, is_execution, select_stale_approvals, expire_approval,
  select_stale_executions, expire_execution, select_stale_compensations, select_orphans,
  expire_task,
}
use aurelian_autonomous_ente.Engine.Environment.{Env, query}
use aurelian_autonomous_ente.Api.Recovery.{
  Scan, each, recover_task, recover_approval, recover_execution, recover_compensation,
  recover_orphan,
}
use aurelian_autonomous_ente.Api.Runs.{
  Runs, Runs-bind, Runs-pure, Runs-query, Runs-query_at, Runs-each,
}
use aurelian_autonomous_ente.Api.Stale.{
  is_stale_approval, is_stale_execution, is_stale_compensation, is_orphan, Left, Left-Settled,
  Left-update, Left-select,
}
use aurelian_autonomous_ente.Api.Settled.{
  Settles, ApprovalsSettled, ExecutionsSettled, CompensationsSettled, TasksSettled, Settles-trans,
  settles_approvals, settles_executions, settles_compensations, settles_tasks,
}

module _ (cutoff : ℕ) (env : Env) (fine : (n : ℕ) → env.fault n ≡ done) (scan : Scan)
    (tenant : String) where
  -- What a step over a row of a table leaves: less to do, and nothing that was settled undone.
  abbrev ApprovalsLeft : World → List ApprovalRow → World → Type 0
  ApprovalsLeft start rows w =
      Left (is_stale_approval cutoff tenant) (λ a. a.id) rows w.approvals × Settles cutoff start w

  abbrev ExecutionsLeft : World → List ExecutionRow → World → Type 0
  ExecutionsLeft start rows w =
      Left (is_stale_execution cutoff tenant) (λ e. e.id) rows w.executions × Settles cutoff start w

  abbrev CompensationsLeft : World → List CompensationRow → World → Type 0
  CompensationsLeft start rows w =
      Left (is_stale_compensation cutoff tenant) (λ c. c.id) rows w.compensations
      × Settles cutoff start w

  abbrev TasksLeft : World → List TaskRow → World → Type 0
  TasksLeft start rows w =
      Left (is_orphan cutoff tenant) (λ r. r.id) rows w.tasks × Settles cutoff start w

  Runs-recover_task :
      (task : ℕ) (w : World) (P : World → Type 0)
      → ((rows : List TaskRow) (n : ℕ)
          → Settles cutoff w (record w { tasks = rows; tick = n })
          → P (record w { tasks = rows; tick = n }))
      → Runs (recover_task env scan tenant task) w (λ u after. P after)
  unfolding recover_task set_task_status
  Runs-recover_task task w P keep =
      Runs-query_at (λ u. P) env fine
        (set_task_status tenant task TaskStatus.recovery_required WorkflowState.recovery_required) w
        (λ now.
          keep _ _
            (settles_tasks cutoff (is_task tenant task) _ w (suc w.tick) (λ t r. ground arith)))

  Runs-recover_approval :
      (start : World) (a : ApprovalRow) (rows : List ApprovalRow) (w : World)
      → ApprovalsLeft start (a ∷ rows) w
      → Runs (recover_approval env scan tenant a) w (λ n after. ApprovalsLeft start rows after)
  unfolding recover_approval expire_approval
  Runs-recover_approval start a rows w (left, settles) =
      let hit : ApprovalRow → Bool = λ b. is_approval tenant a.id b && is_executing_approval b in
      let mark : ApprovalRow → ApprovalRow =
        λ b. record b { status = ApprovalStatus.recovery_required } in
      Runs-bind _ _ _ w (
        Runs-query _ env fine (expire_approval tenant a.id) w (
          Runs-bind _ _ _ _ (
            Runs-recover_task a.task_id _ _ (λ ts n keep. Runs-pure _ _ _ (
              Left-update (is_stale_approval cutoff tenant) (λ b. b.id) hit mark (λ b. ground arith)
                  a rows w.approvals (λ b old same. ground arith) left,
              Settles-trans cutoff start w _ settles (
                  Settles-trans cutoff w _ _
                    (settles_approvals cutoff hit mark w (suc w.tick) (λ t b. ground arith)) keep),
            )))))

  Runs-recover_execution :
      (start : World) (e : ExecutionRow) (rows : List ExecutionRow) (w : World)
      → ExecutionsLeft start (e ∷ rows) w
      → Runs (recover_execution env scan tenant e) w (λ n after. ExecutionsLeft start rows after)
  unfolding recover_execution expire_execution
  Runs-recover_execution start e rows w (left, settles) =
      let hit : ExecutionRow → Bool = is_execution tenant e.id in
      let mark : ExecutionRow → ExecutionRow =
        λ b. record b { status = ExecutionStatus.execution_unknown } in
      Runs-bind _ _ _ w (
        Runs-query _ env fine (expire_execution tenant e.id) w (
          Runs-bind _ _ _ _ (
            Runs-recover_task e.task_id _ _ (λ ts n keep. Runs-pure _ _ _ (
              Left-update (is_stale_execution cutoff tenant) (λ b. b.id) hit mark
                  (λ b. ground arith) e rows w.executions (λ b old same. ground arith) left,
              Settles-trans cutoff start w _ settles (
                  Settles-trans cutoff w _ _
                    (settles_executions cutoff hit mark w (suc w.tick) (λ t b. ground arith)) keep),
            )))))

  Runs-recover_compensation :
      (start : World) (c : CompensationRow) (rows : List CompensationRow) (w : World)
      → CompensationsLeft start (c ∷ rows) w
      → Runs
          (recover_compensation env scan tenant c)
          w
          (λ n after. CompensationsLeft start rows after)
  unfolding recover_compensation move_compensation
  Runs-recover_compensation start c rows w (left, settles) =
      let executing : CompensationStatus = CompensationStatus.executing in
      let unknown : CompensationStatus = CompensationStatus.execution_unknown in
      let hit : CompensationRow → Bool = is_compensation tenant c.id executing in
      let mark : CompensationRow → CompensationRow = λ b. record b { status = unknown } in
      Runs-bind _ _ _ w (
        Runs-query _ env fine (move_compensation tenant c.id executing unknown) w (
          Runs-bind _ _ _ _ (
            Runs-recover_task c.task_id _ _ (λ ts n keep. Runs-pure _ _ _ (
              Left-update (is_stale_compensation cutoff tenant) (λ b. b.id) hit mark
                  (λ b. ground arith) c rows w.compensations (λ b old same. ground arith) left,
              Settles-trans cutoff start w _ settles (
                  Settles-trans cutoff w _ _
                    (settles_compensations cutoff hit mark w (suc w.tick) (λ t b. ground arith))
                    keep),
            )))))

  Runs-recover_orphan :
      (start : World) (r : TaskRow) (rows : List TaskRow) (w : World)
      → TasksLeft start (r ∷ rows) w
      → Runs (recover_orphan env scan tenant r) w (λ n after. TasksLeft start rows after)
  unfolding recover_orphan expire_task
  Runs-recover_orphan start r rows w (left, settles) =
      Runs-query_at _ env fine (expire_task tenant r.id) w (λ now.
        let hit : TaskRow → Bool = λ t. is_task tenant r.id t && is_running t in
        let mark : TaskRow → TaskRow = λ t. record t {
          status = TaskStatus.recovery_required;
          workflow_state = WorkflowState.recovery_required;
          updated_at = now;
        } in
        (
          Left-update (is_orphan cutoff tenant) (λ b. b.id) hit mark (λ b. ground arith) r rows
              w.tasks (λ b old same. ground arith) left,
          Settles-trans cutoff start w _ settles
              (settles_tasks cutoff hit mark w (suc w.tick) (λ t b. ground arith)),
        ))

  Settles-advance : (start w : World) → Settles cutoff start w → Settles cutoff start (advance w)
  Settles-advance start w s = record {
    approvals = s.approvals;
    executions = s.executions;
    compensations = s.compensations;
    tasks = s.tasks;
  }

  abbrev view : Bool × String
  view = (scan.row_level_security, tenant)

  module _ {B : Type 0} (P : B → World → Type 0) (rest : ℕ → Effect B) (start w : World)
      (settles : Settles cutoff start w) where
    -- One table is scanned and the rest of the scan goes on.
    pub after_approvals :
        ((n : ℕ) (v : World)
          → ApprovalsSettled cutoff tenant v
          → Settles cutoff start v
          → Runs (rest n) v P)
        → Runs
            (query env (select_stale_approvals view cutoff) >>= λ rows.
              each (recover_approval env scan tenant) rows >>= rest)
            w
            P
    after_approvals go =
        let (n, v, e, (left, s)) =
          Runs-each (recover_approval env scan tenant) (ApprovalsLeft start)
            (Runs-recover_approval start) (select_stale_approvals view cutoff (advance w)).0
            (advance w)
            (
              Left-select (is_stale_approval cutoff tenant) _ (λ a. a.id) w.approvals
                  (λ a old. ground arith),
              Settles-advance start w settles,
            ) in
        Runs-bind _ _ P w (
          Runs-query _ env fine (select_stale_approvals view cutoff) w (
            Runs-bind _ rest P _ (
              n,
              v,
              e,
              go n v (Left-Settled (is_stale_approval cutoff tenant) (λ a. a.id) v.approvals left)
                  s,
            )))

    pub after_executions :
        ((n : ℕ) (v : World)
          → ExecutionsSettled cutoff tenant v
          → Settles cutoff start v
          → Runs (rest n) v P)
        → Runs
            (query env (select_stale_executions view cutoff) >>= λ rows.
              each (recover_execution env scan tenant) rows >>= rest)
            w
            P
    after_executions go =
        let (n, v, e, (left, s)) =
          Runs-each (recover_execution env scan tenant) (ExecutionsLeft start)
            (Runs-recover_execution start) (select_stale_executions view cutoff (advance w)).0
            (advance w)
            (
              Left-select (is_stale_execution cutoff tenant) _ (λ a. a.id) w.executions
                  (λ a old. ground arith),
              Settles-advance start w settles,
            ) in
        Runs-bind _ _ P w (
          Runs-query _ env fine (select_stale_executions view cutoff) w (
            Runs-bind _ rest P _ (
              n,
              v,
              e,
              go n v (Left-Settled (is_stale_execution cutoff tenant) (λ a. a.id) v.executions left)
                  s,
            )))

    pub after_compensations :
        ((n : ℕ) (v : World)
          → CompensationsSettled cutoff tenant v
          → Settles cutoff start v
          → Runs (rest n) v P)
        → Runs
            (query env (select_stale_compensations view cutoff) >>= λ rows.
              each (recover_compensation env scan tenant) rows >>= rest)
            w
            P
    after_compensations go =
        let (n, v, e, (left, s)) =
          Runs-each (recover_compensation env scan tenant) (CompensationsLeft start)
            (Runs-recover_compensation start) (select_stale_compensations view cutoff (advance w)).0
            (advance w)
            (
              Left-select (is_stale_compensation cutoff tenant) _ (λ a. a.id) w.compensations
                  (λ a old. ground arith),
              Settles-advance start w settles,
            ) in
        Runs-bind _ _ P w (
          Runs-query _ env fine (select_stale_compensations view cutoff) w (
            Runs-bind _ rest P _ (
              n,
              v,
              e,
              go n v
                  (Left-Settled (is_stale_compensation cutoff tenant) (λ a. a.id) v.compensations
                    left)
                  s,
            )))

    pub after_orphans :
        ((n : ℕ) (v : World)
          → TasksSettled cutoff tenant v
          → Settles cutoff start v
          → Runs (rest n) v P)
        → Runs
            (query env (select_orphans view cutoff) >>= λ rows.
              each (recover_orphan env scan tenant) rows >>= rest)
            w
            P
    after_orphans go =
        let (n, v, e, (left, s)) =
          Runs-each (recover_orphan env scan tenant) (TasksLeft start) (Runs-recover_orphan start)
            (select_orphans view cutoff (advance w)).0 (advance w)
            (
              Left-select (is_orphan cutoff tenant) _ (λ a. a.id) w.tasks (λ a old. ground arith),
              Settles-advance start w settles,
            ) in
        Runs-bind _ _ P w (
          Runs-query _ env fine (select_orphans view cutoff) w (
            Runs-bind _ rest P _ (
              n,
              v,
              e,
              go n v (Left-Settled (is_orphan cutoff tenant) (λ a. a.id) v.tasks left) s,
            )))
