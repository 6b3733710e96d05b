-- ===== src/World/Statements/Tasks.antt =====
-- Statements on `tasks` and `workflow_checkpoints`.
use aurelian_autonomous_ente.Prelude.{
  ℕ, suc, String, Bool, ◌&&◌, [], ◌∷◌, ◌++◌, Option, none, some, ◌==◌, eqb, length, find,
  update_where, Text,
}
use aurelian_autonomous_ente.World.Rows.{
  World, TaskRow, TaskStatus, WorkflowState, Outcome, CheckpointRow, AuditEntry,
}

abbrev pub is_task : String → ℕ → TaskRow → Bool
is_task tenant id t = t.tenant_id == tenant && eqb t.id id

abbrev pub has_task_key : String → String → String → TaskRow → Bool
has_task_key tenant actor key t =
    t.tenant_id == tenant
    && t.actor == actor
    && elim t.idempotency_key [ none ↦ Bool.false | some k ↦ k == key ]

abbrev pub select_task : String → ℕ → World → Option TaskRow × World
select_task tenant id w = (find (is_task tenant id) w.tasks, w)

abbrev pub select_task_by_key : String → String → String → World → Option TaskRow × World
select_task_by_key tenant actor key w = (find (has_task_key tenant actor key) w.tasks, w)

abbrev pub new_task : ℕ → String → Text → String → String → Option String → ℕ → TaskRow
new_task id tenant request actor role key now = record {
  id = id;
  tenant_id = tenant;
  request = request;
  actor = actor;
  role = role;
  status = TaskStatus.running;
  workflow_state = WorkflowState.created;
  result = none;
  idempotency_key = key;
  updated_at = now;
}

-- `INSERT INTO tasks ... RETURNING id`
unfoldable pub insert_task : String → Text → String → String → Option String → ℕ → World → ℕ × World
insert_task tenant request actor role key now w =
    let id = suc (length w.tasks) in
    (id, record w { tasks = w.tasks ++ new_task id tenant request actor role key now ∷ [] })

-- `INSERT ... ON CONFLICT(tenant_id,actor,idempotency_key) DO NOTHING RETURNING *`, by the new id
unfoldable pub insert_task_once :
    String → Text → String → String → String → ℕ → World → Option ℕ × World
unfolding insert_task
insert_task_once tenant request actor role key now w =
    elim (find (has_task_key tenant actor key) w.tasks) [
      | some t ↦ (none, w)
      | none ↦
          let (id, w') = insert_task tenant request actor role (some key) now w in (some id, w')
    ]

-- The two statements of `checkpoint`.
unfoldable pub insert_checkpoint : String → ℕ → WorkflowState → ℕ → World → Unit {0} × World
insert_checkpoint tenant task node attempt w =
    let row : CheckpointRow = record {
      tenant_id = tenant;
      task_id = task;
      node = node;
      attempt = attempt;
    } in
    (tt, record w { checkpoints = w.checkpoints ++ row ∷ [] })

unfoldable pub update_workflow_state : String → ℕ → WorkflowState → ℕ → World → Unit {0} × World
update_workflow_state tenant task node now w = (
  tt,
  record w {
    tasks =
        update_where (is_task tenant task)
          (λ t. record t { workflow_state = node; updated_at = now }) w.tasks;
  },
)

-- The update of `_finish`.
unfoldable pub finish_task :
    String → ℕ → TaskStatus → Outcome → WorkflowState → ℕ → World → Unit {0} × World
finish_task tenant task status result node now w = (
  tt,
  record w {
    tasks =
        update_where (is_task tenant task)
          (λ t. record t {
            status = status;
            workflow_state = node;
            result = some result;
            updated_at = now;
          })
          w.tasks;
  },
)

-- `UPDATE tasks SET status=...,workflow_state=...`, which leaves the result.
unfoldable pub set_task_status :
    String → ℕ → TaskStatus → WorkflowState → ℕ → World → Unit {0} × World
set_task_status tenant task status node now w = (
  tt,
  record w {
    tasks =
        update_where (is_task tenant task)
          (λ t. record t { status = status; workflow_state = node; updated_at = now }) w.tasks;
  },
)

-- `append_audit`, by what the entry names.
unfoldable pub insert_audit : String → String → String → ℕ → World → Unit {0} × World
insert_audit tenant actor event_type subject w =
    let entry : AuditEntry = record {
      tenant_id = tenant;
      actor = actor;
      event_type = event_type;
      subject = subject;
    } in
    (tt, record w { audit = w.audit ++ entry ∷ [] })
