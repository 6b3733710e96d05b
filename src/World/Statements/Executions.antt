-- ===== src/World/Statements/Executions.antt =====
-- Statements on `tool_executions`, whose rows have one key for each tenant.
use aurelian_autonomous_ente.Prelude.{
  ℕ, suc, String, Bool, true, false, ◌&&◌, [], ◌∷◌, ◌++◌, Option, none, some, ◌==◌, length, find,
  update_where, any, if◌then◌else◌,
}
use aurelian_autonomous_ente.Json.{Fields}
use aurelian_autonomous_ente.World.Rows.{World, ExecutionRow, ExecutionStatus}

abbrev pub has_key : String → String → ExecutionRow → Bool
has_key tenant key e = e.tenant_id == tenant && e.idempotency_key == key

abbrev pub is_executing : ExecutionRow → Bool
is_executing e = elim e.status [ ExecutionStatus.executing ↦ true | _ ↦ false ]

abbrev pub select_execution : String → String → World → Option ExecutionRow × World
select_execution tenant key w = (find (has_key tenant key) w.executions, w)

abbrev pub new_execution : ℕ → String → ℕ → String → String → String → ℕ → ExecutionRow
new_execution id tenant task phase tool key now = record {
  id = id;
  tenant_id = tenant;
  task_id = task;
  phase = phase;
  tool_name = tool;
  idempotency_key = key;
  status = ExecutionStatus.executing;
  output = none;
  error_type = none;
  started_at = now;
}

-- `INSERT ... ON CONFLICT(tenant_id,idempotency_key) DO NOTHING RETURNING *`: whether a row came.
unfoldable pub claim_execution : String → ℕ → String → String → String → ℕ → World → Bool × World
claim_execution tenant task phase tool key now w =
    if any (has_key tenant key) w.executions then (false, w) else (
      true,
      record w {
        executions =
            w.executions
            ++ new_execution (suc (length w.executions)) tenant task phase tool key now ∷ [];
      },
    )

-- `UPDATE ... SET status='completed',output_json=? ... AND status='executing'`
unfoldable pub complete_execution : String → String → Fields → World → Unit {0} × World
complete_execution tenant key output w = (
  tt,
  record w {
    executions =
        update_where (λ e. has_key tenant key e && is_executing e)
          (λ e. record e { status = ExecutionStatus.completed; output = some output }) w.executions;
  },
)

-- The same update without the test of the status, as the rollback makes it.
unfoldable pub complete_rollback : String → String → Fields → World → Unit {0} × World
complete_rollback tenant key output w = (
  tt,
  record w {
    executions =
        update_where (has_key tenant key)
          (λ e. record e { status = ExecutionStatus.completed; output = some output }) w.executions;
  },
)

-- `UPDATE ... SET status=?,error_type=? ... AND status='executing'`
unfoldable pub end_execution : String → String → ExecutionStatus → String → World → Unit {0} × World
end_execution tenant key status error_type w = (
  tt,
  record w {
    executions =
        update_where (λ e. has_key tenant key e && is_executing e)
          (λ e. record e { status = status; error_type = some error_type }) w.executions;
  },
)
