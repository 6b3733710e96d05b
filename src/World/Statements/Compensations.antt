-- ===== src/World/Statements/Compensations.antt =====
-- Statements on `compensations`.
use aurelian_autonomous_ente.Prelude.{
  ℕ, suc, String, Bool, true, false, ◌&&◌, [], ◌∷◌, ◌++◌, Option, ◌==◌, eqb, length, any, find_last,
  update_where, count_where,
}
use aurelian_autonomous_ente.Json.{Value}
use aurelian_autonomous_ente.World.Rows.{World, CompensationRow, CompensationStatus}

abbrev pub has_status : CompensationStatus → CompensationRow → Bool
has_status CompensationStatus.available c = elim c.status [
  | CompensationStatus.available ↦ true
  | _ ↦ false
]
has_status CompensationStatus.executing c = elim c.status [
  | CompensationStatus.executing ↦ true
  | _ ↦ false
]
has_status CompensationStatus.used c = elim c.status [ CompensationStatus.used ↦ true | _ ↦ false ]
has_status CompensationStatus.execution_unknown c = elim c.status [
  | CompensationStatus.execution_unknown ↦ true
  | _ ↦ false
]

abbrev pub is_compensation : String → ℕ → CompensationStatus → CompensationRow → Bool
is_compensation tenant id status c = c.tenant_id == tenant && eqb c.id id && has_status status c

-- `SELECT * ... AND task_id=? AND status='available' ORDER BY id DESC LIMIT 1`
abbrev pub select_compensation : String → ℕ → World → Option CompensationRow × World
select_compensation tenant task w = (
  find_last
      (λ c.
        c.tenant_id == tenant && eqb c.task_id task && has_status CompensationStatus.available c)
      w.compensations,
  w,
)

-- `SELECT id ... AND task_id=? AND execution_key=?`: whether there is one
abbrev pub has_compensation : String → ℕ → String → World → Bool × World
has_compensation tenant task key w = (
  any (λ c. c.tenant_id == tenant && eqb c.task_id task && c.execution_key == key) w.compensations,
  w,
)

unfoldable pub insert_compensation :
    String → ℕ → String → Value → String → ℕ → World → Unit {0} × World
insert_compensation tenant task tool compensation key now w =
    let row : CompensationRow = record {
      id = suc (length w.compensations);
      tenant_id = tenant;
      task_id = task;
      tool_name = tool;
      compensation = compensation;
      status = CompensationStatus.available;
      execution_key = key;
      created_at = now;
    } in
    (tt, record w { compensations = w.compensations ++ row ∷ [] })

-- `UPDATE compensations SET status=? ... AND status=?`
unfoldable pub move_compensation :
    String → ℕ → CompensationStatus → CompensationStatus → World → ℕ × World
move_compensation tenant id from to w = (
  count_where (is_compensation tenant id from) w.compensations,
  record w {
    compensations =
        update_where (is_compensation tenant id from) (λ c. record c { status = to })
          w.compensations;
  },
)
