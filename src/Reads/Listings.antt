-- ===== src/Reads/Listings.antt =====
-- The handlers of app/main.py that only read the tables. A statement that fails ends a request with
-- its exception and changes nothing; here none fails.
use aurelian_autonomous_ente.Prelude.{
  ℕ, String, Bool, true, false, not, ◌&&◌, List, [], ◌∷◌, ◌++◌, map, Option, none, some, ◌==◌, eqb,
  leb, length, take, select, count_where, find, if◌then◌else◌,
}
use aurelian_autonomous_ente.Result.{Result, ok, raised, http_exception, ◌>>=◌}
use aurelian_autonomous_ente.Floats.{Floats, sum_from}
use aurelian_autonomous_ente.Auth.Roles.{Principal}
use aurelian_autonomous_ente.Audit.Crypto.{JsonText, Signing}
use aurelian_autonomous_ente.Audit.Ledger.{
  AuditRow, ChainReport, valid, invalid, tenant_rows, verify_chain,
}
use aurelian_autonomous_ente.World.Rows.{
  TaskStatus, WorkflowState, ApprovalStatus, ExecutionStatus, CompensationStatus, TaskRow,
  CheckpointRow, ApprovalRow, ExecutionRow, CompensationRow, ProductRow, CustomerRow, OrderRow,
  IncidentRow, World,
}
use aurelian_autonomous_ente.Tools.Host.{order_by}

-- The text of a status column.
abbrev pub approval_text : ApprovalStatus → String
approval_text ApprovalStatus.pending = "pending"
approval_text ApprovalStatus.executing = "executing"
approval_text ApprovalStatus.approved = "approved"
approval_text ApprovalStatus.denied = "denied"
approval_text ApprovalStatus.recovery_required = "recovery_required"
approval_text ApprovalStatus.execution_failed = "execution_failed"

-- `status IN ('executing','execution_unknown')`
abbrev pub is_open_execution : ExecutionStatus → Bool
is_open_execution ExecutionStatus.executing = true
is_open_execution ExecutionStatus.execution_unknown = true
is_open_execution _ = false

abbrev pub is_open_compensation : CompensationStatus → Bool
is_open_compensation CompensationStatus.executing = true
is_open_compensation CompensationStatus.execution_unknown = true
is_open_compensation _ = false

abbrev pub needs_recovery : TaskStatus → Bool
needs_recovery TaskStatus.recovery_required = true
needs_recovery _ = false

-- The last rows first, of a table whose rows stand in the order of their ids.
abbrev pub newest_first {ℓ} : {A : Type ℓ} → List A → List A
newest_first [] = []
newest_first (x ∷ xs) = newest_first xs ++ x ∷ []

-- What the recovery queue selects.
pub record TaskBrief : Type 0 where
  pub id : ℕ
  pub status : TaskStatus
  pub workflow_state : WorkflowState
  pub updated_at : ℕ

pub record ExecutionBrief : Type 0 where
  pub task_id : ℕ
  pub phase : String
  pub tool_name : String
  pub idempotency_key : String
  pub status : ExecutionStatus
  pub started_at : ℕ
  pub error_type : Option String

pub record CompensationBrief : Type 0 where
  pub id : ℕ
  pub task_id : ℕ
  pub tool_name : String
  pub status : CompensationStatus
  pub created_at : ℕ

pub record Kpis : Type 0 where
  pub booked_revenue : ℕ
  pub open_order_value : ℕ
  pub open_orders : ℕ
  pub inventory_risks : ℕ
  pub pending_approvals : ℕ
  pub open_incidents : ℕ
  pub audit_integrity : Bool

pub data ReadRequest : Type 0 where
  overview products customers orders incidents recovery_queue audit_verify : ReadRequest
  task : ℕ → ReadRequest
  approvals : String → ReadRequest
  audit : ℕ → ReadRequest
  traces : ℕ → ReadRequest

abbrev pub is_valid : ChainReport → Bool
is_valid (valid _ _) = true
is_valid (invalid _ _) = false

module _ (fl : Floats) (json : JsonText) (s : Signing json) where
  pub data ReadReply : Type 0 where
    figures : Kpis → ReadReply
    product_list : List ProductRow → ReadReply
    customer_list : List CustomerRow → ReadReply
    order_list : List OrderRow → ReadReply
    incident_list : List IncidentRow → ReadReply
    one_task : TaskRow → List CheckpointRow → ReadReply
    approval_list : List ApprovalRow → ReadReply
    queue : List TaskBrief → List ExecutionBrief → List CompensationBrief → ReadReply
    chain : ChainReport → ReadReply
    event_list : List (AuditRow json) → ChainReport → ReadReply
    trace_list : List CheckpointRow → ReadReply

  module _ (p : Principal) (ledger : List (AuditRow json)) (w : World) where
    abbrev is_fulfilled : OrderRow → Bool
    is_fulfilled o = o.status == "fulfilled"

    -- The rows of the tenant in each table.
    abbrev pub own_products : List ProductRow
    own_products = select (λ (r : ProductRow). r.tenant_id == p.tenant_id) w.store.products

    abbrev pub own_customers : List CustomerRow
    own_customers = select (λ (r : CustomerRow). r.tenant_id == p.tenant_id) w.store.customers

    abbrev pub own_orders : List OrderRow
    own_orders = select (λ (r : OrderRow). r.tenant_id == p.tenant_id) w.store.orders

    abbrev pub own_incidents : List IncidentRow
    own_incidents = select (λ (r : IncidentRow). r.tenant_id == p.tenant_id) w.store.incidents

    abbrev pub own_approvals : String → List ApprovalRow
    own_approvals status =
        select (λ (r : ApprovalRow). r.tenant_id == p.tenant_id && approval_text r.status == status)
          w.approvals

    abbrev total_of : List OrderRow → ℕ
    total_of os = sum_from fl 0 (map (λ (o : OrderRow). o.total) os)

    abbrev pub kpis : Bool → Kpis
    kpis valid_chain =
        let unfulfilled = select (λ o. not (is_fulfilled o)) own_orders in
        record {
          booked_revenue = total_of own_orders;
          open_order_value = total_of unfulfilled;
          open_orders = length unfulfilled;
          inventory_risks =
              count_where (λ (x : ProductRow). leb x.stock x.reorder_point) own_products;
          pending_approvals = length (own_approvals "pending");
          open_incidents = length own_incidents;
          audit_integrity = valid_chain;
        }

    unfoldable pub get_overview : Result ReadReply
    get_overview = do
      report ← verify_chain json s p.tenant_id ledger
      ok (figures (kpis (is_valid report)))

    abbrev pub after_task : Option TaskRow → Result ReadReply
    after_task none = raised (http_exception 404 "")
    after_task (some t) = ok (
        one_task t (
          select (λ (c : CheckpointRow). c.tenant_id == p.tenant_id && eqb c.task_id t.id)
            w.checkpoints))

    unfoldable pub get_task : ℕ → Result ReadReply
    get_task id =
        after_task (find (λ (t : TaskRow). t.tenant_id == p.tenant_id && eqb t.id id) w.tasks)

    abbrev brief_tasks : List TaskBrief
    brief_tasks =
        map
          (λ (t : TaskRow). record {
            id = t.id;
            status = t.status;
            workflow_state = t.workflow_state;
            updated_at = t.updated_at;
          })
          (order_by (λ (t u : TaskRow). leb u.updated_at t.updated_at)
            (select (λ (t : TaskRow). t.tenant_id == p.tenant_id && needs_recovery t.status)
              w.tasks))

    abbrev brief_executions : List ExecutionBrief
    brief_executions =
        map
          (λ (e : ExecutionRow). record {
            task_id = e.task_id;
            phase = e.phase;
            tool_name = e.tool_name;
            idempotency_key = e.idempotency_key;
            status = e.status;
            started_at = e.started_at;
            error_type = e.error_type;
          })
          (order_by (λ (d e : ExecutionRow). leb e.id d.id)
            (select (λ (e : ExecutionRow). e.tenant_id == p.tenant_id && is_open_execution e.status)
              w.executions))

    abbrev brief_compensations : List CompensationBrief
    brief_compensations =
        map
          (λ (c : CompensationRow). record {
            id = c.id;
            task_id = c.task_id;
            tool_name = c.tool_name;
            status = c.status;
            created_at = c.created_at;
          })
          (order_by (λ (b c : CompensationRow). leb c.id b.id)
            (select
              (λ (c : CompensationRow). c.tenant_id == p.tenant_id && is_open_compensation c.status)
              w.compensations))

    unfoldable pub get_recovery_queue : Result ReadReply
    get_recovery_queue =
        if not (p.role == "executive")
        then raised (http_exception 403 "executive required")
        else ok (queue brief_tasks brief_executions brief_compensations)

    unfoldable pub get_audit : ℕ → Result ReadReply
    get_audit limit = do
      report ← verify_chain json s p.tenant_id ledger
      ok (event_list (take limit (newest_first (tenant_rows json s p.tenant_id ledger))) report)

    -- The handler of each request; `limit` is not negative.
    unfoldable pub serve_read : ReadRequest → Result ReadReply
    serve_read overview = get_overview
    serve_read products =
        ok (product_list (order_by (λ (a b : ProductRow). leb a.stock b.stock) own_products))
    serve_read customers = ok (
        customer_list
          (order_by (λ (a b : CustomerRow). fl.le b.lifetime_value a.lifetime_value) own_customers))
    serve_read orders = ok (order_list (order_by (λ (a b : OrderRow). leb b.id a.id) own_orders))
    serve_read incidents =
        ok (incident_list (order_by (λ (a b : IncidentRow). leb b.id a.id) own_incidents))
    serve_read recovery_queue = get_recovery_queue
    serve_read audit_verify = verify_chain json s p.tenant_id ledger >>= λ report. ok (chain report)
    serve_read (task id) = get_task id
    serve_read (approvals status) =
        ok (approval_list (order_by (λ (a b : ApprovalRow). leb b.id a.id) (own_approvals status)))
    serve_read (audit limit) = get_audit limit
    serve_read (traces limit) = ok (
        trace_list (
          take limit (
            newest_first
              (select (λ (c : CheckpointRow). c.tenant_id == p.tenant_id) w.checkpoints))))
