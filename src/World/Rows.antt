-- ===== src/World/Rows.antt =====
-- The rows of the tables (postgres/schema.sql), with a data type for the texts that a status column
-- or a workflow state is given. Times are numbers; the columns that only record what was reviewed,
-- noted or measured are left out.
use aurelian_autonomous_ente.Prelude.{ℕ, String, List, Option, Text}
use aurelian_autonomous_ente.Json.{Value, Fields}

pub data TaskStatus : Type 0 where
  running pending_approval blocked completed recovery_required failed rolled_back : TaskStatus

pub data WorkflowState : Type 0 where
  created input_guard plan policy wait_approval blocked jit_policy jit_blocked : WorkflowState
  execute_retry execute verify complete failed recovery_required rolled_back denied : WorkflowState

pub data ApprovalStatus : Type 0 where
  pending executing approved denied recovery_required execution_failed : ApprovalStatus

pub data ExecutionStatus : Type 0 where
  executing completed failed execution_unknown : ExecutionStatus

pub data CompensationStatus : Type 0 where
  available executing used execution_unknown : CompensationStatus

-- The result of a workflow, as its dict literals in app/agent.py; the task's id is that of the call.
pub data Outcome : Type 0 where
  pending_approval : (approval_id : ℕ) (tool risk approval_tier reason : String) → Outcome
  blocked : (reason : String) → Outcome
  recovery_required : (tool execution_key : String) → Outcome
  failed_safe : (reason : String) → Outcome
  completed : (tool : String) (output : Fields) (attempts : ℕ) (execution_key : String) → Outcome
  rolled_back : (output : Fields) (execution_key : String) → Outcome
  no_compensation : Outcome
  conflict : Outcome

pub record TaskRow : Type 0 where
  pub id : ℕ
  pub tenant_id : String
  pub request : Text
  pub actor : String
  pub role : String
  pub status : TaskStatus
  pub workflow_state : WorkflowState
  pub result : Option Outcome
  pub idempotency_key : Option String
  pub updated_at : ℕ

pub record CheckpointRow : Type 0 where
  pub tenant_id : String
  pub task_id : ℕ
  pub node : WorkflowState
  pub attempt : ℕ

pub record ApprovalRow : Type 0 where
  pub id : ℕ
  pub tenant_id : String
  pub task_id : ℕ
  pub tool_name : String
  pub args : Fields
  pub actor : String
  pub requester_role : String
  pub approval_tier : String
  pub status : ApprovalStatus
  pub reason : String
  pub reviewed_by : Option String
  pub started_at : Option ℕ

pub record ExecutionRow : Type 0 where
  pub id : ℕ
  pub tenant_id : String
  pub task_id : ℕ
  pub phase : String
  pub tool_name : String
  pub idempotency_key : String
  pub status : ExecutionStatus
  pub output : Option Fields
  pub error_type : Option String
  pub started_at : ℕ

pub record CompensationRow : Type 0 where
  pub id : ℕ
  pub tenant_id : String
  pub task_id : ℕ
  pub tool_name : String
  pub compensation : Value
  pub status : CompensationStatus
  pub execution_key : String
  pub created_at : ℕ

-- An entry of the audit ledger, by its tenant, actor, type and the task or approval it names.
pub record AuditEntry : Type 0 where
  pub tenant_id : String
  pub actor : String
  pub event_type : String
  pub subject : ℕ

-- A product row; prices are the bits of a float, and `others` has the columns that the code only
-- passes on.
pub record ProductRow : Type 0 where
  pub tenant_id : String
  pub sku : String
  pub name : String
  pub price : ℕ
  pub stock : ℕ
  pub reorder_point : ℕ
  pub demand_trend : String
  pub others : Fields

pub record CustomerRow : Type 0 where
  pub tenant_id : String
  pub customer_code : String
  pub lifetime_value : ℕ
  pub others : Fields

pub record OrderRow : Type 0 where
  pub id : ℕ
  pub tenant_id : String
  pub order_code : String
  pub customer_code : String
  pub total : ℕ
  pub status : String
  pub others : Fields

pub record IncidentRow : Type 0 where
  pub id : ℕ
  pub tenant_id : String
  pub title : String
  pub status : String
  pub others : Fields

-- The business tables, which only the tools write.
pub record Store : Type 0 where
  pub incidents : List IncidentRow
  pub products : List ProductRow
  pub customers : List CustomerRow
  pub orders : List OrderRow

-- A call of a tool, with the execution key under which it was made.
pub record Call : Type 0 where
  pub tenant_id : String
  pub execution_key : String
  pub tool : String
  pub args : Fields

pub record World : Type 0 where
  pub tasks : List TaskRow
  pub checkpoints : List CheckpointRow
  pub approvals : List ApprovalRow
  pub executions : List ExecutionRow
  pub compensations : List CompensationRow
  pub audit : List AuditEntry
  pub store : Store
  -- the tool calls made so far, newest first
  pub calls : List Call
  -- the number of statements and outside calls made so far
  pub tick : ℕ
